-- ===== src/SshAgent/RoundTrip.antt =====
-- Signing through an agent and verifying: `SshAgentSigner` against `SshVerifier` of ssh_agent.rs.
use iroh_hyde_auth.Common.{
  ◌^◌, ◌<◌, ◌≡◌, true, Option, String, ◌++◌, Bytes, arith, length, list_eq, beq_refl,
}
use iroh_hyde_auth.Error.{ok}
use iroh_hyde_auth.Verifier.Roster
use iroh_hyde_auth.SshAgent.Client.{Agent, SshAgentSigner, connect, sign}
use iroh_hyde_auth.SshAgent.Checks.{Ed25519, new, verify}
use iroh_hyde_auth.SshAgent.Decision.{ssh_verify_ok}
use iroh_hyde_auth.SshAgent.Layout.{ssh_string}
use iroh_hyde_auth.SshAgent.Answers.{signature_answer}
use iroh_hyde_auth.SshAgent.Session.{IsReachable, signature_request, sign_complete}
use iroh_hyde_auth.SshAgent.Soundness.{connect-IsSound}

module _ (ed : Ed25519) (agents : String → Agent) (sock : String) (want : Option Bytes) where
  -- A signer that `connect` has given signs through its agent, and `SshVerifier` accepts what it has
  -- signed as the institution under whose label the roster was given the signer's public key. This is
  -- for an agent whose socket works and which answers the framed request with a signature of 64
  -- bytes that is strictly good for the message under that key, for a key of ed25519, and for a key
  -- blob and a message of fewer than 2 ^ 30 bytes.
  pub ssh_verify-sign :
      (s : SshAgentSigner) (message sig rest : Bytes) (key : ed.VerifyingKey)
      (roster : Roster.Roster) (label : String)
      → connect agents sock want ≡ ok s
      → IsReachable (agents sock)
      → length s.key_blob < 2 ^ 30
      → length message < 2 ^ 30
      → (agents sock).reply (ssh_string (signature_request s.key_blob message))
        ≡ ssh_string (signature_answer sig) ++ rest
      → length sig ≡ 64
      → ed.from_bytes s.public_key ≡ ok key
      → ed.verify_strict key message sig ≡ true
      → (sign agents s message ≡ ok sig)
        × (verify ed (new (Roster.insert roster s.public_key label)) s.public_key message sig
            ≡ ok label)
  unfolding new
  ssh_verify-sign s message sig rest key roster label e reachable hk hm answers size parsed good =
      let sound = connect-IsSound sock want agents s e in
      (
        sign_complete agents s message sig rest (rw sound.sock_kept reachable) hk hm
            (omega (arith, size)) (rw sound.sock_kept answers),
        (ssh_verify_ok ed (new (Roster.insert roster s.public_key label)) s.public_key message sig
              label).1
            (rw (Roster.label-insert, beq_refl), sound.size, size, (key, parsed, good)),
      )
