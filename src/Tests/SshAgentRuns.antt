-- ===== src/Tests/SshAgentRuns.antt =====
-- The reader, the signer and the verifier of ssh_agent.rs.
use iroh_hyde_auth.Common.{
  u32_from_be_bytes, none, List, ◌==◌, list_eq, list_beq, if◌then◌else◌, ◌≡◌, refl, [], ◌∷◌, ◌++◌,
  arith, Bytes, replicate, length, u32_to_be_bytes,
}
use iroh_hyde_auth.Error.{ok}
use iroh_hyde_auth.Verifier.Roster
use iroh_hyde_auth.SshAgent.Failures.{IsSent, cut_off, socket_failures}
use iroh_hyde_auth.Common.{IsU32}
use iroh_hyde_auth.Error.{err, Error, signer_failed, concat}
use iroh_hyde_auth.SshAgent.Client.{
  Agent, SshAgentSigner, request_identities, sign_payload, connect, sign,
}
use iroh_hyde_auth.SshAgent.Answers.{signature_answer}
use iroh_hyde_auth.SshAgent.Soundness.{IsSound, connect-IsSound}
use iroh_hyde_auth.SshAgent.RoundTrip.{ssh_verify-sign}
use iroh_hyde_auth.SshAgent.Session.{IsReachable, identities, connect_complete}
use iroh_hyde_auth.SshAgent.Checks
use iroh_hyde_auth.SshAgent.Checks.{Ed25519, SshVerifier}
use iroh_hyde_auth.SshAgent.Reader.{
  Reader, put_string, new, take_bytes, read_string, ed25519_key_type, parse_ed25519_public_key,
}
use iroh_hyde_auth.SshAgent.Layout.{ssh_string}

abbrev public_key : Bytes
public_key = replicate 32 9

abbrev stored : Reader
stored = new (ssh_string (1 ∷ 2 ∷ 3 ∷ []) ++ 4 ∷ [])

-- An agent with two keys, of which the second one is of ed25519, and which signs with nines.
abbrev rsa_blob : Bytes
rsa_blob = ssh_string (7 ∷ 8 ∷ [])

abbrev ed25519_blob : Bytes
ed25519_blob = ssh_string ed25519_key_type ++ ssh_string public_key

abbrev loaded : List (Bytes × Bytes)
loaded = (rsa_blob, 1 ∷ []) ∷ (ed25519_blob, 2 ∷ []) ∷ []

abbrev message : Bytes
message = 3 ∷ 4 ∷ []

abbrev signature : Bytes
signature = replicate 64 9

abbrev agent : Agent
agent = record {
  connect_error = none;
  write_error = λ sent. none;
  reply = λ sent.
      if sent == ssh_string (request_identities ∷ [])
      then ssh_string (identities loaded)
      else ssh_string (signature_answer signature);
  read_error = λ sent. "failed to fill whole buffer";
}

agent-IsReachable : IsReachable agent
agent-IsReachable = record { connects = refl; writes = λ bytes. refl }

abbrev selected : SshAgentSigner
selected = record { sock = "/run/agent.sock"; key_blob = ed25519_blob; public_key = public_key }

connect_complete_example : connect (λ sock. agent) "/run/agent.sock" none ≡ ok selected
unfolding ssh_string u32_to_be_bytes list_beq parse_ed25519_public_key read_string take_bytes
    u32_from_be_bytes
connect_complete_example =
    connect_complete (λ sock. agent) "/run/agent.sock" none loaded [] agent-IsReachable
      (omega arith) (omega arith, omega arith, (omega arith, omega arith, tt)) (omega arith) refl

selects : connect (λ sock. agent) "/run/agent.sock" none ≡ ok selected
unfolding ssh_string u32_to_be_bytes list_beq parse_ed25519_public_key read_string take_bytes
    u32_from_be_bytes
selects =
    connect_complete (λ sock. agent) "/run/agent.sock" none loaded [] agent-IsReachable
      (omega arith) (omega arith, omega arith, (omega arith, omega arith, tt)) (omega arith) refl

connect-IsSound_example : IsSound "/run/agent.sock" none selected
connect-IsSound_example = connect-IsSound "/run/agent.sock" none (λ sock. agent) selected selects

abbrev ed : Ed25519
ed = record {
  VerifyingKey = Bytes;
  from_bytes = λ bytes. ok bytes;
  verify_strict = λ key m s. s == signature;
}

abbrev checks : SshVerifier
checks = Checks.new (Roster.insert Roster.new public_key "site-a")

ssh_verify-sign_example :
    (sign (λ sock. agent) selected message ≡ ok signature)
    × (Checks.verify ed
          (Checks.new (Roster.insert Roster.new public_key "site-b"))
          public_key
          message
          signature
        ≡ ok "site-b")
unfolding ssh_string u32_to_be_bytes list_beq
ssh_verify-sign_example =
    ssh_verify-sign ed (λ sock. agent) "/run/agent.sock" none selected message signature []
      public_key Roster.new "site-b" selects agent-IsReachable (omega arith) (omega arith) refl refl
      refl refl

-- An agent that announces nine bytes and sends two.
abbrev broken : Agent
broken = record {
  connect_error = none;
  write_error = λ sent. none;
  reply = λ sent. u32_to_be_bytes 9 ++ 5 ∷ 5 ∷ [];
  read_error = λ sent. "unexpected end of file";
}

takes : (request : Bytes) → IsU32 (length request) → IsSent broken request
takes request fits = record { connects = refl; fits = fits; length_written = refl; written = refl }

abbrev cut : Error
cut = signer_failed (concat "ssh-agent read: " "unexpected end of file")

sign_payload_fits : IsU32 (length (sign_payload ed25519_blob message))
unfolding sign_payload put_string u32_to_be_bytes ssh_string
sign_payload_fits = omega arith

socket_failures_example :
    (connect (λ sock. broken) "/run/agent.sock" none ≡ err cut)
    × (sign (λ sock. broken) selected message ≡ err cut)
socket_failures_example =
    socket_failures (λ sock. broken) "/run/agent.sock" none selected message cut cut
      (cut_off 9 (5 ∷ 5 ∷ []) (takes (request_identities ∷ []) (omega arith)) (omega arith)
        (omega arith) refl (omega arith) refl)
      (cut_off 9 (5 ∷ 5 ∷ []) (takes (sign_payload ed25519_blob message) sign_payload_fits)
        (omega arith) (omega arith) refl (omega arith) refl)
