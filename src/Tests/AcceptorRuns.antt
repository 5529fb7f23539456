-- ===== src/Tests/AcceptorRuns.antt =====
-- The acceptor of incoming.rs.
use iroh_hyde_auth.Common.{
  Any, ℕ, ◌+◌, put, ◌≡◌, ◌≢◌, refl, ap, Bool, true, ◌&&◌, some, String, [], ◌∷◌, ◌++◌, arith, Bytes,
  codes, u64_to_be_bytes, list_eq, list_beq, list_beq_iff, get, length,
}
use iroh_hyde_auth.Error.{StdResult, ok}
use iroh_hyde_auth.Net.{World, accept_connection}
use iroh_hyde_auth.Wire.{transcript, alpn}
use iroh_hyde_auth.Wire.Frames.{frame, took}
use iroh_hyde_auth.Util.{whole_secs, is_skewed}
use iroh_hyde_auth.Verifier.{as_verifier, verify, new}
use iroh_hyde_auth.Verifier.Roster
use iroh_hyde_auth.Incoming.{AuthProtocol, incoming, run_handshake, after_handshake}
use iroh_hyde_auth.Incoming.Gate.{Authenticates, after_all, gate_sound, gate_complete}
use iroh_hyde_auth.Incoming.Binding.{one_way, Parties, accepted_operator}
use iroh_hyde_auth.Incoming.Completeness.{challenged, run_handshake_complete}
use iroh_hyde_auth.Tests.Fixtures.{
  nonce, client_id, site_auth, message, roster, hyde, verifier, codecs, auth_typed, hello_bytes,
  challenge_bytes, auth_bytes, accepting, peer-IsHealthy,
}

abbrev protocol : AuthProtocol
unfolding incoming
protocol = (incoming (as_verifier hyde verifier)).0

abbrev told : World
told = took (4 + length auth_bytes) (challenged hello_bytes challenge_bytes accepting)

passes : run_handshake codecs protocol accepting ≡ (ok "site-a", told)
unfolding frame incoming whole_secs transcript u64_to_be_bytes is_skewed verify Roster.contains get
    new Roster.insert put list_beq Roster.label
passes =
    run_handshake_complete codecs protocol accepting site_auth hello_bytes challenge_bytes
      auth_bytes "site-a" (frame auth_bytes) []
      (peer-IsHealthy client_id (frame hello_bytes ++ frame auth_bytes))
      (record { encodes = refl; decodes = refl; fits = omega arith })
      (record { encodes = refl; decodes = refl; fits = omega arith })
      (record { encodes = refl; decodes = refl; fits = omega arith }) refl refl refl refl

uses : protocol.verifier ≡ as_verifier hyde verifier
unfolding incoming
uses = refl

and_left : (a b : Bool) → ◌≡◌ {A = StdResult Bool String} (ok (a && b)) (ok true) → a ≡ true
and_left a b e = ground (arith, e)

accepts : (run_handshake codecs protocol accepting).0 ≡ ok "site-a"
accepts = ap (λ r. r.0) passes

other_alpn : codes "echo/0" ≢ alpn
unfolding list_beq
other_alpn e = absurd (ground (arith, list_beq_iff (codes "echo/0") alpn, e))

gate_sound_example : Any (Authenticates codecs protocol client_id) (accepting ∷ accepting ∷ [])
gate_sound_example =
    gate_sound codecs protocol (accepting ∷ accepting ∷ []) (codes "echo/0") client_id
      (refl, (refl, tt)) other_alpn admitted
  where
    admitted :
        after_handshake
          (after_all codecs protocol (accepting ∷ accepting ∷ []) [])
          (codes "echo/0")
          client_id
        ≡ accept_connection
    admitted =
        gate_complete codecs protocol accepting [] (accepting ∷ []) "site-a" (codes "echo/0")
          (refl, (refl, tt)) accepts

-- The holder of every key signs this one message, and operates this one endpoint.
abbrev parties : Parties hyde verifier.algorithm
parties = record {
  Signed = λ vk m. m ≡ message;
  Operates = λ vk id. id ≡ client_id;
  unforged = λ vk m signature e. (list_beq_iff m message).0 (and_left _ _ e);
  honest = λ vk m e. one_way nonce client_id 1000 refl refl (omega arith) refl e;
}

accepted_operator_example :
    (vk : Bytes) × (time : ℕ) × (Roster.label roster vk ≡ some "site-a")
    × (client_id ≡ client_id)
    × (transcript nonce client_id time ≡ message)
unfolding new
accepted_operator_example =
    accepted_operator codecs hyde verifier parties auth_typed protocol accepting "site-a" told uses
      refl refl passes
