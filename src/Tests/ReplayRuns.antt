-- ===== src/Tests/ReplayRuns.antt =====
-- Two connections of one initiator to the acceptor of incoming.rs, with a nonce each.
use iroh_hyde_auth.Common.{
  ◌+◌, ◌≡◌, ◌≢◌, ◌∙◌, refl, sym, ap, true, some, [], ◌∷◌, ◌++◌, arith, Bytes, replicate,
  u64_to_be_bytes, nat_eq, list_eq, list_beq, list_beq_iff, length, drop, drop-append, get, put,
}
use iroh_hyde_auth.Error.{ok}
use iroh_hyde_auth.Net.{World}
use iroh_hyde_auth.Wire.{ClientAuth, transcript}
use iroh_hyde_auth.Wire.Frames.{frame, took}
use iroh_hyde_auth.Util.{whole_secs, is_skewed}
use iroh_hyde_auth.Verifier.{HydeVerifier, as_verifier, verify}
use iroh_hyde_auth.Verifier.Roster
use iroh_hyde_auth.Incoming.{AuthProtocol, run_handshake}
use iroh_hyde_auth.Incoming.Soundness.{Accepted}
use iroh_hyde_auth.Incoming.Completeness.{challenged, run_handshake_complete}
use iroh_hyde_auth.Incoming.Binding.{no_replay}
use iroh_hyde_auth.Tests.Fixtures.{
  client_id, site_key, site_auth, roster, codecs, auth_typed, hello_bytes, challenge_bytes,
  auth_bytes, accepting, peer, world_with, peer-IsHealthy,
}
use iroh_hyde_auth.Tests.MutualInstitutionRuns.{hyde}

abbrev later_nonce : Bytes
later_nonce = replicate 32 8

abbrev later_message : Bytes
later_message = transcript later_nonce client_id 1000

abbrev verifier : HydeVerifier hyde
verifier = record { roster = roster; algorithm = 65 }

signed :
    (vk m signature : Bytes)
    → hyde.verify_signature 65 vk m signature ≡ ok true
    → signature ≡ vk ++ m
signed vk m signature e = (list_beq_iff signature (vk ++ m)).0 (ground (arith, e))

-- A signature has the message behind the key, so that it is good for that one only.
bound :
    (vk m m' signature : Bytes)
    → hyde.verify_signature 65 vk m signature ≡ ok true
    → hyde.verify_signature 65 vk m' signature ≡ ok true
    → m ≡ m'
bound vk m m' signature e e' =
    sym (drop-append (length vk) vk m refl)
    ∙ ap (drop (length vk)) (sym (signed vk m signature e) ∙ signed vk m' signature e')
    ∙ drop-append (length vk) vk m' refl

abbrev protocol : AuthProtocol
protocol = record { verifier = as_verifier hyde verifier; max_skew_secs = some 300 }

abbrev later_auth : ClientAuth
later_auth = record {
  verifying_key = site_key;
  signature = site_key ++ later_message;
  client_unix_secs = 1000;
}

abbrev later_auth_bytes : Bytes
later_auth_bytes = 1000 ∷ 2 ∷ (site_key ++ (site_key ++ later_message))

abbrev accepting_later : World
accepting_later =
    record (world_with (peer client_id (frame hello_bytes ++ frame later_auth_bytes))) {
      rng = λ i. later_nonce;
    }

abbrev first_left : World
first_left = took (4 + length auth_bytes) (challenged hello_bytes challenge_bytes accepting)

abbrev later_left : World
later_left =
    took (4 + length later_auth_bytes)
      (challenged hello_bytes (0 ∷ 1000 ∷ later_nonce) accepting_later)

first_accepted : run_handshake codecs protocol accepting ≡ (ok "site-a", first_left)
unfolding frame whole_secs transcript u64_to_be_bytes is_skewed verify Roster.contains get
    Roster.insert put list_beq Roster.label
first_accepted =
    run_handshake_complete codecs protocol accepting site_auth hello_bytes challenge_bytes
      auth_bytes "site-a" (frame auth_bytes) []
      (peer-IsHealthy client_id (frame hello_bytes ++ frame auth_bytes))
      (record { encodes = refl; decodes = refl; fits = omega arith })
      (record { encodes = refl; decodes = refl; fits = omega arith })
      (record { encodes = refl; decodes = refl; fits = omega arith }) refl refl refl refl

later_accepted : run_handshake codecs protocol accepting_later ≡ (ok "site-a", later_left)
unfolding frame whole_secs transcript u64_to_be_bytes is_skewed verify Roster.contains get
    Roster.insert put list_beq Roster.label
later_accepted =
    run_handshake_complete codecs protocol accepting_later later_auth hello_bytes
      (0 ∷ 1000 ∷ later_nonce) later_auth_bytes "site-a" (frame later_auth_bytes) []
      (peer-IsHealthy client_id (frame hello_bytes ++ frame later_auth_bytes))
      (record { encodes = refl; decodes = refl; fits = omega arith })
      (record { encodes = refl; decodes = refl; fits = omega arith })
      (record { encodes = refl; decodes = refl; fits = omega arith }) refl refl refl refl

no_replay_example :
    (a : Accepted codecs protocol "site-a" accepting first_left) × (b : Accepted codecs protocol
      "site-a" accepting_later later_left)
    × (a.auth_bytes ≢ b.auth_bytes)
    × ¬ ((a.auth.verifying_key ≡ b.auth.verifying_key) × (a.auth.signature ≡ b.auth.signature))
no_replay_example =
    no_replay codecs hyde verifier auth_typed bound protocol accepting accepting_later "site-a"
      "site-a" first_left later_left refl refl refl refl refl first_accepted later_accepted
      λ same. absurd (ground (arith, same.0))
