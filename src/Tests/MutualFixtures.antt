-- ===== src/Tests/MutualFixtures.antt =====
-- The parties and the messages of the runs of the mutual handshake.
use iroh_hyde_auth.Common.{
  arith, ltb, ◌≡◌, ◌^◌, IsU64, ℕ, some, String, [], ◌∷◌, ◌++◌, Bytes, ◌==◌, nat_eq, list_eq, length,
  take, drop, if◌then◌else◌,
}
use iroh_hyde_auth.Error.{StdResult, ok, err}
use iroh_hyde_auth.Net.{World}
use iroh_hyde_auth.Wire.{
  MutualCodecs, MutualHello, MutualChallenge, MutualResponse, mutual_transcript, role_initiator,
  role_acceptor,
}
use iroh_hyde_auth.Wire.Frames.{frame}
use iroh_hyde_auth.Verifier.{InstitutionVerifier, untrusted_key}
use iroh_hyde_auth.Signer.{InstitutionalSigner}
use iroh_hyde_auth.Mutual.{MutualAuthProtocol, Shared}
use iroh_hyde_auth.Tests.Fixtures.{nonce, client_id, server_id, peer, world_with}

-- The messages, written out.
abbrev pub hello_of : Bytes → StdResult MutualHello String
hello_of [] = err "unexpected end"
hello_of (v ∷ n) = ok (record { version = v; nonce = n })

abbrev pub challenge_from : Bytes → StdResult MutualChallenge String
challenge_from (v ∷ t ∷ k ∷ rest) =
    if ltb t (2 ^ 64)
    then ok (record {
      version = v;
      nonce = take 32 rest;
      verifying_key = take k (drop 32 rest);
      signature = drop k (drop 32 rest);
      acceptor_unix_secs = t;
    })
    else err "integer too large"
challenge_from _ = err "unexpected end"

abbrev pub response_from : Bytes → StdResult MutualResponse String
response_from (t ∷ k ∷ rest) =
    if ltb t (2 ^ 64)
    then ok
        (record { verifying_key = take k rest; signature = drop k rest; initiator_unix_secs = t })
    else err "integer too large"
response_from _ = err "unexpected end"

pub challenge_typed :
    (bytes : Bytes) (c : MutualChallenge) → challenge_from bytes ≡ ok c → IsU64 c.acceptor_unix_secs
challenge_typed [] c e = absurd (ground (arith, e))
challenge_typed (v ∷ []) c e = absurd (ground (arith, e))
challenge_typed (v ∷ t ∷ []) c e = absurd (ground (arith, e))
challenge_typed (v ∷ t ∷ k ∷ rest) c e = ground (arith, e)

pub response_typed :
    (bytes : Bytes) (r : MutualResponse) → response_from bytes ≡ ok r → IsU64 r.initiator_unix_secs
response_typed [] r e = absurd (ground (arith, e))
response_typed (t ∷ []) r e = absurd (ground (arith, e))
response_typed (t ∷ k ∷ rest) r e = ground (arith, e)

abbrev pub codecs : MutualCodecs
codecs = record {
  hello = record { to_allocvec = λ msg. ok (msg.version ∷ msg.nonce); from_bytes = hello_of };
  challenge = record {
    to_allocvec = λ msg. ok (
        msg.version
        ∷ msg.acceptor_unix_secs
        ∷ length msg.verifying_key
        ∷ (msg.nonce ++ (msg.verifying_key ++ msg.signature)));
    from_bytes = challenge_from;
  };
  response = record {
    to_allocvec = λ msg.
        ok (
          msg.initiator_unix_secs
          ∷ length msg.verifying_key
          ∷ (msg.verifying_key ++ msg.signature));
    from_bytes = response_from;
  };
}

-- A signature is the key before the message.
abbrev pub signer_of : ℕ → InstitutionalSigner
signer_of key = record { verifying_key = key ∷ []; sign = λ message. ok (key ∷ message) }

abbrev pub trusting : InstitutionVerifier
trusting = record {
  verify =
      λ vk message signature. if signature == vk ++ message then ok "site-a" else err untrusted_key;
}

abbrev pub distrusting : InstitutionVerifier
distrusting = record { verify = λ vk message signature. err untrusted_key }

abbrev pub protocol : MutualAuthProtocol
protocol = record { signer = signer_of 21; verifier = trusting; max_skew_secs = some 300 }

abbrev pub shared : Shared
shared = record { allowed = []; local_id = some server_id }

abbrev pub acceptor_message : Bytes
acceptor_message = mutual_transcript role_acceptor nonce server_id 1000

abbrev pub initiator_message : Bytes
initiator_message = mutual_transcript role_initiator nonce client_id 1000

abbrev pub hello_bytes : Bytes
hello_bytes = 0 ∷ nonce

abbrev pub challenge_bytes : Bytes
challenge_bytes = 0 ∷ 1000 ∷ 1 ∷ (nonce ++ 21 ∷ 21 ∷ acceptor_message)

abbrev pub response_bytes : Bytes
response_bytes = 1000 ∷ 1 ∷ 22 ∷ 22 ∷ initiator_message

abbrev pub hello : MutualHello
hello = record { version = 0; nonce = nonce }

abbrev pub challenge : MutualChallenge
challenge = record {
  version = 0;
  nonce = nonce;
  verifying_key = 21 ∷ [];
  signature = 21 ∷ acceptor_message;
  acceptor_unix_secs = 1000;
}

abbrev pub response : MutualResponse
response = record {
  verifying_key = 22 ∷ [];
  signature = 22 ∷ initiator_message;
  initiator_unix_secs = 1000;
}

abbrev pub accepting : World
accepting = world_with (peer client_id (frame hello_bytes ++ frame response_bytes))

abbrev pub dialling : World
dialling = world_with (peer server_id (frame challenge_bytes))
