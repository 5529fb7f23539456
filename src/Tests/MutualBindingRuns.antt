-- ===== src/Tests/MutualBindingRuns.antt =====
-- Who is at the other end of a mutual exchange.
use iroh_hyde_auth.Common.{
  ℕ, suc, ◌+◌, length, ◌≡◌, refl, ◌⊎◌, inl, inr, Bool, true, false, ◌||◌, some, String, [], ◌∷◌,
  ◌++◌, arith, Bytes, u64_to_be_bytes, ◌==◌, list_eq, list_beq, list_beq_iff, get, put, remove,
}
use iroh_hyde_auth.Error.{StdResult, ok}
use iroh_hyde_auth.Net.{EndpointId, World}
use iroh_hyde_auth.Hyde.{Hyde}
use iroh_hyde_auth.Wire.{mutual_transcript, role_initiator, role_acceptor}
use iroh_hyde_auth.Wire.Frames.{ended, frame, wrote, took}
use iroh_hyde_auth.Util.{whole_secs, is_skewed}
use iroh_hyde_auth.Verifier.{HydeVerifier, new, as_verifier, verify}
use iroh_hyde_auth.Verifier.Roster
use iroh_hyde_auth.Outgoing.Handshake.{verdict}
use iroh_hyde_auth.Mutual.{MutualAuthProtocol, accept_handshake}
use iroh_hyde_auth.Mutual.Initiator.{handshake}
use iroh_hyde_auth.Mutual.Completeness.{accept_handshake_complete, mutual_handshake_complete}
use iroh_hyde_auth.Mutual.Exchange.{timed, challenged, checked}
use iroh_hyde_auth.Mutual.Binding.{
  Parties, AboutRole, in_role, Operator, accepted_initiator, dialled_acceptor,
}
use iroh_hyde_auth.Tests.Fixtures.{nonce, client_id, server_id, server_addr, peer-IsHealthy}
use iroh_hyde_auth.Tests.MutualFixtures.{
  codecs, challenge_typed, response_typed, signer_of, shared, acceptor_message, initiator_message,
  hello, challenge, response, hello_bytes, challenge_bytes, response_bytes, accepting, dialling,
}

-- The acceptor's key is 21 and the initiator's is 22; each has signed its own message.
abbrev hyde : Hyde
hyde = record {
  SigningAlgorithm = ℕ;
  ml_dsa65 = 65;
  FallbackPolicy = Unit {0};
  HydeContext = ℕ;
  WrappedSigningKey = Bytes;
  verifying_key = λ key. key;
  auto_detect = λ policy. ok 0;
  generate_signing_key = λ ctx algorithm. (ok (21 ∷ []), ctx);
  sign = λ ctx key m. (ok (key ++ m), ctx);
  verify_signature =
      λ algorithm vk m signature. ok (m == acceptor_message || m == initiator_message);
}

abbrev verifier : HydeVerifier hyde
verifier = new hyde (Roster.insert (Roster.insert Roster.new (21 ∷ []) "site-a") (22 ∷ []) "site-b")

abbrev protocol : MutualAuthProtocol
protocol = record {
  signer = signer_of 21;
  verifier = as_verifier hyde verifier;
  max_skew_secs = some 300;
}

abbrev Role : ℕ → EndpointId → Type 0
Role role id =
    ((role ≡ role_acceptor) × (id ≡ server_id)) ⊎ ((role ≡ role_initiator) × (id ≡ client_id))

signed_either :
    (a b : Bool) → ◌≡◌ {A = StdResult Bool String} (ok (a || b)) (ok true) → (a ≡ true) ⊎ (b ≡ true)
signed_either true b e = inl refl
signed_either false b e = inr (ground (arith, e))

one_of :
    (m : Bytes)
    → ((m == acceptor_message) ≡ true) ⊎ ((m == initiator_message) ≡ true)
    → AboutRole Role m
one_of m (inl e) =
    in_role 2 nonce server_id 1000 refl refl (omega arith) (inl (refl, refl))
      ((list_beq_iff m acceptor_message).0 e)
one_of m (inr e) =
    in_role 1 nonce client_id 1000 refl refl (omega arith) (inr (refl, refl))
      ((list_beq_iff m initiator_message).0 e)

abbrev parties : Parties hyde verifier.algorithm
parties = record {
  Signed = λ vk m. AboutRole Role m;
  Acts = λ vk. Role;
  unforged = λ vk m signature e. one_of m (signed_either _ _ e);
  honest = λ vk m signed. signed;
}

abbrev accepted : World
accepted =
    timed (some 300)
      (took (4 + length response_bytes) (challenged hello_bytes challenge_bytes accepting))

accepts : accept_handshake codecs protocol shared accepting ≡ (ok client_id, accepted)
unfolding frame mutual_transcript whole_secs u64_to_be_bytes is_skewed list_beq verify new
    Roster.contains Roster.insert Roster.label get put
accepts =
    accept_handshake_complete codecs protocol shared accepting server_id hello response
      (21 ∷ acceptor_message) hello_bytes challenge_bytes response_bytes (frame response_bytes) []
      "site-b" refl (peer-IsHealthy client_id (frame hello_bytes ++ frame response_bytes)) refl
      (record { encodes = refl; decodes = refl; fits = omega arith })
      (record { encodes = refl; decodes = refl; fits = omega arith })
      (record { encodes = refl; decodes = refl; fits = omega arith }) refl refl refl refl refl refl

abbrev made : World
made = checked server_addr (some 300) hello_bytes challenge_bytes dialling

abbrev told : World
told = ended (wrote (frame response_bytes) (record made { ticks = suc made.ticks }))

dials :
    handshake codecs client_id server_addr
      (signer_of 22)
      (as_verifier hyde verifier)
      (some 300)
      dialling
    ≡ (ok tt, told)
unfolding frame mutual_transcript whole_secs u64_to_be_bytes is_skewed list_beq verify new
    Roster.contains Roster.insert Roster.label get put verdict remove
dials =
    mutual_handshake_complete codecs client_id server_addr (signer_of 22)
      (as_verifier hyde verifier) (some 300) dialling challenge (22 ∷ initiator_message) hello_bytes
      challenge_bytes response_bytes [] "site-a" (peer-IsHealthy server_id (frame challenge_bytes))
      refl (record { encodes = refl; decodes = refl; fits = omega arith })
      (record { encodes = refl; decodes = refl; fits = omega arith })
      (record { encodes = refl; decodes = refl; fits = omega arith }) refl refl refl refl refl

accepted_initiator_example :
    (client_id ≡ accepting.remote.id)
    × Operator codecs hyde verifier parties role_initiator client_id
accepted_initiator_example =
    accepted_initiator codecs hyde verifier parties protocol shared accepting client_id accepted
      refl response_typed refl refl accepts

dialled_acceptor_example : Operator codecs hyde verifier parties role_acceptor server_id
dialled_acceptor_example =
    dialled_acceptor codecs hyde verifier parties client_id server_addr (signer_of 22) (some 300)
      dialling told challenge_typed refl refl dials
