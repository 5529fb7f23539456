-- ===== src/Tests/MutualInstitutionRuns.antt =====
-- Two institutions that trust one another, in the mutual handshake.
use iroh_hyde_auth.Common.{
  ℕ, ◌≡◌, ◌≢◌, ◌↔◌, refl, true, String, [], ◌∷◌, ◌++◌, arith, codes, Bytes, ◌==◌, nat_eq, list_eq,
  list_beq, list_beq_iff, beq_refl, get, u64_to_be_bytes,
}
use iroh_hyde_auth.Error.{ok}
use iroh_hyde_auth.Hyde.{Hyde, SignsFor}
use iroh_hyde_auth.Net.{EndpointId, accept_dial, accept_connection}
use iroh_hyde_auth.Wire.{mutual_transcript, mutual_alpn}
use iroh_hyde_auth.Util.{whole_secs}
use iroh_hyde_auth.Signer.{from_parts, sign}
use iroh_hyde_auth.Verifier.Roster
use iroh_hyde_auth.Mutual.{accept, after_handshake}
use iroh_hyde_auth.Mutual.Authenticator.{mutual_auth, authenticate, before_connect}
use iroh_hyde_auth.Session.Mutual.{IsWorking, accepting, shared}
use iroh_hyde_auth.Session.MutualInstitution.{
  Node, Trusts, AreTimely, dialled, link, mutually_admitted,
}
use iroh_hyde_auth.Tests.Fixtures.{client_id, server_id, peer-IsHealthy}
use iroh_hyde_auth.Tests.MutualFixtures.{
  codecs, acceptor_message, initiator_message, hello_bytes, challenge_bytes, response_bytes,
}
use iroh_hyde_auth.Tests.SessionRuns.{end, endings}

-- Key pairs are equal halves, and a signature is the key before the message.
abbrev pub hyde : Hyde
hyde = record {
  SigningAlgorithm = ℕ;
  ml_dsa65 = 65;
  FallbackPolicy = Unit {0};
  HydeContext = ℕ;
  WrappedSigningKey = Bytes;
  verifying_key = λ key. key;
  auto_detect = λ policy. ok 0;
  generate_signing_key = λ ctx algorithm. (ok (21 ∷ []), ctx);
  sign = λ ctx key m. (ok (key ++ m), ctx);
  verify_signature = λ algorithm vk m signature. ok (signature == vk ++ m);
}

pub every_key-SignsFor : (key : Bytes) → SignsFor hyde hyde.ml_dsa65 key
every_key-SignsFor key = record {
  verifies = λ c m signature e. ground (arith, e, beq_refl signature);
}

abbrev node : EndpointId → ℕ → ℕ → String → Node hyde
node id key trusted label = record {
  addr = record { id = id; direct = [] };
  ctx = 0;
  key = key ∷ [];
  roster = Roster.insert Roster.new (trusted ∷ []) label;
  end = end;
}

abbrev pub client : Node hyde
client = node client_id 22 21 "hospital-b"

abbrev pub server : Node hyde
server = node server_id 21 22 "hospital-a"

pub works :
    IsWorking
      (link hyde codecs endings client server)
      (21 ∷ acceptor_message)
      (22 ∷ initiator_message)
unfolding mutual_transcript whole_secs u64_to_be_bytes mutual_auth from_parts sign
works = record {
  hello_bytes = hello_bytes;
  challenge_bytes = challenge_bytes;
  response_bytes = response_bytes;
  healthy = peer-IsHealthy [] [];
  healthy' = peer-IsHealthy [] [];
  joins = refl;
  joins' = refl;
  hello = record { encodes = refl; decodes = refl; fits = omega arith };
  challenge = record { encodes = refl; decodes = refl; fits = omega arith };
  response = record { encodes = refl; decodes = refl; fits = omega arith };
  acceptor_signed = refl;
  initiator_signed = refl;
}

other_alpn : codes "echo/0" ≢ mutual_alpn
unfolding list_beq
other_alpn e = absurd (ground (arith, list_beq_iff (codes "echo/0") mutual_alpn, e))

mutually_admitted_example :
    let l = link hyde codecs endings client server in
    let both_trust =
      Trusts hyde client server
      × Trusts hyde server client
      × AreTimely hyde codecs endings client server in
    let left = dialled hyde codecs endings client server 0 in
    ((before_connect (codes "echo/0") (authenticate true (get left.replies 0)) ≡ accept_dial)
      ↔ both_trust)
    × ((after_handshake
            (accept codecs l.protocol (accepting l) (shared l)).0
            (codes "echo/0")
            client_id
          ≡ accept_connection)
        ↔ both_trust)
    × ((after_handshake left.shared (codes "echo/0") server_id ≡ accept_connection) ↔ both_trust)
mutually_admitted_example =
    mutually_admitted hyde codecs endings client server (21 ∷ acceptor_message)
      (22 ∷ initiator_message) (every_key-SignsFor (22 ∷ [])) (every_key-SignsFor (21 ∷ [])) works 0
      (codes "echo/0") other_alpn
