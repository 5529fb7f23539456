-- ===== src/Tests/Fixtures.antt =====
-- The parties, the encodings and the surroundings of the runs.
use iroh_hyde_auth.Common.{
  true, false, ℕ, ◌*◌, ◌^◌, ◌≡◌, refl, ◌&&◌, none, String, [], ◌∷◌, ◌++◌, arith, Bytes, IsU64,
  replicate, length, take, drop, ltb, ◌==◌, list_eq, if◌then◌else◌,
}
use iroh_hyde_auth.Error.{StdResult, ok, err}
use iroh_hyde_auth.Net.{application_closed, EndpointAddr, EndpointId, Remote, World, after_epoch}
use iroh_hyde_auth.Net.Healthy.{IsHealthy}
use iroh_hyde_auth.Hyde.{Hyde}
use iroh_hyde_auth.Wire.{Postcard, Codecs, ClientHello, ServerChallenge, ClientAuth, transcript}
use iroh_hyde_auth.Wire.Frames.{frame}
use iroh_hyde_auth.Verifier.{HydeVerifier, new}
use iroh_hyde_auth.Verifier.Roster

abbrev pub nonce : Bytes
nonce = replicate 32 7

abbrev pub client_id : EndpointId
client_id = replicate 32 5

abbrev pub server_id : EndpointId
server_id = replicate 32 6

abbrev pub server_addr : EndpointAddr
server_addr = record { id = server_id; direct = "10.0.0.1:4433" ∷ [] }

abbrev pub site_key : Bytes
site_key = 11 ∷ 12 ∷ []

-- An encoding of each message, which gives the message back.
abbrev pub hello_codec : Postcard ClientHello
hello_codec = record {
  to_allocvec = λ msg. ok (msg.version ∷ []);
  from_bytes =
      λ bytes. elim bytes [ [] ↦ err "unexpected end" | v ∷ rest ↦ ok (record { version = v }) ];
}

abbrev pub challenge_codec : Postcard ServerChallenge
challenge_codec = record {
  to_allocvec = λ msg. ok (msg.version ∷ msg.server_unix_secs ∷ msg.nonce);
  from_bytes = λ bytes. elim bytes [
    | [] ↦ err "unexpected end"
    | v ∷ rest ↦ elim rest [
      | [] ↦ err "unexpected end"
      | t ∷ n ↦ ok (record { version = v; nonce = n; server_unix_secs = t })
    ]
  ];
}

abbrev auth_of : Bytes → StdResult ClientAuth String
auth_of (t ∷ n ∷ rest) =
    if ltb t (2 ^ 64)
    then ok (record { verifying_key = take n rest; signature = drop n rest; client_unix_secs = t })
    else err "integer too large"
auth_of _ = err "unexpected end"

abbrev pub codecs : Codecs
codecs = record {
  hello = hello_codec;
  challenge = challenge_codec;
  auth = record {
    to_allocvec = λ msg.
        ok (msg.client_unix_secs ∷ length msg.verifying_key ∷ (msg.verifying_key ++ msg.signature));
    from_bytes = auth_of;
  };
}

pub auth_typed :
    (bytes : Bytes) (auth : ClientAuth) → auth_of bytes ≡ ok auth → IsU64 auth.client_unix_secs
auth_typed [] auth e = absurd (ground (arith, e))
auth_typed (t ∷ []) auth e = absurd (ground (arith, e))
auth_typed (t ∷ n ∷ rest) auth e = ground (arith, e)

-- What the institution signs: the transcript of this nonce, its own endpoint and this time.
abbrev pub message : Bytes
message = transcript nonce client_id 1000

-- Key pairs are equal halves, and a signature is the key before the message.
abbrev pub hyde : Hyde
hyde = record {
  SigningAlgorithm = ℕ;
  ml_dsa65 = 65;
  FallbackPolicy = Unit {0};
  HydeContext = ℕ;
  WrappedSigningKey = Bytes;
  verifying_key = λ key. key;
  auto_detect = λ policy. ok 0;
  generate_signing_key = λ ctx algorithm. (ok site_key, ctx);
  sign = λ ctx key m. (if m == message then ok (key ++ m) else err "refused", ctx);
  verify_signature = λ algorithm vk m signature. ok (m == message && signature == vk ++ m);
}

abbrev pub site_signature : Bytes
site_signature = site_key ++ message

abbrev pub roster : Roster.Roster
roster = Roster.insert Roster.new site_key "site-a"

abbrev pub verifier : HydeVerifier hyde
verifier = new hyde roster

abbrev pub site_auth : ClientAuth
site_auth = record { verifying_key = site_key; signature = site_signature; client_unix_secs = 1000 }

abbrev pub hello_bytes : Bytes
hello_bytes = 0 ∷ []

abbrev pub challenge_bytes : Bytes
challenge_bytes = 0 ∷ 1000 ∷ nonce

abbrev pub auth_bytes : Bytes
auth_bytes = 1000 ∷ 2 ∷ (site_key ++ site_signature)

-- A peer with this id, which writes these bytes and then closes with code 1, on a healthy network.
abbrev pub peer : EndpointId → Bytes → Remote
peer id bytes = record {
  id = id;
  connect_error = none;
  stream_error = none;
  write_error = λ sent. none;
  finish_error = none;
  stream = λ sent. bytes;
  ended = λ sent. true;
  read_error = λ sent. "connection lost";
  reason = λ sent. application_closed 1 "closed by peer: accepted (code 1)";
}

pub peer-IsHealthy : (id : EndpointId) (bytes : Bytes) → IsHealthy (peer id bytes)
peer-IsHealthy id bytes = record {
  connects = refl;
  opens = refl;
  writes = λ b. refl;
  finishes = refl;
}

abbrev pub world_with : Remote → World
world_with remote = record {
  remote = remote;
  sent = [];
  finished = false;
  taken = 0;
  rng = λ i. nonce;
  draws = 0;
  clock = λ i. after_epoch (1000 * 10 ^ 9);
  ticks = 0;
  join_error = none;
  closed = none;
}

-- What the acceptor meets: an honest initiator.
abbrev pub accepting : World
accepting = world_with (peer client_id (frame hello_bytes ++ frame auth_bytes))

-- What the initiator meets: an honest acceptor.
abbrev pub dialling : World
dialling = world_with (peer server_id (frame challenge_bytes))
