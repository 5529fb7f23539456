-- ===== src/Mutual/Exchange.antt =====
-- The messages and the worlds of an exchange of the mutual handshake in mutual.rs.
use iroh_hyde_auth.Common.{ℕ, suc, ◌+◌, ◌≡◌, refl, none, some, Option, Bytes, length, nat_eq}
use iroh_hyde_auth.Error.{ok, Error}
use iroh_hyde_auth.Net.{EndpointAddr, World, dialled}
use iroh_hyde_auth.Wire.{MutualHello, MutualChallenge, MutualResponse, protocol_version}
use iroh_hyde_auth.Wire.Frames.{frame, wrote, took}
use iroh_hyde_auth.Util.{unix_secs, is_skewed, is_skewed_now}
use iroh_hyde_auth.Signer.{InstitutionalSigner}
use iroh_hyde_auth.Incoming.Soundness.{now, next_nonce}

-- The challenge that an acceptor makes in this world.
abbrev pub challenge_of : InstitutionalSigner → Bytes → World → MutualChallenge
challenge_of signer signature w = record {
  version = protocol_version;
  nonce = next_nonce w;
  verifying_key = signer.verifying_key;
  signature = signature;
  acceptor_unix_secs = now w;
}

-- The world when the response is awaited.
abbrev pub challenged : Bytes → Bytes → World → World
challenged hello_bytes challenge_bytes w =
    wrote (frame challenge_bytes)
      (record (took (4 + length hello_bytes) w) { draws = suc w.draws; ticks = suc w.ticks })

-- The time that is read for the test of the peer's time, by whether the test is made.
abbrev pub ticks_after : Option ℕ → ℕ → ℕ
ticks_after none ticks = ticks
ticks_after (some max) ticks = suc ticks

abbrev pub timed : Option ℕ → World → World
timed max w = record w { ticks = ticks_after max w.ticks }

-- The initiator's worlds: when the challenge is awaited, and when the response is made.
abbrev pub greeted : EndpointAddr → Bytes → World → World
greeted addr hello_bytes w =
    wrote (frame hello_bytes) (record (dialled addr w) { draws = suc w.draws })

abbrev pub checked : EndpointAddr → Option ℕ → Bytes → Bytes → World → World
checked addr max hello_bytes challenge_bytes w =
    timed max (took (4 + length challenge_bytes) (greeted addr hello_bytes w))

-- The response of an initiator in this world.
abbrev pub response_of : InstitutionalSigner → Bytes → World → MutualResponse
response_of signer signature w = record {
  verifying_key = signer.verifying_key;
  signature = signature;
  initiator_unix_secs = now w;
}

abbrev pub mutual_greeting : World → MutualHello
mutual_greeting w = record { version = protocol_version; nonce = next_nonce w }

-- The test of the peer's time, at one reading of the clock if there is a tolerance.
pub is_skewed_now_lem :
    (max : Option ℕ) (asserted : ℕ) (w : World)
    → is_skewed_now {E = Error} max asserted w ≡ (ok (is_skewed max (now w) asserted), timed max w)
unfolding is_skewed_now unix_secs is_skewed
is_skewed_now_lem none asserted w = refl
is_skewed_now_lem (some max) asserted w = refl

-- The initiator's world when its nonce has been drawn.
abbrev pub drawn : EndpointAddr → World → World
drawn addr w = record (dialled addr w) { draws = suc w.draws }
