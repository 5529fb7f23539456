-- ===== src/Outgoing/Completeness.antt =====
-- When `handshake` of outgoing.rs reaches the acceptor's verdict.
use iroh_hyde_auth.Common.{suc, ◌+◌, ◌≡◌, none, [], ◌++◌, arith, Bytes, length, nat_eq}
use iroh_hyde_auth.Error.{ok, err, transport}
use iroh_hyde_auth.Net.{EndpointId, EndpointAddr, World, dialled, arrived}
use iroh_hyde_auth.Net.Healthy.{IsHealthy}
use iroh_hyde_auth.Wire.{Codecs, ServerChallenge, ClientAuth, protocol_version, max_msg, transcript}
use iroh_hyde_auth.Wire.Frames.{
  ended, frame, wrote, took, Encodes, write_msg-Encodes, read_msg-Encodes,
}
use iroh_hyde_auth.Wire.Starved.{read_msg_starved}
use iroh_hyde_auth.Util.{unix_secs}
use iroh_hyde_auth.Signer.{InstitutionalSigner, sign_blocking}
use iroh_hyde_auth.Outgoing.Handshake.{handshake, verdict}
use iroh_hyde_auth.Incoming.Soundness.{now}
use iroh_hyde_auth.Incoming.Completeness.{greeting}

-- The world when the challenge is awaited, and when it has been read and the time been taken.
abbrev pub greeted : EndpointAddr → Bytes → World → World
greeted addr hello_bytes w = wrote (frame hello_bytes) (dialled addr w)

abbrev pub asked : EndpointAddr → Bytes → Bytes → World → World
asked addr hello_bytes challenge_bytes w =
    record (took (4 + length challenge_bytes) (greeted addr hello_bytes w)) { ticks = suc w.ticks }

-- The assertion that a signer makes in this world.
abbrev pub assertion : InstitutionalSigner → Bytes → World → ClientAuth
assertion signer signature w = record {
  verifying_key = signer.verifying_key;
  signature = signature;
  client_unix_secs = now w;
}

pub dialled-IsHealthy :
    (addr : EndpointAddr) (w : World) → IsHealthy w.remote → IsHealthy (dialled addr w).remote
dialled-IsHealthy addr w healthy = record {
  connects = healthy.connects;
  opens = healthy.opens;
  writes = healthy.writes;
  finishes = healthy.finishes;
}

-- Where the challenge does not come, the handshake has written its hello and ends with an error.
pub handshake_unanswered :
    (codecs : Codecs) (my_id : EndpointId) (addr : EndpointAddr) (signer : InstitutionalSigner)
    (w : World) (hello_bytes : Bytes)
    → IsHealthy w.remote
    → Encodes codecs.hello greeting hello_bytes
    → arrived (greeted addr hello_bytes w) ≡ []
    → handshake codecs my_id addr signer w ≡ (
      err (transport (w.remote.read_error (greeted addr hello_bytes w).sent)),
      greeted addr hello_bytes w,
    )
unfolding handshake
handshake_unanswered codecs my_id addr signer w hello_bytes healthy hello e = ground (
  arith,
  healthy.connects,
  healthy.opens,
  write_msg-Encodes codecs.hello greeting hello_bytes hello (dialled addr w)
      (dialled-IsHealthy addr w healthy),
  read_msg_starved codecs.challenge max_msg (greeted addr hello_bytes w) e,
)

module _ (codecs : Codecs) (my_id : EndpointId) (addr : EndpointAddr) (signer : InstitutionalSigner)
    (w : World) (challenge : ServerChallenge)
    (signature hello_bytes challenge_bytes auth_bytes : Bytes) where
  -- The handshake gives the verdict in which the peer's close results, having written its hello and
  -- its assertion, if the network is healthy, the peer delivers a challenge of this version once it
  -- has the hello, postcard gives the three messages back, the signer signs, and the blocking task
  -- ends.
  pub handshake_complete :
      (rest : Bytes)
      → IsHealthy w.remote
      → w.join_error ≡ none
      → Encodes codecs.hello greeting hello_bytes
      → Encodes codecs.challenge challenge challenge_bytes
      → Encodes codecs.auth (assertion signer signature w) auth_bytes
      → challenge.version ≡ protocol_version
      → arrived (greeted addr hello_bytes w) ≡ frame challenge_bytes ++ rest
      → signer.sign (transcript challenge.nonce my_id (now w)) ≡ ok signature
      → let done = ended (wrote (frame auth_bytes) (asked addr hello_bytes challenge_bytes w)) in
        handshake codecs my_id addr signer w ≡ (verdict (w.remote.reason done.sent), done)
  unfolding handshake unix_secs sign_blocking
  handshake_complete rest healthy joins hello question answer version e signed =
      let start = dialled-IsHealthy addr w healthy in
      ground (
        arith,
        healthy.connects,
        healthy.opens,
        healthy.finishes,
        write_msg-Encodes codecs.hello greeting hello_bytes hello (dialled addr w) start,
        read_msg-Encodes codecs.challenge challenge challenge_bytes question
            (greeted addr hello_bytes w) rest e,
        write_msg-Encodes codecs.auth (assertion signer signature w) auth_bytes answer
            (asked addr hello_bytes challenge_bytes w) start,
      )
