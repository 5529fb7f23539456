-- ===== src/Incoming/Completeness.antt =====
-- When `run_handshake` of incoming.rs succeeds.
use iroh_hyde_auth.Common.{
  suc, ◌+◌, ◌≡◌, false, [], ◌++◌, arith, Bytes, length, nat_eq, if◌then◌else◌,
}
use iroh_hyde_auth.Error.{Result, ok, err, map_err, transport, clock_skew, denied}
use iroh_hyde_auth.Net.{World, arrived}
use iroh_hyde_auth.Net.Healthy.{IsHealthy}
use iroh_hyde_auth.Wire.{
  Codecs, ClientHello, ServerChallenge, ClientAuth, protocol_version, max_msg, transcript,
}
use iroh_hyde_auth.Wire.Frames.{frame, wrote, took, Encodes, write_msg-Encodes, read_msg-Encodes}
use iroh_hyde_auth.Wire.Starved.{read_msg_starved}
use iroh_hyde_auth.Verifier
use iroh_hyde_auth.Util.{unix_secs, is_skewed}
use iroh_hyde_auth.Verifier.{InstitutionId}
use iroh_hyde_auth.Incoming.{AuthProtocol, run_handshake}
use iroh_hyde_auth.Incoming.Soundness.{now, next_nonce}

abbrev pub greeting : ClientHello
greeting = record { version = protocol_version }

-- The challenge that an acceptor in this world sends.
abbrev pub challenge_of : World → ServerChallenge
challenge_of w = record {
  version = protocol_version;
  nonce = next_nonce w;
  server_unix_secs = now w;
}

-- The world when the answer is awaited: the hello is read, the challenge is drawn and written.
abbrev pub challenged : Bytes → Bytes → World → World
challenged hello_bytes challenge_bytes w =
    wrote (frame challenge_bytes)
      (record (took (4 + length hello_bytes) w) { draws = suc w.draws; ticks = suc w.ticks })

-- What the handshake makes of an answer, as the code tests it: first its time, then its signature.
abbrev pub judgement : AuthProtocol → World → ClientAuth → Result InstitutionId
judgement p w auth =
    if is_skewed p.max_skew_secs (now w) auth.client_unix_secs
    then err clock_skew
    else map_err (λ e. denied (Verifier.to_string e))
        (p.verifier.verify auth.verifying_key
          (transcript (next_nonce w) w.remote.id auth.client_unix_secs) auth.signature)

module _ (codecs : Codecs) (p : AuthProtocol) (w : World) (hello_bytes challenge_bytes : Bytes)
    (healthy : IsHealthy w.remote) (hello : Encodes codecs.hello greeting hello_bytes)
    (challenge : Encodes codecs.challenge (challenge_of w) challenge_bytes) where
  -- Where the answer does not come, the handshake has written its challenge and ends with an error.
  pub run_handshake_unanswered :
      (rest : Bytes)
      → arrived w ≡ frame hello_bytes ++ rest
      → arrived (challenged hello_bytes challenge_bytes w) ≡ []
      → run_handshake codecs p w ≡ (
        err (transport (w.remote.read_error (challenged hello_bytes challenge_bytes w).sent)),
        challenged hello_bytes challenge_bytes w,
      )
  unfolding run_handshake unix_secs
  run_handshake_unanswered rest e e' = ground (
    arith,
    healthy.opens,
    read_msg-Encodes codecs.hello greeting hello_bytes hello w rest e,
    write_msg-Encodes codecs.challenge (challenge_of w) challenge_bytes challenge
        (record (took (4 + length hello_bytes) w) { draws = suc w.draws; ticks = suc w.ticks })
        healthy,
    read_msg_starved codecs.auth max_msg (challenged hello_bytes challenge_bytes w) e',
  )

  -- An answer that comes is judged.
  pub run_handshake_judges :
      (auth : ClientAuth) (auth_bytes rest rest' : Bytes)
      → Encodes codecs.auth auth auth_bytes
      → arrived w ≡ frame hello_bytes ++ rest
      → arrived (challenged hello_bytes challenge_bytes w) ≡ frame auth_bytes ++ rest'
      → run_handshake codecs p w ≡ (
        judgement p w auth,
        took (4 + length auth_bytes) (challenged hello_bytes challenge_bytes w),
      )
  unfolding run_handshake unix_secs
  run_handshake_judges auth auth_bytes rest rest' answer e e' = ground (
    arith,
    healthy.opens,
    read_msg-Encodes codecs.hello greeting hello_bytes hello w rest e,
    write_msg-Encodes codecs.challenge (challenge_of w) challenge_bytes challenge
        (record (took (4 + length hello_bytes) w) { draws = suc w.draws; ticks = suc w.ticks })
        healthy,
    read_msg-Encodes codecs.auth auth auth_bytes answer (challenged hello_bytes challenge_bytes w)
        rest' e',
  )

module _ (codecs : Codecs) (p : AuthProtocol) (w : World) (auth : ClientAuth)
    (hello_bytes challenge_bytes auth_bytes : Bytes) where
  -- The handshake accepts with what the verifier says of the transcript with its own nonce and the
  -- connection's remote id, and has written just its challenge, if the network is healthy, the peer
  -- delivers a hello of this version first and an answer once it has the challenge, postcard gives
  -- the three messages back, and the answer's time is not out of the tolerance.
  pub run_handshake_complete :
      (institution : InstitutionId) (rest rest' : Bytes)
      → IsHealthy w.remote
      → Encodes codecs.hello greeting hello_bytes
      → Encodes codecs.challenge (challenge_of w) challenge_bytes
      → Encodes codecs.auth auth auth_bytes
      → arrived w ≡ frame hello_bytes ++ rest
      → arrived (challenged hello_bytes challenge_bytes w) ≡ frame auth_bytes ++ rest'
      → is_skewed p.max_skew_secs (now w) auth.client_unix_secs ≡ false
      → p.verifier.verify auth.verifying_key
          (transcript (next_nonce w) w.remote.id auth.client_unix_secs)
          auth.signature
        ≡ ok institution
      → run_handshake codecs p w
        ≡ (ok institution, took (4 + length auth_bytes) (challenged hello_bytes challenge_bytes w))
  run_handshake_complete institution rest rest' healthy hello challenge answer e e' fresh verified =
      ground (
        arith,
        run_handshake_judges codecs p w hello_bytes challenge_bytes healthy hello challenge auth
            auth_bytes rest rest' answer e e',
        fresh,
        verified,
      )
