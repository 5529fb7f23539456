-- ===== src/Mutual/Completeness.antt =====
-- When both sides of the mutual handshake in mutual.rs succeed.
use iroh_hyde_auth.Common.{
  ℕ, suc, ◌+◌, ◌≡◌, false, none, some, Option, ◌++◌, arith, Bytes, length, nat_eq,
}
use iroh_hyde_auth.Error.{ok}
use iroh_hyde_auth.Net.{EndpointId, EndpointAddr, World, arrived}
use iroh_hyde_auth.Net.Healthy.{IsHealthy}
use iroh_hyde_auth.Wire.{
  MutualCodecs, MutualHello, MutualChallenge, MutualResponse, protocol_version, role_initiator,
  role_acceptor, mutual_transcript,
}
use iroh_hyde_auth.Wire.Frames.{ended, frame, wrote, took, Encodes}
use iroh_hyde_auth.Util.{whole_secs, is_skewed}
use iroh_hyde_auth.Verifier.{InstitutionId, InstitutionVerifier}
use iroh_hyde_auth.Signer.{InstitutionalSigner}
use iroh_hyde_auth.Outgoing.Handshake.{verdict}
use iroh_hyde_auth.Incoming.Soundness.{now, next_nonce}
use iroh_hyde_auth.Mutual.{MutualAuthProtocol, Shared, accept_handshake}
use iroh_hyde_auth.Mutual.Initiator.{handshake}
use iroh_hyde_auth.Mutual.Exchange.{challenge_of, challenged, timed, greeted, checked, response_of}
use iroh_hyde_auth.Mutual.Judgement.{accept_handshake_judges, mutual_handshake_answers}

module _ (codecs : MutualCodecs) (p : MutualAuthProtocol) (shared : Shared) (w : World)
    (local_id : EndpointId) (hello : MutualHello) (response : MutualResponse)
    (signature hello_bytes challenge_bytes response_bytes : Bytes) where
  -- The acceptor's side accepts the connection's remote id, having written just its challenge, if
  -- its own id is published, the network is healthy and the blocking task ends, the peer delivers a
  -- hello of this version first and a response once it has the challenge, postcard gives the three
  -- messages back, its signer signs, the response's time is not out of the tolerance at the next
  -- reading of the clock, and the verifier accepts the signature as initiator over the acceptor's
  -- own nonce and the connection's remote id.
  pub accept_handshake_complete :
      (rest rest' : Bytes) (institution : InstitutionId)
      → shared.local_id ≡ some local_id
      → IsHealthy w.remote
      → w.join_error ≡ none
      → Encodes codecs.hello hello hello_bytes
      → Encodes codecs.challenge (challenge_of p.signer signature w) challenge_bytes
      → Encodes codecs.response response response_bytes
      → hello.version ≡ protocol_version
      → p.signer.sign (mutual_transcript role_acceptor hello.nonce local_id (now w)) ≡ ok signature
      → arrived w ≡ frame hello_bytes ++ rest
      → arrived (challenged hello_bytes challenge_bytes w) ≡ frame response_bytes ++ rest'
      → is_skewed p.max_skew_secs (whole_secs (w.clock (suc w.ticks))) response.initiator_unix_secs
        ≡ false
      → p.verifier.verify response.verifying_key
          (mutual_transcript role_initiator (next_nonce w) w.remote.id response.initiator_unix_secs)
          response.signature
        ≡ ok institution
      → accept_handshake codecs p shared w ≡ (
        ok w.remote.id,
        timed p.max_skew_secs
            (took (4 + length response_bytes) (challenged hello_bytes challenge_bytes w)),
      )
  accept_handshake_complete rest rest' institution own healthy joins greet ask answer version signed
        e e' fresh verified =
      ground (
        arith,
        accept_handshake_judges codecs p shared w local_id hello signature hello_bytes
            challenge_bytes rest own healthy joins greet ask version signed e response
            response_bytes rest' answer e',
        fresh,
        verified,
      )

module _ (codecs : MutualCodecs) (my_id : EndpointId) (addr : EndpointAddr)
    (signer : InstitutionalSigner) (verifier : InstitutionVerifier) (max : Option ℕ) (w : World)
    (challenge : MutualChallenge)
    (signature hello_bytes challenge_bytes response_bytes : Bytes) where
  -- The initiator's side gives the verdict in which the peer's close results, having written its
  -- hello and its response, if the network is healthy and the blocking task ends, the peer delivers
  -- a challenge of this version once it has the hello, postcard gives the three messages back, the
  -- challenge's time is not out of the tolerance, the verifier accepts the acceptor's signature over
  -- the initiator's own nonce and the id that was dialled, and its own signer signs.
  pub mutual_handshake_complete :
      (rest : Bytes) (institution : InstitutionId)
      → IsHealthy w.remote
      → w.join_error ≡ none
      → Encodes codecs.hello
          (record { version = protocol_version; nonce = next_nonce w })
          hello_bytes
      → Encodes codecs.challenge challenge challenge_bytes
      → Encodes codecs.response
          (response_of signer signature (checked addr max hello_bytes challenge_bytes w))
          response_bytes
      → challenge.version ≡ protocol_version
      → arrived (greeted addr hello_bytes w) ≡ frame challenge_bytes ++ rest
      → is_skewed max (now w) challenge.acceptor_unix_secs ≡ false
      → verifier.verify challenge.verifying_key
          (mutual_transcript role_acceptor (next_nonce w) addr.id challenge.acceptor_unix_secs)
          challenge.signature
        ≡ ok institution
      → signer.sign (
          mutual_transcript role_initiator challenge.nonce my_id
            (now (checked addr max hello_bytes challenge_bytes w)))
        ≡ ok signature
      → let made = checked addr max hello_bytes challenge_bytes w in
        let done = ended (wrote (frame response_bytes) (record made { ticks = suc made.ticks })) in
        handshake codecs my_id addr signer verifier max w
        ≡ (verdict (w.remote.reason done.sent), done)
  mutual_handshake_complete rest institution healthy joins hello question answer version e fresh
        verified signed =
      mutual_handshake_answers codecs my_id addr signer verifier max w hello_bytes healthy hello
        challenge signature challenge_bytes response_bytes rest institution joins question answer
        version e (ground (arith, fresh, verified)) signed
