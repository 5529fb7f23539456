-- ===== src/Mutual/AcceptorRefusal.antt =====
-- How `accept` of mutual.rs refuses an initiator.
use iroh_hyde_auth.Common.{◌≡◌, ◌≢◌, none, some, ◌++◌, arith, Bytes, codes, nat_eq}
use iroh_hyde_auth.Error.{ok, err, Error, unsupported_version, signer_failed}
use iroh_hyde_auth.Net.{EndpointId, World, arrived}
use iroh_hyde_auth.Net.Healthy.{IsHealthy}
use iroh_hyde_auth.Wire.{
  MutualCodecs, MutualHello, MutualResponse, protocol_version, close_denied, role_acceptor,
  mutual_transcript,
}
use iroh_hyde_auth.Wire.Frames.{frame, Encodes, read_msg-Encodes}
use iroh_hyde_auth.Util.{unix_secs}
use iroh_hyde_auth.Signer.{sign_blocking}
use iroh_hyde_auth.Incoming.Soundness.{now}
use iroh_hyde_auth.Mutual.{MutualAuthProtocol, Shared, accept_handshake, accept}
use iroh_hyde_auth.Mutual.Exchange.{challenge_of, challenged}
use iroh_hyde_auth.Mutual.Judgement.{judgement_of_response, accept_handshake_judges}

module _ (codecs : MutualCodecs) (p : MutualAuthProtocol) (shared : Shared) (w : World) where
  -- Why an initiator is refused, the first reason that applies, with the error for it and what this
  -- side has written by then.
  pub data Refused (x : Error) (written : Bytes) : Type 0 where
    not_spawned :
        shared.local_id ≡ none
        → x ≡ signer_failed "local endpoint id not set — spawn the MutualAuthTask"
        → written ≡ w.sent
        → Refused x written
    other_version :
        (local_id : EndpointId) (hello : MutualHello) (hello_bytes rest : Bytes)
        → shared.local_id ≡ some local_id
        → Encodes codecs.hello hello hello_bytes
        → arrived w ≡ frame hello_bytes ++ rest
        → hello.version ≢ protocol_version
        → x ≡ unsupported_version hello.version
        → written ≡ w.sent
        → Refused x written
    unsigned :
        (local_id : EndpointId) (hello : MutualHello) (hello_bytes rest : Bytes)
        → shared.local_id ≡ some local_id
        → Encodes codecs.hello hello hello_bytes
        → arrived w ≡ frame hello_bytes ++ rest
        → hello.version ≡ protocol_version
        → p.signer.sign (mutual_transcript role_acceptor hello.nonce local_id (now w)) ≡ err x
        → written ≡ w.sent
        → Refused x written
    misjudged :
        (local_id : EndpointId) (hello : MutualHello) (response : MutualResponse)
        (signature hello_bytes challenge_bytes response_bytes rest rest' : Bytes)
        → shared.local_id ≡ some local_id
        → Encodes codecs.hello hello hello_bytes
        → Encodes codecs.challenge (challenge_of p.signer signature w) challenge_bytes
        → Encodes codecs.response response response_bytes
        → hello.version ≡ protocol_version
        → p.signer.sign (mutual_transcript role_acceptor hello.nonce local_id (now w))
          ≡ ok signature
        → arrived w ≡ frame hello_bytes ++ rest
        → arrived (challenged hello_bytes challenge_bytes w) ≡ frame response_bytes ++ rest'
        → judgement_of_response p w response ≡ err x
        → written ≡ w.sent ++ frame challenge_bytes
        → Refused x written

  -- An initiator is refused, with the error for it, where the task is not spawned; or where its hello
  -- has another version; or where this side's signer fails; or else where its response has a time
  -- out of the tolerance, or a signature that the verifier refuses. The set is as it was, the
  -- connection is closed with 403 and `denied`, and this side has written its challenge if it came
  -- to the last, and nothing otherwise. This is on a healthy network with a healthy pool and a
  -- connection that this side has not closed, for messages that postcard gives back.
  pub mutual_acceptor_refuses :
      (x : Error) (written : Bytes)
      → IsHealthy w.remote
      → w.join_error ≡ none
      → w.closed ≡ none
      → Refused x written
      → let left = accept codecs p w shared in
        ((accept_handshake codecs p shared w).0 ≡ err x)
        × (left.0 ≡ shared)
        × (left.1.sent ≡ written)
        × (left.1.closed ≡ some (close_denied, codes "denied"))
  unfolding accept_handshake accept unix_secs sign_blocking
  mutual_acceptor_refuses x written healthy joins open_now why = elim why [
    | not_spawned none_set error words ↦ ground (arith, none_set, error, words, open_now)
    | other_version local_id hello hello_bytes rest own encodes e version error words ↦ ground (
      arith,
      own,
      healthy.opens,
      open_now,
      words,
      read_msg-Encodes codecs.hello hello hello_bytes encodes w rest e,
    )
    | unsigned local_id hello hello_bytes rest own encodes e version failed words ↦ ground (
      arith,
      own,
      healthy.opens,
      joins,
      open_now,
      words,
      failed,
      read_msg-Encodes codecs.hello hello hello_bytes encodes w rest e,
    )
    | misjudged local_id hello response signature hello_bytes challenge_bytes response_bytes rest
          rest' own greet ask answer version signed e e' judged words ↦
        ground (
          arith,
          open_now,
          judged,
          words,
          accept_handshake_judges codecs p shared w local_id hello signature hello_bytes
              challenge_bytes rest own healthy joins greet ask version signed e response
              response_bytes rest' answer e',
        )
  ]
