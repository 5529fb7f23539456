-- ===== src/Incoming/Refusal.antt =====
-- How `accept` of incoming.rs refuses an initiator.
use iroh_hyde_auth.Common.{◌≡◌, ◌≢◌, none, some, List, ◌++◌, arith, Bytes, codes, nat_eq}
use iroh_hyde_auth.Error.{err, Error, unsupported_version}
use iroh_hyde_auth.Net.{EndpointId, World, arrived}
use iroh_hyde_auth.Net.Healthy.{IsHealthy}
use iroh_hyde_auth.Wire.{Codecs, ClientHello, ClientAuth, protocol_version, close_denied}
use iroh_hyde_auth.Wire.Frames.{frame, Encodes, read_msg-Encodes}
use iroh_hyde_auth.Incoming.{AuthProtocol, run_handshake, accept}
use iroh_hyde_auth.Incoming.Completeness.{
  greeting, challenge_of, challenged, judgement, run_handshake_judges,
}

module _ (codecs : Codecs) (p : AuthProtocol) (w : World) where
  -- Why an initiator is refused, the first reason that applies, with the error for it and what this
  -- side has written by then. The last two are of an answer that came to this side's challenge.
  pub data Refused (x : Error) (written : Bytes) : Type 0 where
    other_version :
        (hello : ClientHello) (hello_bytes rest : Bytes)
        → Encodes codecs.hello hello hello_bytes
        → arrived w ≡ frame hello_bytes ++ rest
        → hello.version ≢ protocol_version
        → x ≡ unsupported_version hello.version
        → written ≡ w.sent
        → Refused x written
    misjudged :
        (hello_bytes challenge_bytes auth_bytes rest rest' : Bytes) (auth : ClientAuth)
        → Encodes codecs.hello greeting hello_bytes
        → Encodes codecs.challenge (challenge_of w) challenge_bytes
        → Encodes codecs.auth auth auth_bytes
        → arrived w ≡ frame hello_bytes ++ rest
        → arrived (challenged hello_bytes challenge_bytes w) ≡ frame auth_bytes ++ rest'
        → judgement p w auth ≡ err x
        → written ≡ w.sent ++ frame challenge_bytes
        → Refused x written

  -- An initiator whose hello has another version, or whose answer has a time out of the tolerance, or
  -- else a signature that the verifier refuses, is refused with the error for it. The set is as it
  -- was, the connection is closed with 403 and `denied`, and this side has written nothing for
  -- another version and its challenge otherwise. This is on a healthy network and a connection that
  -- this side has not closed, for messages that postcard gives back.
  pub acceptor_refuses :
      (allowed : List EndpointId) (x : Error) (written : Bytes)
      → IsHealthy w.remote
      → w.closed ≡ none
      → Refused x written
      → let left = accept codecs p w allowed in
        ((run_handshake codecs p w).0 ≡ err x)
        × (left.0 ≡ allowed)
        × (left.1.sent ≡ written)
        × (left.1.closed ≡ some (close_denied, codes "denied"))
  unfolding run_handshake accept
  acceptor_refuses allowed x written healthy open_now why = elim why [
    | other_version hello hello_bytes rest encodes e version error words ↦ ground (
      arith,
      healthy.opens,
      open_now,
      words,
      read_msg-Encodes codecs.hello hello hello_bytes encodes w rest e,
    )
    | misjudged hello_bytes challenge_bytes auth_bytes rest rest' auth hello challenge answer e e'
          judged words ↦
        ground (
          arith,
          open_now,
          judged,
          words,
          run_handshake_judges codecs p w hello_bytes challenge_bytes healthy hello challenge auth
              auth_bytes rest rest' answer e e',
        )
  ]
