-- ===== src/Session/OneWay.antt =====
-- `handshake` of outgoing.rs against `accept` of incoming.rs.
use iroh_hyde_auth.Common.{
  ◌+◌, ◌≡◌, refl, ap, sym, ◌∙◌, none, List, [], ◌++◌, append-nil, arith, Bytes, insert, length,
  drop, nat_eq, list_eq,
}
use iroh_hyde_auth.Error.{Result, ok, err, denied}
use iroh_hyde_auth.Net.{ConnectionError, EndpointId, EndpointAddr, World}
use iroh_hyde_auth.Net.Healthy.{IsHealthy}
use iroh_hyde_auth.Wire.{Codecs, ClientAuth, transcript}
use iroh_hyde_auth.Wire.Frames.{frame, took, Encodes, drop-frame, drop-frame_only}
use iroh_hyde_auth.Signer.{InstitutionalSigner}
use iroh_hyde_auth.Verifier.{InstitutionId}
use iroh_hyde_auth.Incoming.{AuthProtocol, run_handshake, accept, settle}
use iroh_hyde_auth.Incoming.Soundness.{now, next_nonce}
use iroh_hyde_auth.Incoming.Completeness.{
  greeting, challenge_of, challenged, judgement, run_handshake_unanswered, run_handshake_judges,
}
use iroh_hyde_auth.Outgoing.Handshake.{handshake, verdict}
use iroh_hyde_auth.Outgoing.Completeness.{assertion, handshake_unanswered, handshake_complete}
use iroh_hyde_auth.Session.{Endings, End, reason_of, hearing, joined_to, peer-IsHealthy, skip}

-- A connection that an initiator dials and an acceptor takes, each with its own end.
pub record Link : Type 0 where
  pub codecs : Codecs
  pub endings : Endings
  pub my_id : EndpointId
  pub addr : EndpointAddr
  pub signer : InstitutionalSigner
  pub protocol : AuthProtocol
  pub client : End
  pub server : End

module _ (l : Link) where
  open l use {codecs, endings, my_id, addr, signer, protocol, client, server}

  -- What the initiator has written, and the acceptor has done, once these bytes have come.
  abbrev pub initiator_on : Bytes → World
  initiator_on bytes = (handshake codecs my_id addr signer (hearing client addr.id bytes)).1

  abbrev pub acceptor_on : Bytes → World
  acceptor_on bytes = (accept codecs protocol (hearing server my_id bytes) []).1

  -- The two ends, joined.
  abbrev pub initiating : World
  initiating =
      joined_to client addr.id (λ sent. (acceptor_on sent).sent)
        (λ sent. reason_of endings (acceptor_on sent).closed)

  abbrev pub accepting : World
  accepting = joined_to server my_id (λ sent. (initiator_on sent).sent) server.network.reason

  -- How the initiator is told of the acceptor's judgement.
  abbrev pub told : Result InstitutionId → Result (Unit {0})
  told (ok institution) = ok tt
  told (err e) = err (denied "rejected by remote acceptor")

  -- What the acceptor's set is after it.
  abbrev pub recorded : Result InstitutionId → List EndpointId → List EndpointId
  recorded (ok institution) allowed = insert allowed my_id
  recorded (err e) allowed = allowed

  -- The assertion that the initiator makes.
  abbrev pub asserted : Bytes → ClientAuth
  asserted signature = assertion signer signature initiating

  -- What the acceptor makes of that assertion.
  abbrev pub judged : Bytes → Result InstitutionId
  judged signature = judgement protocol accepting (asserted signature)

  -- Everything but the judgement works: the networks and the pool are healthy, postcard gives the
  -- three messages back, and the signer signs.
  pub record IsWorking (signature : Bytes) : Type 0 where
    pub hello_bytes : Bytes
    pub challenge_bytes : Bytes
    pub auth_bytes : Bytes
    pub healthy : IsHealthy client.network
    pub healthy' : IsHealthy server.network
    pub joins : client.join_error ≡ none
    pub hello : Encodes codecs.hello greeting hello_bytes
    pub challenge : Encodes codecs.challenge (challenge_of accepting) challenge_bytes
    pub auth : Encodes codecs.auth (asserted signature) auth_bytes
    pub signed :
        signer.sign (transcript (next_nonce accepting) my_id (now initiating)) ≡ ok signature

  module _ (signature : Bytes) (c : IsWorking signature) where
    open c use {
      hello_bytes, challenge_bytes, auth_bytes, healthy, healthy', joins, hello, challenge, auth,
      signed,
    }

    initiator_greets : (initiator_on []).sent ≡ frame hello_bytes
    initiator_greets =
        ap (λ r. r.1.sent)
          (handshake_unanswered codecs my_id addr signer (hearing client addr.id []) hello_bytes
            (peer-IsHealthy client.network addr.id (λ sent. []) client.network.reason healthy) hello
            refl)

    acceptor_asks : (acceptor_on (frame hello_bytes)).sent ≡ frame challenge_bytes
    unfolding accept
    acceptor_asks = ground (
      arith,
      run_handshake_unanswered codecs protocol (hearing server my_id (frame hello_bytes))
          hello_bytes challenge_bytes
          (peer-IsHealthy server.network my_id (λ sent. frame hello_bytes) server.network.reason
            healthy')
          hello challenge [] (sym (append-nil (frame hello_bytes)))
          (skip (4 + length hello_bytes) (frame hello_bytes) ∙ drop-frame_only hello_bytes),
    )

    initiator_answers :
        (initiator_on (frame challenge_bytes)).sent ≡ frame hello_bytes ++ frame auth_bytes
    initiator_answers =
        ap (λ r. r.1.sent)
          (handshake_complete codecs my_id addr signer
            (hearing client addr.id (frame challenge_bytes)) (challenge_of accepting) signature
            hello_bytes challenge_bytes auth_bytes []
            (peer-IsHealthy client.network addr.id (λ sent. frame challenge_bytes)
              client.network.reason healthy)
            joins hello challenge auth refl (sym (append-nil (frame challenge_bytes))) signed)

    judges :
        (stream : Bytes → Bytes) (reason : Bytes → ConnectionError) (rest : Bytes)
        → stream [] ≡ frame hello_bytes ++ rest
        → stream (frame challenge_bytes) ≡ frame hello_bytes ++ frame auth_bytes
        → run_handshake codecs protocol (joined_to server my_id stream reason) ≡ (
          judged signature,
          took
              (4 + length auth_bytes)
              (challenged hello_bytes challenge_bytes (joined_to server my_id stream reason)),
        )
    judges stream reason rest e e' =
        run_handshake_judges codecs protocol (joined_to server my_id stream reason) hello_bytes
          challenge_bytes (peer-IsHealthy server.network my_id stream reason healthy') hello
          challenge (asserted signature) auth_bytes rest [] auth e
          (ap (drop (0 + (4 + length hello_bytes))) e'
            ∙ skip (4 + length hello_bytes) _
            ∙ drop-frame hello_bytes (frame auth_bytes)
            ∙ sym (append-nil (frame auth_bytes)))

    verdict-settle :
        (j : Result InstitutionId) (w : World)
        → w.closed ≡ none
        → verdict (reason_of endings (settle codecs (j, w) []).1.closed) ≡ told j
    unfolding verdict
    verdict-settle (ok institution) w e = ground (arith, e)
    verdict-settle (err x) w e = ground (arith, e)

    recorded-settle :
        (j : Result InstitutionId) (w : World) (allowed : List EndpointId)
        → w.remote.id ≡ my_id
        → (settle codecs (j, w) allowed).0 ≡ recorded j allowed
    recorded-settle (ok institution) w allowed e = ap (insert allowed) e
    recorded-settle (err x) w allowed e = refl

    -- Both ends of one connection agree, whatever the acceptor's judgement is: the initiator's
    -- handshake ends with Ok exactly if the acceptor has recorded its id, and otherwise with the
    -- refusal, and the set is as it was. The judgement is the code's, on the assertion that the
    -- initiator has made: a time out of the tolerance is a skew, and else the verifier decides on
    -- the signature over the acceptor's nonce, the initiator's id and its time. This is where the
    -- networks and the pool are healthy, postcard gives the three messages back, and the signer
    -- signs.
    pub session :
        (allowed : List EndpointId)
        → let j = judged signature in
          ((handshake codecs my_id addr signer initiating).0 ≡ told j)
          × ((accept codecs protocol accepting allowed).0 ≡ recorded j allowed)
    unfolding accept
    session allowed = (
      ap (λ r. r.0)
            (handshake_complete codecs my_id addr signer initiating (challenge_of accepting)
              signature hello_bytes challenge_bytes auth_bytes []
              (peer-IsHealthy client.network addr.id (λ sent. (acceptor_on sent).sent)
                (λ sent. reason_of endings (acceptor_on sent).closed) healthy)
              joins hello challenge auth refl
              (acceptor_asks ∙ sym (append-nil (frame challenge_bytes))) signed)
          ∙ ap (λ r. verdict (reason_of endings (settle codecs r []).1.closed))
              (judges (λ sent. frame hello_bytes ++ frame auth_bytes) server.network.reason
                (frame auth_bytes) refl refl)
          ∙ verdict-settle (judged signature) _ refl,
      ap (λ r. (settle codecs r allowed).0)
            (judges (λ sent. (initiator_on sent).sent) server.network.reason []
              (initiator_greets ∙ sym (append-nil (frame hello_bytes))) initiator_answers)
          ∙ recorded-settle (judged signature) _ allowed refl,
    )
