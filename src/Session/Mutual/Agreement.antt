-- ===== src/Session/Mutual/Agreement.antt =====
-- The two ends of a mutual handshake agree.
use iroh_hyde_auth.Common.{
  ◌+◌, ◌≡◌, refl, ap, sym, ◌∙◌, none, [], ◌++◌, append-nil, arith, Bytes, length, drop, nat_eq,
  list_eq,
}
use iroh_hyde_auth.Error.{Result, ok, err, Error}
use iroh_hyde_auth.Net.{ConnectionError, World}
use iroh_hyde_auth.Net.Healthy.{IsHealthy}
use iroh_hyde_auth.Wire.Frames.{frame, took, drop-frame, drop-frame_only}
use iroh_hyde_auth.Verifier.{InstitutionId}
use iroh_hyde_auth.Outgoing.Handshake.{verdict}
use iroh_hyde_auth.Mutual.{accept_handshake, accept, settle}
use iroh_hyde_auth.Mutual.Initiator.{handshake}
use iroh_hyde_auth.Mutual.Exchange.{challenged, timed, mutual_greeting}
use iroh_hyde_auth.Mutual.Judgement.{
  for_remote, accept_handshake_unanswered, accept_handshake_judges, mutual_handshake_unanswered,
  mutual_handshake_refuses, mutual_handshake_answers,
}
use iroh_hyde_auth.Session.{reason_of, hearing, joined_to, peer-IsHealthy, skip}
use iroh_hyde_auth.Session.Mutual.{
  Link, IsWorking, shared, initiator_on, acceptor_on, initiating, accepting, challenging,
  responding, acceptor_judged, initiator_judged, told, recorded,
}

module _ (l : Link) where
  open l use {
    codecs, endings, my_id, addr, signer, verifier, max_skew_secs, protocol, allowed, client,
    server,
  }

  module _ (acceptor_signature initiator_signature : Bytes)
      (c : IsWorking l acceptor_signature initiator_signature) where
    open c use {
      hello_bytes, challenge_bytes, response_bytes, healthy, healthy', joins, joins', hello,
      challenge, response, acceptor_signed, initiator_signed,
    }

    client_peer :
        (stream : Bytes → Bytes) (reason : Bytes → ConnectionError)
        → IsHealthy (joined_to client addr.id stream reason).remote
    client_peer stream reason = peer-IsHealthy client.network addr.id stream reason healthy

    server_peer :
        (stream : Bytes → Bytes)
        → IsHealthy (joined_to server my_id stream server.network.reason).remote
    server_peer stream = peer-IsHealthy server.network my_id stream server.network.reason healthy'

    initiator_greets : (initiator_on l []).sent ≡ frame hello_bytes
    initiator_greets =
        ap (λ r. r.1.sent)
          (mutual_handshake_unanswered codecs my_id addr signer verifier max_skew_secs
            (hearing client addr.id []) hello_bytes (client_peer (λ sent. []) client.network.reason)
            hello refl)

    -- The acceptor where the initiator is heard to greet first, and then not to answer.
    unanswered :
        (stream : Bytes → Bytes)
        → stream [] ≡ frame hello_bytes
        → stream (frame challenge_bytes) ≡ frame hello_bytes
        → (x : Error) × (accept_handshake codecs protocol
              (shared l)
              (joined_to server my_id stream server.network.reason)
            ≡ (
              err x,
              challenged hello_bytes challenge_bytes
                  (joined_to server my_id stream server.network.reason),
            ))
    unanswered stream e e' = (
      _,
      accept_handshake_unanswered codecs protocol (shared l)
          (joined_to server my_id stream server.network.reason) addr.id
          (mutual_greeting (initiating l)) acceptor_signature hello_bytes challenge_bytes [] refl
          (server_peer stream) joins' hello challenge refl acceptor_signed
          (e ∙ sym (append-nil (frame hello_bytes)))
          (ap (drop (0 + (4 + length hello_bytes))) e'
            ∙ skip (4 + length hello_bytes) (frame hello_bytes)
            ∙ drop-frame_only hello_bytes),
    )

    -- The acceptor where the initiator is heard to greet, and then to answer.
    judges :
        (stream : Bytes → Bytes) (rest : Bytes)
        → stream [] ≡ frame hello_bytes ++ rest
        → stream (frame challenge_bytes) ≡ frame hello_bytes ++ frame response_bytes
        → accept_handshake codecs protocol
            (shared l)
            (joined_to server my_id stream server.network.reason)
          ≡ (
            for_remote my_id (initiator_judged l initiator_signature),
            timed protocol.max_skew_secs (
                took (4 + length response_bytes) (
                  challenged hello_bytes challenge_bytes
                    (joined_to server my_id stream server.network.reason))),
          )
    judges stream rest e e' =
        accept_handshake_judges codecs protocol (shared l)
          (joined_to server my_id stream server.network.reason) addr.id
          (mutual_greeting (initiating l)) acceptor_signature hello_bytes challenge_bytes rest refl
          (server_peer stream) joins' hello challenge refl acceptor_signed e
          (responding l initiator_signature) response_bytes [] response
          (ap (drop (0 + (4 + length hello_bytes))) e'
            ∙ skip (4 + length hello_bytes) _
            ∙ drop-frame hello_bytes (frame response_bytes)
            ∙ sym (append-nil (frame response_bytes)))

    acceptor_asks : (acceptor_on l (frame hello_bytes)).sent ≡ frame challenge_bytes
    unfolding accept
    acceptor_asks =
        ap (λ r. (settle codecs r (shared l)).1.sent)
          (unanswered (λ sent. frame hello_bytes) refl refl).1

    asks : (acceptor_on l (frame hello_bytes)).sent ≡ frame challenge_bytes ++ []
    asks = acceptor_asks ∙ sym (append-nil (frame challenge_bytes))

    -- What the initiator writes, once it has the challenge and refuses it.
    refused :
        (x : Error)
        → acceptor_judged l acceptor_signature ≡ err x
        → (initiator_on l (frame challenge_bytes)).sent ≡ frame hello_bytes
    refused x e =
        (mutual_handshake_refuses codecs my_id addr signer verifier max_skew_secs
          (hearing client addr.id (frame challenge_bytes)) hello_bytes
          (client_peer (λ sent. frame challenge_bytes) client.network.reason) hello
          (challenging l acceptor_signature) challenge_bytes [] x challenge refl
          (sym (append-nil (frame challenge_bytes))) e).1

    -- What the initiator writes, once it has the challenge and trusts it.
    answered :
        (institution : InstitutionId)
        → acceptor_judged l acceptor_signature ≡ ok institution
        → (initiator_on l (frame challenge_bytes)).sent ≡ frame hello_bytes ++ frame response_bytes
    answered institution e =
        ap (λ r. r.1.sent)
          (mutual_handshake_answers codecs my_id addr signer verifier max_skew_secs
            (hearing client addr.id (frame challenge_bytes)) hello_bytes
            (client_peer (λ sent. frame challenge_bytes) client.network.reason) hello
            (challenging l acceptor_signature) initiator_signature challenge_bytes response_bytes []
            institution joins challenge response refl (sym (append-nil (frame challenge_bytes))) e
            initiator_signed)

    settled :
        (initiator : Result InstitutionId) (institution : InstitutionId) (w : World)
        → w.closed ≡ none
        → (verdict (
              reason_of endings (settle codecs (for_remote my_id initiator, w) (shared l)).1.closed)
            ≡ told l (ok institution) initiator)
          × ((settle codecs (for_remote my_id initiator, w) (shared l)).0.allowed
              ≡ recorded l (ok institution) initiator)
    unfolding verdict
    settled (ok i) institution w e = (ground (arith, e), refl)
    settled (err x) institution w e = (ground (arith, e), refl)

    agree :
        (acceptor : Result InstitutionId)
        → acceptor_judged l acceptor_signature ≡ acceptor
        → let initiator = initiator_judged l initiator_signature in
          ((handshake codecs my_id addr signer verifier max_skew_secs (initiating l)).0
            ≡ told l acceptor initiator)
          × ((accept codecs protocol (accepting l) (shared l)).0.allowed
              ≡ recorded l acceptor initiator)
    unfolding accept
    agree (err x) e = (
      (mutual_handshake_refuses codecs my_id addr signer verifier max_skew_secs (initiating l)
          hello_bytes
          (client_peer (λ sent. (acceptor_on l sent).sent)
            (λ sent. reason_of endings (acceptor_on l sent).closed))
          hello (challenging l acceptor_signature) challenge_bytes [] x challenge refl asks e).0,
      ap (λ r. (settle codecs r (shared l)).0.allowed)
          (unanswered (λ sent. (initiator_on l sent).sent) initiator_greets (refused x e)).1,
    )
    agree (ok institution) e = (
      ap (λ r. r.0)
            (mutual_handshake_answers codecs my_id addr signer verifier max_skew_secs (initiating l)
              hello_bytes
              (client_peer (λ sent. (acceptor_on l sent).sent)
                (λ sent. reason_of endings (acceptor_on l sent).closed))
              hello (challenging l acceptor_signature) initiator_signature challenge_bytes
              response_bytes [] institution joins challenge response refl asks e initiator_signed)
          ∙ ap (λ r. verdict (reason_of endings (settle codecs r (shared l)).1.closed))
              (judges (λ sent. frame hello_bytes ++ frame response_bytes) (frame response_bytes)
                refl refl)
          ∙ (settled (initiator_judged l initiator_signature) institution _ refl).0,
      ap (λ r. (settle codecs r (shared l)).0.allowed)
            (judges (λ sent. (initiator_on l sent).sent) []
              (initiator_greets ∙ sym (append-nil (frame hello_bytes))) (answered institution e))
          ∙ (settled (initiator_judged l initiator_signature) institution _ refl).1,
    )

    -- Both ends of one mutual handshake agree, whatever each makes of the other's assertion: the
    -- initiator ends with Ok exactly if both judgements are institutions, and exactly then the
    -- acceptor has (recorded l) its id. If the initiator refuses the acceptor, it ends with its own error
    -- and the acceptor's set is as it was; if only the acceptor refuses, the initiator is (told l) so and
    -- the set is as it was. This is where the networks and the pools are healthy, postcard gives the
    -- messages back, both sign, and the acceptor's published id is the one that is dialled.
    pub mutual_session :
        let acceptor = acceptor_judged l acceptor_signature in
        let initiator = initiator_judged l initiator_signature in
        ((handshake codecs my_id addr signer verifier max_skew_secs (initiating l)).0
          ≡ told l acceptor initiator)
        × ((accept codecs protocol (accepting l) (shared l)).0.allowed
            ≡ recorded l acceptor initiator)
    mutual_session = agree (acceptor_judged l acceptor_signature) refl
