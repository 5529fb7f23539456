-- ===== src/Session/Mutual.antt =====
-- Both ends of a mutual handshake: `handshake` and `accept` of mutual.rs.
pub mod Agreement
pub mod FirstDial
pub mod Outcome
use iroh_hyde_auth.Common.{
  ℕ, ◌+◌, ◌≡◌, refl, ap, sym, ◌∙◌, Option, none, some, List, [], ◌++◌, append-nil, arith, Bytes,
  insert, length, drop, nat_eq, list_eq,
}
use iroh_hyde_auth.Error.{Result, ok, err, Error, denied}
use iroh_hyde_auth.Net.{ConnectionError, EndpointId, EndpointAddr, World}
use iroh_hyde_auth.Net.Healthy.{IsHealthy}
use iroh_hyde_auth.Wire.{
  MutualCodecs, MutualChallenge, MutualResponse, role_initiator, role_acceptor, mutual_transcript,
}
use iroh_hyde_auth.Wire.Frames.{frame, took, Encodes, drop-frame, drop-frame_only}
use iroh_hyde_auth.Signer.{InstitutionalSigner}
use iroh_hyde_auth.Verifier.{InstitutionId, InstitutionVerifier}
use iroh_hyde_auth.Incoming.Soundness.{now, next_nonce}
use iroh_hyde_auth.Outgoing.Handshake.{verdict}
use iroh_hyde_auth.Mutual.{MutualAuthProtocol, Shared, accept_handshake, accept, settle}
use iroh_hyde_auth.Mutual.Initiator.{handshake}
use iroh_hyde_auth.Mutual.Exchange.{challenge_of, challenged, timed, response_of, mutual_greeting}
use iroh_hyde_auth.Mutual.Judgement.{
  judgement_of_response, judgement_of_challenge, for_remote, accept_handshake_unanswered,
  accept_handshake_judges, mutual_handshake_unanswered, mutual_handshake_refuses,
  mutual_handshake_answers,
}
use iroh_hyde_auth.Session.{Endings, End, reason_of, hearing, joined_to, peer-IsHealthy, skip}

-- A connection that an initiator dials and an acceptor takes. The acceptor has its own id, the one
-- that is dialled, published in what it shares.
pub record Link : Type 0 where
  pub codecs : MutualCodecs
  pub endings : Endings
  pub my_id : EndpointId
  pub addr : EndpointAddr
  pub signer : InstitutionalSigner
  pub verifier : InstitutionVerifier
  pub max_skew_secs : Option ℕ
  pub protocol : MutualAuthProtocol
  pub allowed : List EndpointId
  pub client : End
  pub server : End

module _ (l : Link) where
  open l use {
    codecs, endings, my_id, addr, signer, verifier, max_skew_secs, protocol, allowed, client,
    server,
  }

  abbrev pub shared : Shared
  shared = record { allowed = allowed; local_id = some addr.id }

  abbrev pub initiator_on : Bytes → World
  initiator_on bytes =
      (handshake codecs my_id addr signer verifier max_skew_secs (hearing client addr.id bytes)).1

  abbrev pub acceptor_on : Bytes → World
  acceptor_on bytes = (accept codecs protocol (hearing server my_id bytes) shared).1

  -- The two ends, joined.
  abbrev pub initiating : World
  initiating =
      joined_to client addr.id (λ sent. (acceptor_on sent).sent)
        (λ sent. reason_of endings (acceptor_on sent).closed)

  abbrev pub accepting : World
  accepting = joined_to server my_id (λ sent. (initiator_on sent).sent) server.network.reason

  -- What the initiator asserts, what the acceptor asserts, and what each makes of the other's.
  abbrev pub challenging : Bytes → MutualChallenge
  challenging signature = challenge_of protocol.signer signature accepting

  abbrev pub responding : Bytes → MutualResponse
  responding signature = response_of signer signature (timed max_skew_secs initiating)

  abbrev pub acceptor_judged : Bytes → Result InstitutionId
  acceptor_judged signature =
      judgement_of_challenge verifier max_skew_secs addr initiating (challenging signature)

  abbrev pub initiator_judged : Bytes → Result InstitutionId
  initiator_judged signature = judgement_of_response protocol accepting (responding signature)

  -- What the initiator ends with, and what the acceptor's set is, by the two judgements.
  abbrev pub told : Result InstitutionId → Result InstitutionId → Result (Unit {0})
  told (err e) initiator = err e
  told (ok acceptor) (ok initiator) = ok tt
  told (ok acceptor) (err e) = err (denied "rejected by remote acceptor")

  abbrev pub recorded : Result InstitutionId → Result InstitutionId → List EndpointId
  recorded (err e) initiator = allowed
  recorded (ok acceptor) (ok initiator) = insert allowed my_id
  recorded (ok acceptor) (err e) = allowed

  -- Everything but the judgements works: the networks and the pools are healthy, postcard gives the
  -- messages back, and both sign.
  pub record IsWorking (acceptor_signature initiator_signature : Bytes) : Type 0 where
    pub hello_bytes : Bytes
    pub challenge_bytes : Bytes
    pub response_bytes : Bytes
    pub healthy : IsHealthy client.network
    pub healthy' : IsHealthy server.network
    pub joins : client.join_error ≡ none
    pub joins' : server.join_error ≡ none
    pub hello : Encodes codecs.hello (mutual_greeting initiating) hello_bytes
    pub challenge : Encodes codecs.challenge (challenging acceptor_signature) challenge_bytes
    pub response : Encodes codecs.response (responding initiator_signature) response_bytes
    pub acceptor_signed :
        protocol.signer.sign
          (mutual_transcript role_acceptor (next_nonce initiating) addr.id (now accepting))
        ≡ ok acceptor_signature
    pub initiator_signed :
        signer.sign (
          mutual_transcript role_initiator
            (next_nonce accepting)
            my_id
            (now (timed max_skew_secs initiating)))
        ≡ ok initiator_signature
