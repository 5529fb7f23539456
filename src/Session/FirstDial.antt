-- ===== src/Session/FirstDial.antt =====
-- The first application connection between two endpoints: the hook and the task of outgoing.rs on
-- one, the handler and the hook of incoming.rs on the other, and the handshake between them.
use iroh_hyde_auth.Common.{
  ◌≡◌, ◌≢◌, ◌↔◌, refl, true, some, [], ◌∷◌, arith, Bytes, contains, get, put, remove,
  contains-insert_self, beq_refl, list_beq_iff, nat_eq, list_eq,
}
use iroh_hyde_auth.Error.{Result, ok, err}
use iroh_hyde_auth.Net.{EndpointId, EndpointAddr, World, accept_dial, accept_connection}
use iroh_hyde_auth.Wire.{Codecs, alpn}
use iroh_hyde_auth.Signer.{InstitutionalSigner}
use iroh_hyde_auth.Verifier.{InstitutionId}
use iroh_hyde_auth.Incoming.{accept, after_handshake}
use iroh_hyde_auth.Outgoing.{
  OutgoingAuthTask, Sender, outgoing, handle_request, handle_completion, send_all, authenticate,
  before_connect,
}
use iroh_hyde_auth.Outgoing.Handshake.{handshake}
use iroh_hyde_auth.Outgoing.Loop.{request, joined, start, run, step, take_task}
use iroh_hyde_auth.Session.OneWay.{
  Link, IsWorking, initiating, accepting, judged, told, recorded, session,
}

-- The reply to the first request, once its handshake has ended.
replied :
    (codecs : Codecs) (my_id : EndpointId) (addr : EndpointAddr) (signer : InstitutionalSigner)
    (tx : Sender) (w : World)
    → get (run codecs my_id (start signer) (request addr tx ∷ joined 0 w ∷ [])).task.replies tx
      ≡ some (handshake codecs my_id addr signer w).0
unfolding run step handle_request handle_completion send_all take_task outgoing contains get put
    remove
replied codecs my_id addr signer tx w = ground (arith, beq_refl addr.id, beq_refl tx)

module _ (l : Link) where
  open l use {codecs, my_id, addr, signer, protocol}

  -- The hook of the initiator lets the dial out.
  let_out :
      (j : Result InstitutionId) (app : Bytes)
      → app ≢ alpn
      → (before_connect app (authenticate true (some (told l j))) ≡ accept_dial)
        ↔ ((institution : InstitutionId) × (j ≡ ok institution))
  unfolding before_connect authenticate
  let_out (ok institution) app other =
      (λ h. (institution, refl), λ h. ground (arith, list_beq_iff app alpn))
  let_out (err e) app other = (
    λ h. absurd (ground (arith, h, list_beq_iff app alpn)),
    λ found. absurd (ground (arith, found)),
  )

  -- The hook of the acceptor lets the connection in.
  let_in :
      (j : Result InstitutionId) (app : Bytes)
      → app ≢ alpn
      → (after_handshake (recorded l j []) app my_id ≡ accept_connection)
        ↔ ((institution : InstitutionId) × (j ≡ ok institution))
  unfolding after_handshake
  let_in (ok institution) app other =
      (λ h. (institution, refl), λ h. ground (arith, contains-insert_self [] my_id))
  let_in (err e) app other = (
    λ h. absurd (unfold contains in ground (arith, h, list_beq_iff app alpn)),
    λ found. absurd (ground (arith, found)),
  )

  -- The task of the initiator, asked to dial, when its handshake with the acceptor has ended.
  abbrev pub dialled_once : Sender → OutgoingAuthTask
  dialled_once tx =
      (run codecs my_id (start signer) (request addr tx ∷ joined 0 (initiating l) ∷ [])).task

  -- The first dial of an application protocol, from a fresh initiator to a fresh acceptor: the hook
  -- of the initiator lets it out exactly if the hook of the acceptor lets it in, and both exactly if
  -- the acceptor's judgement of the initiator's assertion is an institution. This is for an ALPN
  -- other than that of the handshake, and where all else works.
  pub first_dial :
      (signature : Bytes) (tx : Sender) (app : Bytes)
      → IsWorking l signature
      → app ≢ alpn
      → let is_institution =
          (institution : InstitutionId) × (judged l signature ≡ ok institution) in
        ((before_connect app (authenticate true (get (dialled_once tx).replies tx)) ≡ accept_dial)
          ↔ is_institution)
        × ((after_handshake (accept codecs protocol (accepting l) []).0 app my_id
              ≡ accept_connection)
            ↔ is_institution)
  first_dial signature tx app works other =
      let agreed = session l signature works [] in
      let reply = replied codecs my_id addr signer tx (initiating l) in
      (
        rw (reply, agreed.0) (let_out (judged l signature) app other),
        rw agreed.1 (let_in (judged l signature) app other),
      )
