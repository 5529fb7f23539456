-- ===== src/Mutual/Loop/Met.antt =====
-- What the remotes that an endpoint of mutual.rs has in its set went through.
use iroh_hyde_auth.Common.{
  ℕ, ◌≡◌, refl, sym, subst, ◌∙◌, ◌⊎◌, inl, inr, true, some, List, [], ◌∷◌, arith, contains, insert,
  contains-insert_cases, list_eq, Option-cases, Bool-cases,
}
use iroh_hyde_auth.Error.{ok, err, Result}
use iroh_hyde_auth.Net.{EndpointId, EndpointAddr, World}
use iroh_hyde_auth.Wire.{MutualCodecs}
use iroh_hyde_auth.Verifier.{InstitutionVerifier}
use iroh_hyde_auth.Signer.{InstitutionalSigner}
use iroh_hyde_auth.Outgoing.{Sender, AuthResult}
use iroh_hyde_auth.Outgoing.Loop.{take_task}
use iroh_hyde_auth.Mutual.{
  MutualAuthProtocol, Shared, accept, accept_handshake, settle, default_max_skew_secs,
}
use iroh_hyde_auth.Mutual.Initiator.{handshake}
use iroh_hyde_auth.Mutual.Acceptor
use iroh_hyde_auth.Mutual.Acceptor.{accept_handshake-Accepted}
use iroh_hyde_auth.Mutual.Dialer
use iroh_hyde_auth.Mutual.Dialer.{mutual_handshake-Proved}
use iroh_hyde_auth.Mutual.Authenticator.{MutualAuthTask, handle_request, handle_completion, admit}
use iroh_hyde_auth.Mutual.Loop.{
  Event, request, joined, incoming_auth, hooks_gone, abort, LoopState, join, let_in, handle,
  handle_ended, step, run,
}

module _ (codecs : MutualCodecs) (my_id : EndpointId) (signer : InstitutionalSigner)
    (verifier : InstitutionVerifier) (p : MutualAuthProtocol) where
  -- At this event the remote is met: it dials in, the acceptor's handshake succeeds with its id and
  -- what is shared at that time, which has the endpoint's own id, and the exchange is complete; or
  -- the running loop takes a task that dialled it, the initiator's handshake has succeeded, and the
  -- exchange is complete.
  abbrev pub Meets : LoopState → EndpointId → Event → Type 0
  Meets s id (incoming_auth w) =
      (w' : World) × (w.remote.id ≡ id)
      × (s.task.shared.local_id ≡ some my_id)
      × (accept_handshake codecs p s.task.shared w ≡ (ok id, w'))
      × Acceptor.Accepted codecs p s.task.shared w w'
  Meets s id (joined i w) =
      (addr : EndpointAddr) × (others : List EndpointAddr) × (w' : World) × (s.running ≡ true)
      × (take_task s.task.tasks i ≡ some (addr, others))
      × (addr.id ≡ id)
      × (handshake codecs my_id addr signer verifier (some default_max_skew_secs) w ≡ (ok tt, w'))
      × Dialer.Proved codecs my_id addr signer verifier (some default_max_skew_secs) w w'
  Meets s id e = ⊥

  -- In the course of these events, from this state, the remote is met.
  abbrev pub Met : EndpointId → LoopState → List Event → Type 0
  Met id s [] = ⊥
  Met id s (e ∷ events) = Meets s id e ⊎ Met id (step codecs my_id p s e) events

  -- What is known of the remotes that are met.
  module _ (Known : EndpointId → Type 0) where
    -- The shared part has the endpoint's own id, and only remotes that are known to be met.
    abbrev pub AreMet : Shared → Type 0
    AreMet shared =
        (shared.local_id ≡ some my_id)
        × ((id : EndpointId) → contains shared.allowed id ≡ true → Known id)

    pub record IsTrusted (t : MutualAuthTask) : Type 0 where
      pub signs : t.signer ≡ signer
      pub verifies : t.verifier ≡ verifier
      pub tolerates : t.max_skew_secs ≡ some default_max_skew_secs
      pub met : AreMet t.shared

    -- A handler leaves the task's own fields alone, and the shared part with remotes that were met.
    kept :
        (t t' : MutualAuthTask)
        → IsTrusted t
        → t'.signer ≡ t.signer
        → t'.verifier ≡ t.verifier
        → t'.max_skew_secs ≡ t.max_skew_secs
        → (shared : Shared) → t'.shared ≡ shared
        → AreMet shared
        → IsTrusted t'
    kept t t' c signs verifies tolerates shared e met = record {
      signs = signs ∙ c.signs;
      verifies = verifies ∙ c.verifies;
      tolerates = tolerates ∙ c.tolerates;
      met = subst AreMet (sym e) met;
    }

    inserted :
        (xs : List EndpointId) (new : EndpointId)
        → ((id : EndpointId) → contains xs id ≡ true → Known id)
        → Known new
        → (id : EndpointId) → contains (insert xs new) id ≡ true
        → Known id
    inserted xs new old met id h = elim (contains-insert_cases xs new id h) [
      | inl same ↦ rw (← same) met
      | inr before ↦ old id before
    ]

    settled :
        (s : LoopState) (w : World) (r : Result EndpointId × World)
        → ((id : EndpointId) → Meets s id (incoming_auth w) → Known id)
        → AreMet s.task.shared
        → accept_handshake codecs p s.task.shared w ≡ r
        → AreMet (settle codecs r s.task.shared).0
    settled s w (err e, w') covers met h = met
    settled s w (ok remote, w') covers met h =
        let done = accept_handshake-Accepted codecs p s.task.shared w h in
        (
          met.0,
          inserted s.task.shared.allowed remote met.1
              (covers remote (w', sym done.1, met.0, h, done.0)),
        )

    let_in-IsTrusted :
        (s : LoopState) (w : World)
        → ((id : EndpointId) → Meets s id (incoming_auth w) → Known id)
        → IsTrusted s.task
        → IsTrusted (let_in codecs my_id p s.task w)
    unfolding accept
    let_in-IsTrusted s w covers c =
        kept s.task (let_in codecs my_id p s.task w) c refl refl refl _ refl
          (settled s w (accept_handshake codecs p s.task.shared w) covers c.met refl)

    handle_request-IsTrusted :
        (t : MutualAuthTask) (addr : EndpointAddr) (tx : Sender)
        → IsTrusted t
        → IsTrusted (handle_request t addr tx)
    unfolding handle_request
    handle_request-IsTrusted t addr tx c =
        kept t (handle_request t addr tx) c (ground arith) (ground arith) (ground arith) t.shared
          (ground arith) c.met

    admitted :
        (shared : Shared) (id : EndpointId) (res : AuthResult)
        → AreMet shared
        → (res ≡ ok tt → Known id)
        → AreMet (admit shared id res)
    admitted shared id (ok x) met ended = (met.0, inserted shared.allowed id met.1 (ended refl))
    admitted shared id (err e) met ended = met

    handle_completion-IsTrusted :
        (t : MutualAuthTask) (others : List EndpointAddr) (id : EndpointId) (res : AuthResult)
        → IsTrusted t
        → (res ≡ ok tt → Known id)
        → IsTrusted (handle_completion (record t { tasks = others }) id res)
    unfolding handle_completion
    handle_completion-IsTrusted t others id res c ended =
        kept t (handle_completion (record t { tasks = others }) id res) c (ground arith)
          (ground arith) (ground arith) (admit t.shared id res) (ground arith)
          (admitted t.shared id res c.met ended)

    dialled_out :
        (s : LoopState) (i : ℕ) (w : World) (addr : EndpointAddr) (others : List EndpointAddr)
        → s.running ≡ true
        → take_task s.task.tasks i ≡ some (addr, others)
        → IsTrusted s.task
        → (handshake codecs my_id addr s.task.signer s.task.verifier s.task.max_skew_secs w).0
          ≡ ok tt
        → Meets s addr.id (joined i w)
    dialled_out s i w addr others on taken c h =
        let result = handshake codecs my_id addr signer verifier (some default_max_skew_secs) w in
        let good : result.0 ≡ ok tt = rw (c.signs, c.verifies, c.tolerates) at h in
        let whole : result ≡ (ok tt, result.1) = ground (arith, good) in
        (
          addr,
          others,
          result.1,
          on,
          taken,
          refl,
          whole,
          mutual_handshake-Proved codecs my_id addr signer verifier (some default_max_skew_secs) w
              whole,
        )

    join-IsTrusted :
        (s : LoopState) (i : ℕ) (w : World)
        → ((id : EndpointId) → Meets s id (joined i w) → Known id)
        → s.running ≡ true
        → IsTrusted s.task
        → IsTrusted (join codecs my_id p s.task w (take_task s.task.tasks i))
    join-IsTrusted s i w covers on c = elim (Option-cases (take_task s.task.tasks i)) [
      | inl h ↦ rw h c
      | inr ((addr, others), h) ↦ rw h (
          handle_completion-IsTrusted s.task others addr.id _ c
            λ good. covers addr.id (dialled_out s i w addr others on h c good))
    ]

    handled-IsTrusted :
        (s : LoopState) (e : Event)
        → ((id : EndpointId) → Meets s id e → Known id)
        → s.running ≡ true
        → IsTrusted s.task
        → IsTrusted (handle codecs my_id p s.task e).task
    handled-IsTrusted s (request addr tx) covers on c = handle_request-IsTrusted s.task addr tx c
    handled-IsTrusted s (joined i w) covers on c = join-IsTrusted s i w covers on c
    handled-IsTrusted s (incoming_auth w) covers on c = let_in-IsTrusted s w covers c
    handled-IsTrusted s hooks_gone covers on c = c
    handled-IsTrusted s abort covers on c = c

    ended-IsTrusted :
        (s : LoopState) (e : Event)
        → ((id : EndpointId) → Meets s id e → Known id)
        → IsTrusted s.task
        → IsTrusted (handle_ended codecs my_id p s.task e).task
    ended-IsTrusted s (request addr tx) covers c = c
    ended-IsTrusted s (joined i w) covers c = c
    ended-IsTrusted s (incoming_auth w) covers c = let_in-IsTrusted s w covers c
    ended-IsTrusted s hooks_gone covers c = c
    ended-IsTrusted s abort covers c = c

    step-IsTrusted :
        (s : LoopState) (e : Event)
        → ((id : EndpointId) → Meets s id e → Known id)
        → IsTrusted s.task
        → IsTrusted (step codecs my_id p s e).task
    unfolding step
    step-IsTrusted s e covers c = elim (Bool-cases s.running) [
      | inl r ↦ rw r (handled-IsTrusted s e covers r c)
      | inr r ↦ rw r (ended-IsTrusted s e covers c)
    ]

    pub run-IsTrusted :
        (s : LoopState) (events : List Event)
        → ((id : EndpointId) → Met id s events → Known id)
        → IsTrusted s.task
        → IsTrusted (run codecs my_id p s events).task
    unfolding run
    run-IsTrusted s [] covers c = c
    run-IsTrusted s (e ∷ events) covers c =
        run-IsTrusted (step codecs my_id p s e) events (λ id h. covers id (inr h))
          (step-IsTrusted s e (λ id h. covers id (inl h)) c)
