-- ===== src/Outgoing/Loop/Lasting.antt =====
-- Once a handshake with a remote has succeeded, the loop of outgoing.rs answers for it at once.
use iroh_hyde_auth.Common.{
  ℕ, ◌≡◌, inl, inr, true, List, [], ◌∷◌, Bytes, arith, contains, contains-insert_self,
  contains-insert_old, get, nat_eq, list_eq, Option-cases, Bool-cases,
}
use iroh_hyde_auth.Error.{ok, err}
use iroh_hyde_auth.Net.{EndpointId, EndpointAddr, World, accept_dial}
use iroh_hyde_auth.Wire.{Codecs}
use iroh_hyde_auth.Outgoing.{
  OutgoingAuthTask, Sender, AuthResult, handle_request, handle_completion, admit, authenticate,
  before_connect,
}
use iroh_hyde_auth.Outgoing.Loop.{
  Event, LoopState, request, joined, hooks_gone, abort, take_task, join, handle, step, run,
}
use iroh_hyde_auth.Outgoing.Loop.Ends.{Ends}

-- The remote is in the set of the task.
abbrev Knows : EndpointId → OutgoingAuthTask → Type 0
Knows id t = contains t.allowed_remotes id ≡ true

admit-Knows :
    (xs : List EndpointId) (id remote : EndpointId) (res : AuthResult)
    → contains xs id ≡ true
    → contains (admit xs remote res) id ≡ true
admit-Knows xs id remote (ok t) h = contains-insert_old xs remote id h
admit-Knows xs id remote (err e) h = h

allowed-handle_request :
    (t : OutgoingAuthTask) (addr : EndpointAddr) (tx : Sender)
    → (handle_request t addr tx).allowed_remotes ≡ t.allowed_remotes
unfolding handle_request
allowed-handle_request t addr tx = ground arith

allowed-handle_completion :
    (t : OutgoingAuthTask) (id : EndpointId) (res : AuthResult)
    → (handle_completion t id res).allowed_remotes ≡ admit t.allowed_remotes id res
unfolding handle_completion
allowed-handle_completion t id res = ground arith

module _ (codecs : Codecs) (my_id : EndpointId) where
  join-Knows :
      (id : EndpointId) (t : OutgoingAuthTask) (i : ℕ) (w : World)
      → Knows id t
      → Knows id (join codecs my_id t w (take_task t.tasks i))
  join-Knows id t i w h = elim (Option-cases (take_task t.tasks i)) [
    | inl e ↦ rw e h
    | inr ((addr, others), e) ↦
        rw e (rw (allowed-handle_completion _ _ _) (admit-Knows t.allowed_remotes id addr.id _ h))
  ]

  step-Knows :
      (id : EndpointId) (s : LoopState) (e : Event)
      → Knows id s.task
      → Knows id (step codecs my_id s e).task
  unfolding step
  step-Knows id s e h = elim (Bool-cases s.running) [
    | inl on ↦ rw on (handled e)
    | inr off ↦ rw off h
  ]
    where
      handled : (e : Event) → Knows id (handle codecs my_id s.task e).task
      handled (request addr tx) = rw (allowed-handle_request s.task addr tx) h
      handled (joined i w) = join-Knows id s.task i w h
      handled hooks_gone = h
      handled abort = h

  run-Knows :
      (id : EndpointId) (s : LoopState) (events : List Event)
      → Knows id s.task
      → Knows id (run codecs my_id s events).task
  unfolding run
  run-Knows id s [] h = h
  run-Knows id s (e ∷ events) h = run-Knows id (step codecs my_id s e) events (step-Knows id s e h)

  step-new :
      (id : EndpointId) (s : LoopState) (e : Event)
      → Ends codecs my_id s.task.signer s id (ok tt) e
      → Knows id (step codecs my_id s e).task
  unfolding step
  step-new id s (joined i w) (addr, others, on, taken, same, good) =
      rw (on, taken)
        (rw (allowed-handle_completion _ _ _, good, same)
          (contains-insert_self s.task.allowed_remotes id))
  step-new id s (request addr tx) h = absurd h
  step-new id s hooks_gone h = absurd h
  step-new id s abort h = absurd h

  -- Once a handshake with a remote has ended in success in a running loop, and whatever events come
  -- later, a request for that remote which the loop handles while it still runs is answered with
  -- `Ok` at once, without another handshake and without waiting, so the hook lets the dial out on
  -- every ALPN: a later handshake that fails takes nothing back.
  pub authenticated_once :
      (s : LoopState) (e : Event) (later : List Event) (addr : EndpointAddr) (tx : Sender)
      (dialled_alpn : Bytes)
      → Ends codecs my_id s.task.signer s addr.id (ok tt) e
      → (run codecs my_id s (e ∷ later)).running ≡ true
      → let before = (run codecs my_id s (e ∷ later)).task in
        let after = (step codecs my_id (run codecs my_id s (e ∷ later)) (request addr tx)).task in
        (after.replies ≡ (tx, ok tt) ∷ before.replies)
        × (before_connect dialled_alpn (authenticate true (get after.replies tx)) ≡ accept_dial)
        × (after.tasks ≡ before.tasks)
        × (after.pending_remotes ≡ before.pending_remotes)
  unfolding run step handle_request before_connect authenticate get
  authenticated_once s e later addr tx dialled_alpn h on =
      ground (arith, on, run-Knows addr.id (step codecs my_id s e) later (step-new addr.id s e h))
