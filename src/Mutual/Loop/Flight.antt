-- ===== src/Mutual/Loop/Flight.antt =====
-- At most one mutual handshake with a remote is under way.
use iroh_hyde_auth.Common.{
  ℕ, ◌≡◌, refl, sym, subst, inl, inr, Bool, true, false, some, List, [], ◌∷◌, get, list_eq,
  Option-cases, if◌then◌else◌,
}
use iroh_hyde_auth.Error.{ok}
use iroh_hyde_auth.Net.{EndpointId, EndpointAddr, World}
use iroh_hyde_auth.Wire.{MutualCodecs}
use iroh_hyde_auth.Verifier.{InstitutionVerifier}
use iroh_hyde_auth.Verifier.Roster.{is_some}
use iroh_hyde_auth.Signer.{InstitutionalSigner}
use iroh_hyde_auth.Outgoing.{Sender, AuthResult}
use iroh_hyde_auth.Outgoing.Loop.{take_task}
use iroh_hyde_auth.Outgoing.Loop.Flight.{
  flights, OneFlight, handle_request-OneFlight, handle_completion-OneFlight,
}
use iroh_hyde_auth.Mutual.{MutualAuthProtocol}
use iroh_hyde_auth.Mutual.Authenticator.{
  MutualAuthTask, handle_request, handle_completion, spawn, mutual_auth,
}
use iroh_hyde_auth.Mutual.Loop.{
  Event, request, joined, incoming_auth, hooks_gone, abort, LoopState, join, step, run,
}
use iroh_hyde_auth.Mutual.Loop.View.{view, view-handle}

module _ (codecs : MutualCodecs) (my_id : EndpointId) (p : MutualAuthProtocol) where
  requested :
      (t : MutualAuthTask) (addr : EndpointAddr) (tx : Sender)
      → OneFlight (view t)
      → OneFlight (view (handle_request t addr tx))
  requested t addr tx c =
      subst OneFlight (sym (view-handle t addr tx addr.id (ok tt)).0)
        (handle_request-OneFlight (view t) c addr tx)

  completed :
      (t : MutualAuthTask) (i : ℕ) (addr : EndpointAddr) (others : List EndpointAddr)
      (res : AuthResult)
      → OneFlight (view t)
      → take_task t.tasks i ≡ some (addr, others)
      → OneFlight (view (handle_completion (record t { tasks = others }) addr.id res))
  completed t i addr others res c h =
      subst OneFlight (sym (view-handle (record t { tasks = others }) addr 0 addr.id res).1)
        (handle_completion-OneFlight (view t) c i addr others res h)

  joined-OneFlight :
      (t : MutualAuthTask) (i : ℕ) (w : World)
      → OneFlight (view t)
      → OneFlight (view (join codecs my_id p t w (take_task t.tasks i)))
  joined-OneFlight t i w c = elim (Option-cases (take_task t.tasks i)) [
    | inl h ↦ rw h c
    | inr ((addr, others), h) ↦ rw h (completed t i addr others _ c h)
  ]

  step-OneFlight :
      (running : Bool) (t : MutualAuthTask) (e : Event)
      → OneFlight (view t)
      → OneFlight (view (step codecs my_id p (record { running = running; task = t }) e).task)
  unfolding step
  step-OneFlight true t (request addr tx) c = requested t addr tx c
  step-OneFlight true t (joined i w) c = joined-OneFlight t i w c
  step-OneFlight true t (incoming_auth w) c = c
  step-OneFlight true t hooks_gone c = c
  step-OneFlight true t abort c = c
  step-OneFlight false t (request addr tx) c = c
  step-OneFlight false t (joined i w) c = c
  step-OneFlight false t (incoming_auth w) c = c
  step-OneFlight false t hooks_gone c = c
  step-OneFlight false t abort c = c

  run-OneFlight :
      (s : LoopState) (events : List Event)
      → OneFlight (view s.task)
      → OneFlight (view (run codecs my_id p s events).task)
  unfolding run
  run-OneFlight s [] c = c
  run-OneFlight s (e ∷ events) c =
      run-OneFlight (step codecs my_id p s e) events (step-OneFlight s.running s.task e c)

  -- After any events from the spawn of the mutual task, also where a remote comes in while it is
  -- being dialled, exactly one handshake is under way for a remote that somebody waits for, and none
  -- for any other.
  pub mutual_single_flight :
      (signer : InstitutionalSigner) (verifier : InstitutionVerifier) (events : List Event)
      (id : EndpointId)
      → let start : LoopState = record {
        running = true;
        task = spawn (mutual_auth signer verifier).1 my_id;
      } in
        let t = (run codecs my_id p start events).task in
        flights id t.tasks ≡ (if is_some (get t.pending id) then 1 else 0)
  unfolding spawn mutual_auth
  mutual_single_flight signer verifier events =
      run-OneFlight (record { running = true; task = spawn (mutual_auth signer verifier).1 my_id })
        events (unfold get in λ id. refl)
