-- ===== src/Outgoing/Loop/Flight.antt =====
-- At most one handshake for a remote is under way, and one is exactly where somebody waits.
use iroh_hyde_auth.Common.{
  ◌&&◌, ℕ, zero, suc, ◌+◌, ◌≡◌, refl, inl, inr, Bool, true, false, none, some, List, [], ◌∷◌, ◌++◌,
  arith, contains, contains-insert, get, get-put, get-remove, ◌==◌, list_eq, list_beq_iff,
  if◌then◌else◌, Option-cases, Bool-cases,
}
use iroh_hyde_auth.Net.{EndpointId, EndpointAddr, World}
use iroh_hyde_auth.Wire.{Codecs}
use iroh_hyde_auth.Signer.{InstitutionalSigner}
use iroh_hyde_auth.Verifier.Roster.{is_some}
use iroh_hyde_auth.Outgoing.{
  OutgoingAuthTask, Sender, AuthResult, outgoing, handle_request, handle_completion,
}
use iroh_hyde_auth.Outgoing.Handshake.{handshake}
use iroh_hyde_auth.Outgoing.Loop.{
  Event, request, joined, hooks_gone, abort, LoopState, take_task, join, handle, step, start, run,
}

-- How many handshakes to this remote are running.
abbrev pub flights : EndpointId → List EndpointAddr → ℕ
flights id [] = 0
flights id (addr ∷ tasks) = (if addr.id == id then 1 else 0) + flights id tasks

flights-append :
    (id : EndpointId) (xs ys : List EndpointAddr)
    → flights id (xs ++ ys) ≡ flights id xs + flights id ys
flights-append id [] ys = omega arith
flights-append id (x ∷ xs) ys = omega (arith, flights-append id xs ys)

-- Taking a task away leaves one flight less to its remote.
flights-take_task :
    (id : EndpointId) (tasks : List EndpointAddr) (i : ℕ) (addr : EndpointAddr)
    (others : List EndpointAddr)
    → take_task tasks i ≡ some (addr, others)
    → flights id tasks ≡ (if addr.id == id then 1 else 0) + flights id others
unfolding take_task
flights-take_task id [] i addr others e = ground (arith, e)
flights-take_task id (a ∷ rest) zero addr others e = ground (arith, e)
flights-take_task id (a ∷ rest) (suc i) addr others e = elim (Option-cases (take_task rest i)) [
  | inl h ↦ absurd (ground (arith, e, h))
  | inr ((b, left), h) ↦ ground (arith, e, h, flights-take_task id rest i b left h)
]

abbrev waits : OutgoingAuthTask → EndpointId → Bool
waits t id = is_some (get t.pending_remotes id)

-- For each remote, one handshake is under way if somebody waits for it, and none otherwise.
abbrev pub OneFlight : OutgoingAuthTask → Type 0
OneFlight t =
    (id : EndpointId) → flights id t.tasks ≡ (if is_some (get t.pending_remotes id) then 1 else 0)

module _ (t : OutgoingAuthTask) (c : OneFlight t) where
  pub handle_request-OneFlight :
      (addr : EndpointAddr) (tx : Sender) → OneFlight (handle_request t addr tx)
  unfolding handle_request
  handle_request-OneFlight addr tx id = grind (
    arith,
    c id,
    c addr.id,
    flights-append id t.tasks (addr ∷ []),
    list_beq_iff addr.id id,
    get-put,
  )

  -- A task has ended with `res`, and `others` are still running.
  pub handle_completion-OneFlight :
      (i : ℕ) (addr : EndpointAddr) (others : List EndpointAddr) (res : AuthResult)
      → take_task t.tasks i ≡ some (addr, others)
      → OneFlight (handle_completion (record t { tasks = others }) addr.id res)
  unfolding handle_completion
  handle_completion-OneFlight i addr others res taken id = ground (
    arith,
    c id,
    c addr.id,
    flights-take_task id t.tasks i addr others taken,
    flights-take_task addr.id t.tasks i addr others taken,
    list_beq_iff addr.id id,
    get-remove t.pending_remotes addr.id id,
  )

record IsConsistent (t : OutgoingAuthTask) : Type 0 where
  pub one_flight : OneFlight t
  pub allowed_idle :
      (id : EndpointId) → contains t.allowed_remotes id ≡ true → get t.pending_remotes id ≡ none

module _ (t : OutgoingAuthTask) (c : IsConsistent t) where
  handle_request-IsConsistent :
      (addr : EndpointAddr) (tx : Sender) → IsConsistent (handle_request t addr tx)
  unfolding handle_request
  handle_request-IsConsistent addr tx = record {
    one_flight = handle_request-OneFlight t c.one_flight addr tx;
    allowed_idle = λ id h. grind (arith, c.allowed_idle id, list_beq_iff addr.id id, get-put);
  }

  handle_completion-IsConsistent :
      (i : ℕ) (addr : EndpointAddr) (others : List EndpointAddr) (res : AuthResult)
      → take_task t.tasks i ≡ some (addr, others)
      → IsConsistent (handle_completion (record t { tasks = others }) addr.id res)
  unfolding handle_completion
  handle_completion-IsConsistent i addr others res taken = record {
    one_flight = handle_completion-OneFlight t c.one_flight i addr others res taken;
    allowed_idle = λ id h. ground (
      arith,
      c.allowed_idle id,
      list_beq_iff addr.id id,
      get-remove t.pending_remotes addr.id id,
      contains-insert t.allowed_remotes addr.id id,
    );
  }

module _ (codecs : Codecs) (my_id : EndpointId) where
  joined-IsConsistent :
      (t : OutgoingAuthTask) (i : ℕ) (w : World)
      → IsConsistent t
      → IsConsistent (join codecs my_id t w (take_task t.tasks i))
  joined-IsConsistent t i w c = elim (Option-cases (take_task t.tasks i)) [
    | inl h ↦ rw h c
    | inr ((addr, others), h) ↦ rw h (
        handle_completion-IsConsistent t c i addr others (handshake codecs my_id addr t.signer w).0
          h)
  ]

  handled-IsConsistent :
      (t : OutgoingAuthTask) (e : Event)
      → IsConsistent t
      → IsConsistent (handle codecs my_id t e).task
  handled-IsConsistent t (request addr tx) c = handle_request-IsConsistent t c addr tx
  handled-IsConsistent t (joined i w) c = joined-IsConsistent t i w c
  handled-IsConsistent t hooks_gone c = c
  handled-IsConsistent t abort c = c

  step-IsConsistent :
      (s : LoopState) (e : Event) → IsConsistent s.task → IsConsistent (step codecs my_id s e).task
  unfolding step
  step-IsConsistent s e c = elim (Bool-cases s.running) [
    | inl r ↦ rw r (handled-IsConsistent s.task e c)
    | inr r ↦ rw r c
  ]

  run-IsConsistent :
      (s : LoopState) (events : List Event)
      → IsConsistent s.task
      → IsConsistent (run codecs my_id s events).task
  unfolding run
  run-IsConsistent s [] c = c
  run-IsConsistent s (e ∷ events) c =
      run-IsConsistent (step codecs my_id s e) events (step-IsConsistent s e c)

  -- After any events from the start, exactly one handshake is under way for a remote that somebody
  -- waits for, and none for any other; and nobody waits for a remote that is already allowed.
  pub single_flight :
      (signer : InstitutionalSigner) (events : List Event) (id : EndpointId)
      → let t = (run codecs my_id (start signer) events).task in
        (flights id t.tasks ≡ (if is_some (get t.pending_remotes id) then 1 else 0))
        × ((contains t.allowed_remotes id && is_some (get t.pending_remotes id)) ≡ false)
  single_flight signer events id =
      let c : IsConsistent (run codecs my_id (start signer) events).task =
        run-IsConsistent (start signer) events (
          unfold outgoing get in record { one_flight = λ id. refl; allowed_idle = λ id h. refl }) in
      (c.one_flight id, ground (arith, c.allowed_idle id))
