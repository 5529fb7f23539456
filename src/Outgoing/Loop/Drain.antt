-- ===== src/Outgoing/Loop/Drain.antt =====
-- The loop runs dry: once the handshakes under way have ended, in any order, nobody waits.
use iroh_hyde_auth.Common.{
  ℕ, zero, suc, ◌-◌, ◌<◌, ◌≡◌, refl, ap, subst, ◌∙◌, true, none, some, List, [], ◌∷◌, ◌++◌, arith,
  length, get, beq_refl, nat_eq, list_eq,
}
use iroh_hyde_auth.Net.{EndpointId, EndpointAddr, World}
use iroh_hyde_auth.Wire.{Codecs}
use iroh_hyde_auth.Signer.{InstitutionalSigner}
use iroh_hyde_auth.Outgoing.{OutgoingAuthTask, Sender, AuthResult, handle_completion}
use iroh_hyde_auth.Outgoing.Loop.{
  Event, request, joined, hooks_gone, abort, LoopState, take_task, join, step, start, run,
}
use iroh_hyde_auth.Outgoing.Loop.Flight.{OneFlight, single_flight}
use iroh_hyde_auth.Outgoing.Loop.Replies.{waiting, answered, asked, no_lost_request}

-- A place below the number of tasks has one, and one less is left.
pub take_task-in :
    (tasks : List EndpointAddr) (i : ℕ)
    → i < length tasks
    → (addr : EndpointAddr) × (others : List EndpointAddr) × (take_task tasks i
        ≡ some (addr, others))
      × (length tasks ≡ suc (length others))
unfolding take_task
take_task-in [] i h = absurd (omega (arith, h))
take_task-in (a ∷ rest) zero h = (a, rest, refl, refl)
take_task-in (a ∷ rest) (suc i) h =
    let (addr, others, e, n) = take_task-in rest i (omega (arith, h)) in
    (addr, a ∷ others, rw e refl, omega (arith, n))

-- Where nobody is waited for under any id, nobody waits.
waiting-nobody :
    (tx : Sender) (pending : List (EndpointId × List Sender))
    → ((id : EndpointId) → get pending id ≡ none)
    → waiting tx pending ≡ 0
unfolding get
waiting-nobody tx [] h = refl
waiting-nobody tx ((id, txs) ∷ pending) h = absurd (ground (arith, h id, beq_refl id))

-- A task without a handshake under way has nobody waiting.
pub waiting-idle :
    (t : OutgoingAuthTask) (tx : Sender)
    → OneFlight t
    → t.tasks ≡ []
    → waiting tx t.pending_remotes ≡ 0
waiting-idle t tx c idle = waiting-nobody tx t.pending_remotes (λ id. ground (arith, c id, idle))

-- Handshakes that end, each given by its place among those under way, and the world that it met.
abbrev pub AreUnderWay : ℕ → List (ℕ × World) → Type 0
AreUnderWay n [] = n ≡ 0
AreUnderWay n ((i, w) ∷ ends) = (i < n) × AreUnderWay (n - 1) ends

abbrev pub ending : List (ℕ × World) → List Event
ending [] = []
ending ((i, w) ∷ ends) = joined i w ∷ ending ends

asked-ending :
    (tx : Sender) (events : List Event) (ends : List (ℕ × World))
    → asked tx (events ++ ending ends) ≡ asked tx events
asked-ending tx [] [] = refl
asked-ending tx [] ((i, w) ∷ ends) = asked-ending tx [] ends
asked-ending tx (request addr x ∷ events) ends = rw (asked-ending tx events ends) refl
asked-ending tx (joined i w ∷ events) ends = asked-ending tx events ends
asked-ending tx (hooks_gone ∷ events) ends = refl
asked-ending tx (abort ∷ events) ends = refl

handle_completion-tasks :
    (t : OutgoingAuthTask) (id : EndpointId) (res : AuthResult)
    → (handle_completion t id res).tasks ≡ t.tasks
unfolding handle_completion
handle_completion-tasks t id res = ground arith

module _ (codecs : Codecs) (my_id : EndpointId) where
  run-append :
      (s : LoopState) (xs ys : List Event)
      → run codecs my_id s (xs ++ ys) ≡ run codecs my_id (run codecs my_id s xs) ys
  unfolding run
  run-append s [] ys = refl
  run-append s (e ∷ xs) ys = run-append (step codecs my_id s e) xs ys

  left :
      (t : OutgoingAuthTask) (i : ℕ) (w : World) (addr : EndpointAddr) (others : List EndpointAddr)
      → take_task t.tasks i ≡ some (addr, others)
      → length t.tasks ≡ suc (length others)
      → length t.tasks - 1 ≡ length (join codecs my_id t w (take_task t.tasks i)).tasks
  left t i w addr others e n = rw e (rw (handle_completion-tasks _ _ _) (omega (arith, n)))

  drained :
      (t : OutgoingAuthTask) (ends : List (ℕ × World))
      → AreUnderWay (length t.tasks) ends
      → (run codecs my_id (record { running = true; task = t }) (ending ends)).task.tasks ≡ []
  unfolding run step
  drained t [] u = ground (arith, u)
  drained t ((i, w) ∷ ends) u =
      let (addr, others, e, n) = take_task-in t.tasks i u.0 in
      drained (join codecs my_id t w (take_task t.tasks i)) ends
        (subst (λ k. AreUnderWay k ends) (left t i w addr others e n) u.1)

  -- After any events from the start that leave the loop running, once the handshakes under way have
  -- all ended, in whatever order and with whatever result, every request that the loop took has
  -- been answered: a value was sent on each sender as often as a request came with it.
  pub all_answered :
      (signer : InstitutionalSigner) (events : List Event) (ends : List (ℕ × World)) (tx : Sender)
      → (run codecs my_id (start signer) events).running ≡ true
      → AreUnderWay (length (run codecs my_id (start signer) events).task.tasks) ends
      → answered tx (run codecs my_id (start signer) (events ++ ending ends)).task.replies
        ≡ asked tx events
  all_answered signer events ends tx on u =
      let all = events ++ ending ends in
      let before = run codecs my_id (start signer) events in
      let idle : (run codecs my_id (start signer) all).task.tasks ≡ [] =
        ap (λ s. s.task.tasks) (run-append (start signer) events (ending ends))
        ∙ ap
            (λ b.
              (run codecs my_id (record { running = b; task = before.task })
                (ending ends)).task.tasks)
            on
        ∙ drained before.task ends u in
      omega (
        arith,
        no_lost_request codecs my_id signer all tx,
        waiting-idle (run codecs my_id (start signer) all).task tx
            (λ id. (single_flight codecs my_id signer all id).0) idle,
        asked-ending tx events ends,
      )
