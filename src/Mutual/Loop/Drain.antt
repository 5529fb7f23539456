-- ===== src/Mutual/Loop/Drain.antt =====
-- The loop of mutual.rs runs dry, as that of outgoing.rs does.
use iroh_hyde_auth.Common.{
  ℕ, suc, ◌-◌, ◌≡◌, refl, ap, subst, ◌∙◌, true, some, List, [], ◌∷◌, ◌++◌, arith, length, nat_eq,
  list_eq,
}
use iroh_hyde_auth.Net.{EndpointId, EndpointAddr, World}
use iroh_hyde_auth.Wire.{MutualCodecs}
use iroh_hyde_auth.Signer.{InstitutionalSigner}
use iroh_hyde_auth.Verifier.{InstitutionVerifier}
use iroh_hyde_auth.Outgoing.{Sender, AuthResult}
use iroh_hyde_auth.Outgoing.Loop.{take_task}
use iroh_hyde_auth.Outgoing.Loop.Replies.{answered}
use iroh_hyde_auth.Outgoing.Loop.Drain.{take_task-in, waiting-idle, AreUnderWay}
use iroh_hyde_auth.Mutual.{MutualAuthProtocol}
use iroh_hyde_auth.Mutual.Authenticator.{MutualAuthTask, handle_completion, spawn, mutual_auth}
use iroh_hyde_auth.Mutual.Loop.{
  Event, request, joined, incoming_auth, hooks_gone, abort, LoopState, join, step, run,
}
use iroh_hyde_auth.Mutual.Loop.View.{view, asked, mutual_no_lost_request}
use iroh_hyde_auth.Mutual.Loop.Flight.{mutual_single_flight}

abbrev pub ending : List (ℕ × World) → List Event
ending [] = []
ending ((i, w) ∷ ends) = joined i w ∷ ending ends

module _ (tx : Sender) where
  asked-ending :
      (events : List Event) (ends : List (ℕ × World))
      → asked tx (events ++ ending ends) ≡ asked tx events
  asked-ending [] [] = refl
  asked-ending [] ((i, w) ∷ ends) = asked-ending [] ends
  asked-ending (request addr x ∷ events) ends = rw (asked-ending events ends) refl
  asked-ending (joined i w ∷ events) ends = asked-ending events ends
  asked-ending (incoming_auth w ∷ events) ends = asked-ending events ends
  asked-ending (hooks_gone ∷ events) ends = refl
  asked-ending (abort ∷ events) ends = refl

handle_completion-tasks :
    (t : MutualAuthTask) (id : EndpointId) (res : AuthResult)
    → (handle_completion t id res).tasks ≡ t.tasks
unfolding handle_completion
handle_completion-tasks t id res = ground arith

-- The mutual task that an endpoint spawns, before anything happens.
abbrev pub spawned : EndpointId → InstitutionalSigner → InstitutionVerifier → LoopState
spawned my_id signer verifier = record {
  running = true;
  task = spawn (mutual_auth signer verifier).1 my_id;
}

module _ (codecs : MutualCodecs) (my_id : EndpointId) (p : MutualAuthProtocol) where
  run-append :
      (s : LoopState) (xs ys : List Event)
      → run codecs my_id p s (xs ++ ys) ≡ run codecs my_id p (run codecs my_id p s xs) ys
  unfolding run
  run-append s [] ys = refl
  run-append s (e ∷ xs) ys = run-append (step codecs my_id p s e) xs ys

  left :
      (t : MutualAuthTask) (i : ℕ) (w : World) (addr : EndpointAddr) (others : List EndpointAddr)
      → take_task t.tasks i ≡ some (addr, others)
      → length t.tasks ≡ suc (length others)
      → length t.tasks - 1 ≡ length (join codecs my_id p t w (take_task t.tasks i)).tasks
  left t i w addr others e n = rw e (rw (handle_completion-tasks _ _ _) (omega (arith, n)))

  drained :
      (t : MutualAuthTask) (ends : List (ℕ × World))
      → AreUnderWay (length t.tasks) ends
      → (run codecs my_id p (record { running = true; task = t }) (ending ends)).task.tasks ≡ []
  unfolding run step
  drained t [] u = ground (arith, u)
  drained t ((i, w) ∷ ends) u =
      let (addr, others, e, n) = take_task-in t.tasks i u.0 in
      drained (join codecs my_id p t w (take_task t.tasks i)) ends
        (subst (λ k. AreUnderWay k ends) (left t i w addr others e n) u.1)

  -- After any events from the spawn of the mutual task that leave its loop running, incoming
  -- connections among them, once the handshakes under way have all ended, in whatever order and with
  -- whatever result, every request that the loop took has been answered: a value was sent on each
  -- sender as often as a request came with it.
  pub mutual_all_answered :
      (signer : InstitutionalSigner) (verifier : InstitutionVerifier) (events : List Event)
      (ends : List (ℕ × World)) (tx : Sender)
      → (run codecs my_id p (spawned my_id signer verifier) events).running ≡ true
      → AreUnderWay
          (length (run codecs my_id p (spawned my_id signer verifier) events).task.tasks)
          ends
      → answered tx
          (run codecs my_id p (spawned my_id signer verifier) (events ++ ending ends)).task.replies
        ≡ asked tx events
  mutual_all_answered signer verifier events ends tx on u =
      let start = spawned my_id signer verifier in
      let all = events ++ ending ends in
      let before = run codecs my_id p start events in
      let idle : (run codecs my_id p start all).task.tasks ≡ [] =
        ap (λ s. s.task.tasks) (run-append start events (ending ends))
        ∙ ap
            (λ b.
              (run codecs my_id p (record { running = b; task = before.task })
                (ending ends)).task.tasks)
            on
        ∙ drained before.task ends u in
      omega (
        arith,
        mutual_no_lost_request codecs my_id p tx signer verifier all,
        waiting-idle (view (run codecs my_id p start all).task) tx
            (mutual_single_flight codecs my_id p signer verifier all) idle,
        asked-ending tx events ends,
      )
