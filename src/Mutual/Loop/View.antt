-- ===== src/Mutual/Loop/View.antt =====
-- The task of mutual.rs against that of outgoing.rs: seen without the verifier and the tolerance, it
-- is the same task, so it answers its waiters as that one does.
use iroh_hyde_auth.Common.{
  ℕ, ◌+◌, ◌≡◌, refl, ◌∙◌, ap, inl, inr, true, false, List, [], ◌∷◌, arith, contains, get,
  IsDistinct, ◌==◌, nat_eq, list_eq, Option-cases, Bool-cases,
}
use iroh_hyde_auth.Error.{ok, err}
use iroh_hyde_auth.Net.{EndpointId, EndpointAddr, World}
use iroh_hyde_auth.Wire.{MutualCodecs}
use iroh_hyde_auth.Verifier.{InstitutionVerifier}
use iroh_hyde_auth.Signer.{InstitutionalSigner}
use iroh_hyde_auth.Outgoing
use iroh_hyde_auth.Outgoing.{OutgoingAuthTask, Sender, AuthResult}
use iroh_hyde_auth.Outgoing.Loop.{take_task}
use iroh_hyde_auth.Outgoing.Loop.Replies.{
  outstanding, one_if, handle_request-IsDistinct, outstanding-handle_request,
  handle_completion-IsDistinct, outstanding-handle_completion,
}
use iroh_hyde_auth.Mutual.{MutualAuthProtocol}
use iroh_hyde_auth.Mutual.Authenticator.{
  MutualAuthTask, handle_request, handle_completion, admit, spawn, mutual_auth,
}
use iroh_hyde_auth.Mutual.Loop.{
  Event, request, joined, incoming_auth, hooks_gone, abort, LoopState, join, let_in, step, run,
}

abbrev pub view : MutualAuthTask → OutgoingAuthTask
view t = record {
  signer = t.signer;
  allowed_remotes = t.shared.allowed;
  pending_remotes = t.pending;
  tasks = t.tasks;
  replies = t.replies;
}

admit-view :
    (t : MutualAuthTask) (id : EndpointId) (res : AuthResult)
    → (admit t.shared id res).allowed ≡ Outgoing.admit t.shared.allowed id res
admit-view t id (ok x) = refl
admit-view t id (err e) = refl

-- What the mutual task does with a request, and with the end of a handshake, is what the task of
-- outgoing.rs does with it, on the set of remotes, the waiters, the running handshakes and the
-- replies.
pub view-handle :
    (t : MutualAuthTask) (addr : EndpointAddr) (tx : Sender) (id : EndpointId) (res : AuthResult)
    → (view (handle_request t addr tx) ≡ Outgoing.handle_request (view t) addr tx)
      × (view (handle_completion t id res) ≡ Outgoing.handle_completion (view t) id res)
unfolding handle_request handle_completion Outgoing.handle_request Outgoing.handle_completion
view-handle t addr tx id res = (
  elim (Bool-cases (contains t.shared.allowed addr.id)) [
    | inl known ↦ rw known refl
    | inr unknown ↦ elim (Option-cases (get t.pending addr.id)) [
      | inl fresh ↦ rw (unknown, fresh) refl
      | inr (old, found) ↦ rw (unknown, found) refl
    ]
  ],
  elim (Option-cases (get t.pending id)) [
    | inl nobody ↦ ground (arith, nobody, admit-view t id res)
    | inr (waiters, found) ↦ ground (arith, found, admit-view t id res)
  ],
)

-- How often the loop took a request with this sender, until it ended.
abbrev pub asked : Sender → List Event → ℕ
asked tx [] = 0
asked tx (request addr x ∷ events) = one_if (x == tx) + asked tx events
asked tx (joined i w ∷ events) = asked tx events
asked tx (incoming_auth w ∷ events) = asked tx events
asked tx (hooks_gone ∷ events) = 0
asked tx (abort ∷ events) = 0

module _ (codecs : MutualCodecs) (my_id : EndpointId) (p : MutualAuthProtocol) (tx : Sender) where
  -- A loop that has ended keeps its waiters and its replies.
  outstanding-ended :
      (t : MutualAuthTask) (events : List Event)
      → outstanding tx
          (view (run codecs my_id p (record { running = false; task = t }) events).task)
        ≡ outstanding tx (view t)
  unfolding run step
  outstanding-ended t [] = refl
  outstanding-ended t (request addr x ∷ events) = outstanding-ended t events
  outstanding-ended t (joined i w ∷ events) = outstanding-ended t events
  outstanding-ended t (incoming_auth w ∷ events) =
      outstanding-ended (let_in codecs my_id p t w) events
  outstanding-ended t (hooks_gone ∷ events) = outstanding-ended t events
  outstanding-ended t (abort ∷ events) = outstanding-ended t events

  kept-handle_request :
      (t : MutualAuthTask) (addr : EndpointAddr) (x : Sender)
      → IsDistinct t.pending
      → IsDistinct (handle_request t addr x).pending
        × (outstanding tx (view (handle_request t addr x))
            ≡ outstanding tx (view t) + one_if (x == tx))
  kept-handle_request t addr x d =
      let same = (view-handle t addr x addr.id (ok tt)).0 in
      (
        rw (ap (λ v. v.pending_remotes) same) (handle_request-IsDistinct (view t) d addr x),
        ap (outstanding tx) same ∙ outstanding-handle_request (view t) d addr x tx,
      )

  kept-handle_completion :
      (t : MutualAuthTask) (others : List EndpointAddr) (id : EndpointId) (res : AuthResult)
      → IsDistinct t.pending
      → let done = handle_completion (record t { tasks = others }) id res in
        IsDistinct done.pending × (outstanding tx (view done) ≡ outstanding tx (view t))
  kept-handle_completion t others id res d =
      let same =
        (view-handle (record t { tasks = others }) (record { id = id; direct = [] }) tx id res).1 in
      (
        rw (ap (λ v. v.pending_remotes) same)
            (handle_completion-IsDistinct (view t) d others id res),
        ap (outstanding tx) same ∙ outstanding-handle_completion (view t) d others id res tx,
      )

  kept-join :
      (t : MutualAuthTask) (i : ℕ) (w : World)
      → IsDistinct t.pending
      → let left = join codecs my_id p t w (take_task t.tasks i) in
        IsDistinct left.pending × (outstanding tx (view left) ≡ outstanding tx (view t))
  kept-join t i w d = elim (Option-cases (take_task t.tasks i)) [
    | inl h ↦ rw h (d, refl)
    | inr ((addr, others), h) ↦ rw h (kept-handle_completion t others addr.id _ d)
  ]

  outstanding-run :
      (t : MutualAuthTask) (events : List Event)
      → IsDistinct t.pending
      → outstanding tx (view (run codecs my_id p (record { running = true; task = t }) events).task)
        ≡ outstanding tx (view t) + asked tx events
  unfolding run step
  outstanding-run t [] d = omega arith
  outstanding-run t (request addr x ∷ events) d =
      let kept = kept-handle_request t addr x d in
      omega (arith, outstanding-run (handle_request t addr x) events kept.0, kept.1)
  outstanding-run t (joined i w ∷ events) d =
      let kept = kept-join t i w d in
      omega (
        arith,
        outstanding-run (join codecs my_id p t w (take_task t.tasks i)) events kept.0,
        kept.1,
      )
  outstanding-run t (incoming_auth w ∷ events) d =
      outstanding-run (let_in codecs my_id p t w) events d
  outstanding-run t (hooks_gone ∷ events) d = omega (arith, outstanding-ended t events)
  outstanding-run t (abort ∷ events) d = omega (arith, outstanding-ended t events)

  -- After any events from the spawn of the mutual task, whatever comes in meanwhile, the number of
  -- times that a sender waits, over all remotes, and the number of values sent on it make up the
  -- number of requests that the loop took with it.
  pub mutual_no_lost_request :
      (signer : InstitutionalSigner) (verifier : InstitutionVerifier) (events : List Event)
      → let start : LoopState = record {
        running = true;
        task = spawn (mutual_auth signer verifier).1 my_id;
      } in
        outstanding tx (view (run codecs my_id p start events).task) ≡ asked tx events
  unfolding spawn mutual_auth
  mutual_no_lost_request signer verifier events =
      omega (arith, outstanding-run (spawn (mutual_auth signer verifier).1 my_id) events tt)
