-- ===== src/Outgoing/Loop/Replies.antt =====
-- Every request is answered at most once, and waits until it is.
use iroh_hyde_auth.Common.{
  ℕ, ◌+◌, ◌≡◌, refl, inl, inr, Bool, true, false, Option, none, some, List, [], ◌∷◌, ◌++◌, arith,
  get, put, remove, IsDistinct, remove-absent, remove-IsDistinct, put-IsDistinct, ◌==◌, nat_eq,
  list_eq, Option-cases, list_beq_iff,
}
use iroh_hyde_auth.Net.{EndpointId, EndpointAddr, World}
use iroh_hyde_auth.Wire.{Codecs}
use iroh_hyde_auth.Signer.{InstitutionalSigner}
use iroh_hyde_auth.Outgoing.{
  OutgoingAuthTask, Sender, AuthResult, outgoing, handle_request, handle_completion, send_all,
}
use iroh_hyde_auth.Outgoing.Loop.{
  Event, request, joined, hooks_gone, abort, take_task, join, step, start, run,
}

abbrev pub one_if : Bool → ℕ
one_if true = 1
one_if false = 0

abbrev pub count : Sender → List Sender → ℕ
count tx [] = 0
count tx (x ∷ xs) = one_if (x == tx) + count tx xs

-- How often a sender waits, over all remotes.
abbrev pub waiting : Sender → List (EndpointId × List Sender) → ℕ
waiting tx [] = 0
waiting tx ((id, txs) ∷ pending) = count tx txs + waiting tx pending

-- How many values were sent on it.
abbrev pub answered : Sender → List (Sender × AuthResult) → ℕ
answered tx [] = 0
answered tx ((x, res) ∷ replies) = one_if (x == tx) + answered tx replies

abbrev waiting_at : Sender → Option (List Sender) → ℕ
waiting_at tx none = 0
waiting_at tx (some txs) = count tx txs

count-append : (tx : Sender) (xs ys : List Sender) → count tx (xs ++ ys) ≡ count tx xs + count tx ys
count-append tx [] ys = omega arith
count-append tx (x ∷ xs) ys = omega (arith, count-append tx xs ys)

answered-send_all :
    (tx : Sender) (txs : List Sender) (res : AuthResult) (sent : List (Sender × AuthResult))
    → answered tx (send_all txs res sent) ≡ count tx txs + answered tx sent
unfolding send_all
answered-send_all tx [] res sent = omega arith
answered-send_all tx (x ∷ txs) res sent =
    omega (arith, answered-send_all tx txs res ((x, res) ∷ sent))

waiting-remove :
    (tx : Sender) (id : EndpointId) (pending : List (EndpointId × List Sender))
    → IsDistinct pending
    → waiting tx pending ≡ waiting_at tx (get pending id) + waiting tx (remove pending id)
unfolding get remove
waiting-remove tx id [] d = omega arith
waiting-remove tx id ((j, txs) ∷ pending) d =
    ground (arith, waiting-remove tx id pending d.1, list_beq_iff j id, remove-absent pending id)

-- The requests of which the caller has been told, and those of which not yet.
abbrev pub outstanding : Sender → OutgoingAuthTask → ℕ
outstanding tx t = waiting tx t.pending_remotes + answered tx t.replies

module _ (t : OutgoingAuthTask) (d : IsDistinct t.pending_remotes) where
  pub handle_request-IsDistinct :
      (addr : EndpointAddr) (tx : Sender) → IsDistinct (handle_request t addr tx).pending_remotes
  unfolding handle_request
  handle_request-IsDistinct addr tx = grind (arith, put-IsDistinct)

  pub outstanding-handle_request :
      (addr : EndpointAddr) (x tx : Sender)
      → outstanding tx (handle_request t addr x) ≡ outstanding tx t + one_if (x == tx)
  unfolding handle_request put
  outstanding-handle_request addr x tx = elim (Option-cases (get t.pending_remotes addr.id)) [
    | inl h ↦ ground (arith, h, waiting-remove tx addr.id t.pending_remotes d)
    | inr (txs, h) ↦
        ground
          (arith, h, waiting-remove tx addr.id t.pending_remotes d, count-append tx txs (x ∷ []))
  ]

  pub handle_completion-IsDistinct :
      (others : List EndpointAddr) (id : EndpointId) (res : AuthResult)
      → IsDistinct (handle_completion (record t { tasks = others }) id res).pending_remotes
  unfolding handle_completion
  handle_completion-IsDistinct others id res =
      ground (arith, remove-IsDistinct t.pending_remotes id d)

  pub outstanding-handle_completion :
      (others : List EndpointAddr) (id : EndpointId) (res : AuthResult) (tx : Sender)
      → outstanding tx (handle_completion (record t { tasks = others }) id res) ≡ outstanding tx t
  unfolding handle_completion
  outstanding-handle_completion others id res tx = elim (Option-cases (get t.pending_remotes id)) [
    | inl h ↦ ground (arith, h)
    | inr (txs, h) ↦
        ground (
          arith,
          h,
          waiting-remove tx id t.pending_remotes d,
          answered-send_all tx txs res t.replies,
        )
  ]

-- How often the loop took a request with this sender, until it ended.
abbrev pub asked : Sender → List Event → ℕ
asked tx [] = 0
asked tx (request addr x ∷ events) = one_if (x == tx) + asked tx events
asked tx (joined i w ∷ events) = asked tx events
asked tx (hooks_gone ∷ events) = 0
asked tx (abort ∷ events) = 0

module _ (codecs : Codecs) (my_id : EndpointId) where
  -- A loop that has ended stays as it is.
  pub run_ended :
      (t : OutgoingAuthTask) (events : List Event)
      → run codecs my_id (record { running = false; task = t }) events
        ≡ record { running = false; task = t }
  unfolding run step
  run_ended t [] = refl
  run_ended t (e ∷ events) = run_ended t events

  join-IsDistinct :
      (t : OutgoingAuthTask) (i : ℕ) (w : World)
      → IsDistinct t.pending_remotes
      → IsDistinct (join codecs my_id t w (take_task t.tasks i)).pending_remotes
  join-IsDistinct t i w d = elim (Option-cases (take_task t.tasks i)) [
    | inl h ↦ rw h d
    | inr ((addr, others), h) ↦ rw h (handle_completion-IsDistinct t d others addr.id _)
  ]

  outstanding-join :
      (t : OutgoingAuthTask) (i : ℕ) (w : World) (tx : Sender)
      → IsDistinct t.pending_remotes
      → outstanding tx (join codecs my_id t w (take_task t.tasks i)) ≡ outstanding tx t
  outstanding-join t i w tx d = elim (Option-cases (take_task t.tasks i)) [
    | inl h ↦ rw h
    | inr ((addr, others), h) ↦ rw h (outstanding-handle_completion t d others addr.id _ tx)
  ]

  outstanding-run :
      (tx : Sender) (t : OutgoingAuthTask) (events : List Event)
      → IsDistinct t.pending_remotes
      → outstanding tx (run codecs my_id (record { running = true; task = t }) events).task
        ≡ outstanding tx t + asked tx events
  unfolding run step
  outstanding-run tx t [] d = omega arith
  outstanding-run tx t (request addr x ∷ events) d = omega (
    arith,
    outstanding-run tx (handle_request t addr x) events (handle_request-IsDistinct t d addr x),
    outstanding-handle_request t d addr x tx,
  )
  outstanding-run tx t (joined i w ∷ events) d = omega (
    arith,
    outstanding-run tx (join codecs my_id t w (take_task t.tasks i)) events
        (join-IsDistinct t i w d),
    outstanding-join t i w tx d,
  )
  outstanding-run tx t (hooks_gone ∷ events) d = rw (run_ended t events) (omega arith)
  outstanding-run tx t (abort ∷ events) d = rw (run_ended t events) (omega arith)

  -- After any events from the start, the number of times that a sender waits, over all remotes, and
  -- the number of values sent on it make up the number of requests that the loop took with it: so a
  -- request with a sender of its own is never lost, and not answered twice.
  pub no_lost_request :
      (signer : InstitutionalSigner) (events : List Event) (tx : Sender)
      → outstanding tx (run codecs my_id (start signer) events).task ≡ asked tx events
  unfolding outgoing
  no_lost_request signer events tx = omega (arith, outstanding-run tx (outgoing signer) events tt)
