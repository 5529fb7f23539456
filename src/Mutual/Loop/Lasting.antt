-- ===== src/Mutual/Loop/Lasting.antt =====
-- Whom the hook of mutual.rs has admitted once, it admits for good.
use iroh_hyde_auth.Common.{
  ℕ, ◌≡◌, inl, inr, true, some, List, [], ◌∷◌, Bytes, arith, contains, contains-insert_self,
  contains-insert_old, list_eq, nat_eq, Option-cases, Bool-cases,
}
use iroh_hyde_auth.Error.{ok, err, Result}
use iroh_hyde_auth.Net.{EndpointId, EndpointAddr, accept_connection, World}
use iroh_hyde_auth.Wire.{MutualCodecs}
use iroh_hyde_auth.Outgoing.{Sender, AuthResult}
use iroh_hyde_auth.Outgoing.Loop.{take_task}
use iroh_hyde_auth.Mutual.{
  MutualAuthProtocol, Shared, accept, accept_handshake, settle, after_handshake,
}
use iroh_hyde_auth.Mutual.Initiator.{handshake}
use iroh_hyde_auth.Mutual.Authenticator.{MutualAuthTask, handle_request, handle_completion, admit}
use iroh_hyde_auth.Mutual.Loop.{
  Event, request, joined, incoming_auth, hooks_gone, abort, LoopState, join, let_in, handle,
  handle_ended, step, run,
}

-- The remote is in what is shared.
abbrev Knows : EndpointId → Shared → Type 0
Knows id shared = contains shared.allowed id ≡ true

module _ (codecs : MutualCodecs) (my_id : EndpointId) (p : MutualAuthProtocol) where
  settle-Knows :
      (id : EndpointId) (r : Result EndpointId × World) (shared : Shared)
      → Knows id shared
      → Knows id (settle codecs r shared).0
  settle-Knows id (ok remote, w) shared h = contains-insert_old shared.allowed remote id h
  settle-Knows id (err e, w) shared h = h

  settle-new :
      (id : EndpointId) (r : Result EndpointId × World) (shared : Shared)
      → r.0 ≡ ok id
      → Knows id (settle codecs r shared).0
  settle-new id (ok remote, w) shared h = ground (arith, h, contains-insert_self shared.allowed id)
  settle-new id (err e, w) shared h = absurd (ground (arith, h))

  admit-Knows :
      (id remote : EndpointId) (res : AuthResult) (shared : Shared)
      → Knows id shared
      → Knows id (admit shared remote res)
  admit-Knows id remote (ok x) shared h = contains-insert_old shared.allowed remote id h
  admit-Knows id remote (err e) shared h = h

  -- What the handlers leave in what is shared.
  shared-handle_request :
      (t : MutualAuthTask) (addr : EndpointAddr) (tx : Sender)
      → (handle_request t addr tx).shared ≡ t.shared
  unfolding handle_request
  shared-handle_request t addr tx = ground arith

  shared-handle_completion :
      (t : MutualAuthTask) (id : EndpointId) (res : AuthResult)
      → (handle_completion t id res).shared ≡ admit t.shared id res
  unfolding handle_completion
  shared-handle_completion t id res = ground arith

  let_in-Knows :
      (id : EndpointId) (t : MutualAuthTask) (w : World)
      → Knows id t.shared
      → Knows id (let_in codecs my_id p t w).shared
  unfolding accept
  let_in-Knows id t w h = settle-Knows id (accept_handshake codecs p t.shared w) t.shared h

  join-Knows :
      (id : EndpointId) (t : MutualAuthTask) (i : ℕ) (w : World)
      → Knows id t.shared
      → Knows id (join codecs my_id p t w (take_task t.tasks i)).shared
  join-Knows id t i w h = elim (Option-cases (take_task t.tasks i)) [
    | inl e ↦ rw e h
    | inr ((addr, others), e) ↦
        rw e (rw (shared-handle_completion _ _ _) (admit-Knows id addr.id _ t.shared h))
  ]

  handle-Knows :
      (id : EndpointId) (t : MutualAuthTask) (e : Event)
      → Knows id t.shared
      → Knows id (handle codecs my_id p t e).task.shared
  handle-Knows id t (request addr tx) h = rw (shared-handle_request t addr tx) h
  handle-Knows id t (joined i w) h = join-Knows id t i w h
  handle-Knows id t (incoming_auth w) h = let_in-Knows id t w h
  handle-Knows id t hooks_gone h = h
  handle-Knows id t abort h = h

  ended-Knows :
      (id : EndpointId) (t : MutualAuthTask) (e : Event)
      → Knows id t.shared
      → Knows id (handle_ended codecs my_id p t e).task.shared
  ended-Knows id t (request addr tx) h = h
  ended-Knows id t (joined i w) h = h
  ended-Knows id t (incoming_auth w) h = let_in-Knows id t w h
  ended-Knows id t hooks_gone h = h
  ended-Knows id t abort h = h

  run-Knows :
      (id : EndpointId) (s : LoopState) (events : List Event)
      → Knows id s.task.shared
      → Knows id (run codecs my_id p s events).task.shared
  unfolding run step
  run-Knows id s [] h = h
  run-Knows id s (e ∷ events) h = elim (Bool-cases s.running) [
    | inl on ↦ run-Knows id (step codecs my_id p s e) events (rw on (handle-Knows id s.task e h))
    | inr off ↦ run-Knows id (step codecs my_id p s e) events (rw off (ended-Knows id s.task e h))
  ]

  -- A handshake with this remote succeeds at this event: an incoming connection whose handshake does,
  -- or a dial that ends so while the loop runs.
  abbrev pub Succeeds : LoopState → EndpointId → Event → Type 0
  Succeeds s id (incoming_auth w) = (accept_handshake codecs p s.task.shared w).0 ≡ ok id
  Succeeds s id (joined i w) =
      (addr : EndpointAddr) × (others : List EndpointAddr) × (s.running ≡ true)
      × (take_task s.task.tasks i ≡ some (addr, others))
      × (addr.id ≡ id)
      × ((handshake codecs my_id addr s.task.signer s.task.verifier s.task.max_skew_secs w).0
          ≡ ok tt)
  Succeeds s id e = ⊥

  step-new :
      (id : EndpointId) (s : LoopState) (e : Event)
      → Succeeds s id e
      → Knows id (step codecs my_id p s e).task.shared
  unfolding step accept
  step-new id s (incoming_auth w) h =
      let known = settle-new id (accept_handshake codecs p s.task.shared w) s.task.shared h in
      elim (Bool-cases s.running) [ inl on ↦ rw on known | inr off ↦ rw off known ]
  step-new id s (joined i w) (addr, others, on, taken, same, good) =
      rw (on, taken)
        (rw (shared-handle_completion _ _ _, good, same)
          (contains-insert_self s.task.shared.allowed id))
  step-new id s (request addr tx) h = absurd h
  step-new id s hooks_gone h = absurd h
  step-new id s abort h = absurd h

  -- Once a handshake with a remote has succeeded, an incoming one or a dial of the loop, the hook
  -- admits that remote on every ALPN, whatever events come later, also when the loop has ended: a
  -- later handshake that fails takes nothing back.
  pub mutual_gate_complete :
      (s : LoopState) (e : Event) (later : List Event) (id : EndpointId) (conn_alpn : Bytes)
      → Succeeds s id e
      → after_handshake (run codecs my_id p s (e ∷ later)).task.shared conn_alpn id
        ≡ accept_connection
  unfolding after_handshake run
  mutual_gate_complete s e later id conn_alpn h =
      ground (arith, run-Knows id (step codecs my_id p s e) later (step-new id s e h))
