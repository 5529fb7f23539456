-- ===== src/Outgoing/Loop/Ends.antt =====
-- What a reply of the loop, and what it has recorded, rest on.
use iroh_hyde_auth.Common.{
  All, All-append, ℕ, ◌≡◌, refl, ◌⊎◌, inl, inr, true, some, List, [], ◌∷◌, ◌++◌, arith, contains,
  contains-insert_cases, get, put, get-put, get-remove, nat_eq, list_eq, Option-cases, Bool-cases,
  list_beq_iff, list_beq,
}
use iroh_hyde_auth.Error.{ok, err}
use iroh_hyde_auth.Net.{EndpointId, EndpointAddr, World}
use iroh_hyde_auth.Wire.{Codecs}
use iroh_hyde_auth.Signer.{InstitutionalSigner}
use iroh_hyde_auth.Outgoing.{
  OutgoingAuthTask, Sender, AuthResult, handle_request, handle_completion, send_all, admit,
}
use iroh_hyde_auth.Outgoing.Handshake.{handshake}
use iroh_hyde_auth.Outgoing.Loop.Replies.{run_ended}
use iroh_hyde_auth.Outgoing.Loop.{
  Event, LoopState, request, joined, hooks_gone, abort, take_task, join, step, run,
}

module _ (codecs : Codecs) (my_id : EndpointId) (signer : InstitutionalSigner) where
  -- At this event of a running loop, a handshake with this remote ends so: the task that the event
  -- takes is one that dials it.
  abbrev pub Ends : LoopState → EndpointId → AuthResult → Event → Type 0
  Ends s id res (joined i w) =
      (addr : EndpointAddr) × (others : List EndpointAddr) × (s.running ≡ true)
      × (take_task s.task.tasks i ≡ some (addr, others))
      × (addr.id ≡ id)
      × ((handshake codecs my_id addr signer w).0 ≡ res)
  Ends s id res e = ⊥

  -- In the course of these events, from this state, a handshake with this remote ends so.
  abbrev pub Ended : EndpointId → AuthResult → LoopState → List Event → Type 0
  Ended id res s [] = ⊥
  Ended id res s (e ∷ events) = Ends s id res e ⊎ Ended id res (step codecs my_id s e) events

  -- `remote_of` is the remote that the hook asked for with a sender.
  module _ (remote_of : Sender → EndpointId) where
    abbrev pub AreAddressed : List Event → Type 0
    AreAddressed [] = Unit {0}
    AreAddressed (request addr tx ∷ events) = (remote_of tx ≡ addr.id) × AreAddressed events
    AreAddressed (e ∷ events) = AreAddressed events

    -- What is known of the handshakes that have ended.
    module _ (Known : EndpointId → AuthResult → Type 0) where
      pub record IsTrusted (t : OutgoingAuthTask) : Type 0 where
        pub signs : t.signer ≡ signer
        pub allowed : (id : EndpointId) → contains t.allowed_remotes id ≡ true → Known id (ok tt)
        pub waits :
            (id : EndpointId) (txs : List Sender)
            → get t.pending_remotes id ≡ some txs
            → All (λ tx. remote_of tx ≡ id) txs
        pub replied : All (λ (tx, res). Known (remote_of tx) res) t.replies

      send_all-Known :
          (id : EndpointId) (res : AuthResult) (txs : List Sender)
          (sent : List (Sender × AuthResult))
          → Known id res
          → All (λ tx. remote_of tx ≡ id) txs
          → All (λ (tx, r). Known (remote_of tx) r) sent
          → All (λ (tx, r). Known (remote_of tx) r) (send_all txs res sent)
      unfolding send_all
      send_all-Known id res [] sent ended mine h = h
      send_all-Known id res (tx ∷ txs) sent ended mine h =
          send_all-Known id res txs ((tx, res) ∷ sent) ended mine.1 (rw mine.0 ended, h)

      module _ (t : OutgoingAuthTask) (c : IsTrusted t) where
        enqueued :
            (addr : EndpointAddr) (tx : Sender) (old : List Sender)
            → remote_of tx ≡ addr.id
            → All (λ x. remote_of x ≡ addr.id) old
            → (id : EndpointId) (txs : List Sender)
            → get (put t.pending_remotes addr.id (old ++ tx ∷ [])) id ≡ some txs
            → All (λ x. remote_of x ≡ id) txs
        enqueued addr tx old mine olds id txs e = elim (Bool-cases (list_beq addr.id id)) [
          | inl same ↦
              let key : addr.id ≡ id = (list_beq_iff addr.id id).0 same in
              let value : old ++ tx ∷ [] ≡ txs =
                ground (arith, e, same, get-put t.pending_remotes addr.id id (old ++ tx ∷ [])) in
              rw (← key, ← value)
                (All-append (λ x. remote_of x ≡ addr.id) old (tx ∷ []) olds (mine, tt))
          | inr other ↦
              c.waits id txs
                (ground (arith, e, other, get-put t.pending_remotes addr.id id (old ++ tx ∷ [])))
        ]

        handle_request-IsTrusted :
            (addr : EndpointAddr) (tx : Sender)
            → remote_of tx ≡ addr.id
            → IsTrusted (handle_request t addr tx)
        unfolding handle_request
        handle_request-IsTrusted addr tx mine =
            elim (Bool-cases (contains t.allowed_remotes addr.id)) [
              | inl known ↦ rw known (record {
                signs = c.signs;
                allowed = c.allowed;
                waits = c.waits;
                replied = (rw mine (c.allowed addr.id known), c.replied);
              })
              | inr unknown ↦ elim (Option-cases (get t.pending_remotes addr.id)) [
                | inl fresh ↦
                    rw (unknown, fresh)
                      (record {
                        signs = c.signs;
                        allowed = c.allowed;
                        waits = enqueued addr tx [] mine tt;
                        replied = c.replied;
                      })
                | inr (old, found) ↦
                    rw (unknown, found)
                      (record {
                        signs = c.signs;
                        allowed = c.allowed;
                        waits = enqueued addr tx old mine (c.waits addr.id old found);
                        replied = c.replied;
                      })
              ]
            ]

        admitted :
            (id : EndpointId) (res : AuthResult)
            → Known id res
            → (j : EndpointId) → contains (admit t.allowed_remotes id res) j ≡ true
            → Known j (ok tt)
        admitted id (ok x) ended j h = elim (contains-insert_cases t.allowed_remotes id j h) [
          | inl same ↦ rw (← same) ended
          | inr old ↦ c.allowed j old
        ]
        admitted id (err e) ended j h = c.allowed j h

        handle_completion-IsTrusted :
            (others : List EndpointAddr) (id : EndpointId) (res : AuthResult)
            → Known id res
            → IsTrusted (handle_completion (record t { tasks = others }) id res)
        unfolding handle_completion
        handle_completion-IsTrusted others id res ended =
            elim (Option-cases (get t.pending_remotes id)) [
              | inl nobody ↦ rw nobody (record {
                signs = c.signs;
                allowed = admitted id res ended;
                waits = c.waits;
                replied = c.replied;
              })
              | inr (txs, found) ↦ rw found (record {
                signs = c.signs;
                allowed = admitted id res ended;
                waits =
                    λ j xs h. c.waits j xs (ground (arith, h, get-remove t.pending_remotes id j));
                replied =
                    send_all-Known id res txs t.replies ended (c.waits id txs found) c.replied;
              })
            ]

        join-IsTrusted :
            (i : ℕ) (w : World)
            → ((id : EndpointId) (res : AuthResult)
                → Ends (record { running = true; task = t }) id res (joined i w)
                → Known id res)
            → IsTrusted (join codecs my_id t w (take_task t.tasks i))
        join-IsTrusted i w covers = elim (Option-cases (take_task t.tasks i)) [
          | inl h ↦ rw h c
          | inr ((addr, others), h) ↦ rw h (
              handle_completion-IsTrusted others addr.id _
                (covers addr.id _ (addr, others, refl, h, refl, rw c.signs refl)))
        ]

      pub run-IsTrusted :
          (t : OutgoingAuthTask) (events : List Event)
          → AreAddressed events
          → ((id : EndpointId) (res : AuthResult)
              → Ended id res (record { running = true; task = t }) events
              → Known id res)
          → IsTrusted t
          → IsTrusted (run codecs my_id (record { running = true; task = t }) events).task
      unfolding run step
      run-IsTrusted t [] a covers c = c
      run-IsTrusted t (request addr tx ∷ events) a covers c =
          run-IsTrusted (handle_request t addr tx) events a.1 (λ id res h. covers id res (inr h))
            (handle_request-IsTrusted t c addr tx a.0)
      run-IsTrusted t (joined i w ∷ events) a covers c =
          run-IsTrusted (join codecs my_id t w (take_task t.tasks i)) events a
            (λ id res h. covers id res (inr h))
            (join-IsTrusted t c i w λ id res h. covers id res (inl h))
      run-IsTrusted t (hooks_gone ∷ events) a covers c = rw (run_ended codecs my_id t events) c
      run-IsTrusted t (abort ∷ events) a covers c = rw (run_ended codecs my_id t events) c
