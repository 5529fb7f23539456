-- ===== src/Incoming/Gate.antt =====
-- Who passes `after_handshake` of incoming.rs, over the life of an acceptor.
use iroh_hyde_auth.Common.{
  Any, ◌≡◌, ◌≢◌, ◌⊎◌, inl, inr, true, List, [], ◌∷◌, Bytes, arith, contains, contains-insert_cases,
  contains-insert_self, contains-insert_old, ◌↔◌, none, list_eq, list_beq_iff,
}
use iroh_hyde_auth.Error.{ok}
use iroh_hyde_auth.Net.{EndpointId, accept_connection, World}
use iroh_hyde_auth.Wire.{Codecs, alpn}
use iroh_hyde_auth.Verifier.{InstitutionId}
use iroh_hyde_auth.Incoming.{AuthProtocol, run_handshake, accept, after_handshake}
use iroh_hyde_auth.Incoming.Soundness.{Accepted}
use iroh_hyde_auth.Incoming.Hook.{accept_verdict}

module _ (codecs : Codecs) (p : AuthProtocol) where
  -- The set after the router has handed these connections to `accept`, the first one first.
  unfoldable pub after_all : List World → List EndpointId → List EndpointId
  after_all [] allowed = allowed
  after_all (w ∷ ws) allowed = after_all ws (accept codecs p w allowed).0

  -- The connection's peer has this id, and the handshake on it succeeded with a complete exchange.
  abbrev pub Authenticates : EndpointId → World → Type 0
  Authenticates id w =
      (w.remote.id ≡ id)
      × (institution : InstitutionId) × (w' : World) × (run_handshake codecs p w
          ≡ (ok institution, w'))
      × Accepted codecs p institution w w'

  -- Each connection is fresh: this side has not closed it.
  abbrev pub AreOpen : List World → Type 0
  AreOpen [] = Unit {0}
  AreOpen (w ∷ ws) = (w.closed ≡ none) × AreOpen ws

  accept_adds :
      (id : EndpointId) (w : World) (allowed : List EndpointId)
      → w.closed ≡ none
      → contains (accept codecs p w allowed).0 id ≡ true
      → Authenticates id w ⊎ (contains allowed id ≡ true)
  accept_adds id w allowed open_now h = elim (accept_verdict codecs p w allowed open_now) [
    | inl (institution, w', succeeded, accepted, left) ↦
        elim (contains-insert_cases allowed w.remote.id id (rw left.0 at h)) [
          | inl same ↦ inl (same, institution, w', succeeded, accepted)
          | inr old ↦ inr old
        ]
    | inr (e, failed, left) ↦ inr (rw left.0 at h)
  ]

  -- What is in the set stays in it.
  accept_keeps :
      (id : EndpointId) (w : World) (allowed : List EndpointId)
      → w.closed ≡ none
      → contains allowed id ≡ true
      → contains (accept codecs p w allowed).0 id ≡ true
  accept_keeps id w allowed open_now h = elim (accept_verdict codecs p w allowed open_now) [
    | inl (institution, w', succeeded, accepted, left) ↦
        rw left.0 (contains-insert_old allowed w.remote.id id h)
    | inr (e, failed, left) ↦ rw left.0 h
  ]

  after_all_adds :
      (id : EndpointId) (ws : List World) (allowed : List EndpointId)
      → AreOpen ws
      → contains (after_all ws allowed) id ≡ true
      → Any (Authenticates id) ws ⊎ (contains allowed id ≡ true)
  unfolding after_all
  after_all_adds id [] allowed o h = inr h
  after_all_adds id (w ∷ ws) allowed o h =
      elim (after_all_adds id ws (accept codecs p w allowed).0 o.1 h) [
        | inl later ↦ inl (inr later)
        | inr before ↦ elim (accept_adds id w allowed o.0 before) [
          | inl now ↦ inl (inl now)
          | inr old ↦ inr old
        ]
      ]

  after_all_keeps :
      (id : EndpointId) (ws : List World) (allowed : List EndpointId)
      → AreOpen ws
      → contains allowed id ≡ true
      → contains (after_all ws allowed) id ≡ true
  unfolding after_all
  after_all_keeps id [] allowed o h = h
  after_all_keeps id (w ∷ ws) allowed o h =
      after_all_keeps id ws _ o.1 (accept_keeps id w allowed o.0 h)

  hook_admits :
      (allowed : List EndpointId) (conn_alpn : Bytes) (id : EndpointId)
      → conn_alpn ≢ alpn
      → (after_handshake allowed conn_alpn id ≡ accept_connection) ↔ (contains allowed id ≡ true)
  unfolding after_handshake
  hook_admits allowed conn_alpn id other = ground (arith, list_beq_iff conn_alpn alpn)

  -- From an empty set, and after any auth connections that this side had not closed before, the
  -- hook admits a connection on an ALPN other than that of the handshake only from the remote id of
  -- one of those connections on which `run_handshake` succeeded: there a hello of this version had
  -- arrived, the challenge with this acceptor's own nonce was sent, and what arrived behind the hello
  -- after it decodes to an assertion that is not skewed and whose signature over the transcript of
  -- that nonce and that remote id the verifier accepted.
  pub gate_sound :
      (ws : List World) (conn_alpn : Bytes) (id : EndpointId)
      → AreOpen ws
      → conn_alpn ≢ alpn
      → after_handshake (after_all ws []) conn_alpn id ≡ accept_connection
      → Any (Authenticates id) ws
  gate_sound ws conn_alpn id o other h =
      elim (after_all_adds id ws [] o ((hook_admits (after_all ws []) conn_alpn id other).0 h)) [
        | inl found ↦ found
        | inr nowhere ↦ absurd (unfold contains in ground (arith, nowhere))
      ]

  -- Once `run_handshake` has succeeded on a connection, the hook admits its remote id from then on,
  -- whatever auth connections come later, and on every ALPN. This is for connections that this side
  -- had not closed before.
  pub gate_complete :
      (w : World) (allowed : List EndpointId) (later : List World) (institution : InstitutionId)
      (conn_alpn : Bytes)
      → AreOpen (w ∷ later)
      → (run_handshake codecs p w).0 ≡ ok institution
      → after_handshake (after_all (w ∷ later) allowed) conn_alpn w.remote.id ≡ accept_connection
  unfolding after_all after_handshake
  gate_complete w allowed later institution conn_alpn o h =
      elim (accept_verdict codecs p w allowed o.0) [
        | inl (found, w', succeeded, accepted, left) ↦
            let recorded = contains-insert_self allowed w.remote.id in
            ground (
              arith,
              after_all_keeps w.remote.id later (accept codecs p w allowed).0 o.1
                  (rw left.0 recorded),
            )
        | inr (e, failed, left) ↦ absurd (ground (arith, h, failed))
      ]
