-- ===== src/Examples/EchoAuth/Gate.antt =====
-- Whose connections reach the echo protocol of examples/echo-auth.rs, over the life of its router.
use iroh_hyde_auth.Common.{
  ◌≡◌, ◌≢◌, ◌⊎◌, refl, ap, ◌∙◌, inl, inr, arith, Bool, false, ◌||◌, ◌&&◌, none, some, List, [], ◌∷◌,
  Bytes, codes, contains, get, get-put, put, ◌==◌, list_eq, list_beq, list_beq_iff, nat_eq,
  Bool-cases, if◌then◌else◌,
}
use iroh_hyde_auth.Error.{ok}
use iroh_hyde_auth.Hyde.{Hyde}
use iroh_hyde_auth.Net.{EndpointId, World, accept_connection, reject_connection}
use iroh_hyde_auth.Wire
use iroh_hyde_auth.Wire.{Codecs}
use iroh_hyde_auth.Verifier.{as_verifier, new}
use iroh_hyde_auth.Verifier.Roster
use iroh_hyde_auth.Incoming.{AuthProtocol, incoming, run_handshake, accept, after_handshake}
use iroh_hyde_auth.Incoming.Order.{is_proved, contains-settle}
use iroh_hyde_auth.Examples.Echo
use iroh_hyde_auth.Examples.Echo.{Crates, AreDocumented}
use iroh_hyde_auth.Examples.EchoAuth.{auth, echo, Router, routing, accept_side, serve}
use iroh_hyde_auth.Examples.EchoAuth.Serving.{
  other_alpn, serve_accepted, serve_stranger, serve_auth, routed, accept_side_lem,
}

-- The only handler that changes the router is that of the handshake.
handlers :
    (p : AuthProtocol) (allowed : List EndpointId) (conn_alpn : Bytes)
    → conn_alpn ≢ Wire.alpn
    → (get (routing (p, allowed)).protocols conn_alpn ≡ some echo)
      ⊎ (get (routing (p, allowed)).protocols conn_alpn ≡ none)
unfolding routing get
handlers p allowed conn_alpn other = ground (
  arith,
  get-put (put [] Wire.alpn (auth p)) Echo.alpn conn_alpn echo,
  get-put [] Wire.alpn conn_alpn (auth p),
  list_beq_iff Wire.alpn conn_alpn,
  Bool-cases (list_beq Echo.alpn conn_alpn),
)

hook_cases :
    (allowed : List EndpointId) (conn_alpn : Bytes) (id : EndpointId)
    → (after_handshake allowed conn_alpn id ≡ accept_connection)
      ⊎ (after_handshake allowed conn_alpn id ≡ reject_connection 403 (codes "not authenticated"))
unfolding after_handshake
hook_cases allowed conn_alpn id =
    ground (arith, Bool-cases (list_beq conn_alpn Wire.alpn), Bool-cases (contains allowed id))

module _ (crates : Crates) (codecs : Codecs) where
  -- The router after these connections, the first one first.
  unfoldable pub serve_all : List (Bytes × World) → Router → Router
  serve_all [] router = router
  serve_all ((conn_alpn, w) ∷ rest) router =
      serve_all rest (serve crates codecs conn_alpn router w).0

module _ (codecs : Codecs) (p : AuthProtocol) where
  -- One of them was a handshake that proved this remote.
  abbrev pub was_proved : EndpointId → List (Bytes × World) → Bool
  was_proved id [] = false
  was_proved id ((conn_alpn, w) ∷ rest) =
      (conn_alpn == Wire.alpn && is_proved (run_handshake codecs p w) id) || was_proved id rest

module _ (crates : Crates) (documented : AreDocumented crates) (codecs : Codecs)
    (p : AuthProtocol) where
  serve_other :
      (allowed : List EndpointId) (conn_alpn : Bytes) (w : World)
      → conn_alpn ≢ Wire.alpn
      → (serve crates codecs conn_alpn (routing (p, allowed)) w).0 ≡ routing (p, allowed)
  unfolding serve
  serve_other allowed conn_alpn w other =
      let r = routing (p, allowed) in
      elim (hook_cases r.allowed_remotes conn_alpn w.remote.id) [
        | inl accepted ↦ elim (handlers p allowed conn_alpn other) [
          | inl found ↦ rw (accepted, documented.routes conn_alpn (get r.protocols), found) refl
          | inr found ↦ rw (accepted, documented.routes conn_alpn (get r.protocols), found) refl
        ]
        | inr refused ↦
            rw
              (
                refused,
                documented.routes_not 403 (codes "not authenticated") conn_alpn (get r.protocols),
              )
              refl
      ]

  -- What a connection makes of the set.
  abbrev admitted_by : List EndpointId → Bytes → World → List EndpointId
  admitted_by allowed conn_alpn w =
      if conn_alpn == Wire.alpn then (accept codecs p w allowed).0 else allowed

  serve-routing :
      (allowed : List EndpointId) (conn_alpn : Bytes) (w : World)
      → (serve crates codecs conn_alpn (routing (p, allowed)) w).0
        ≡ routing (p, admitted_by allowed conn_alpn w)
  unfolding routing
  serve-routing allowed conn_alpn w = elim (Bool-cases (list_beq conn_alpn Wire.alpn)) [
    | inl same ↦
        ap (λ a. (serve crates codecs a (routing (p, allowed)) w).0)
          ((list_beq_iff conn_alpn Wire.alpn).0 same)
        ∙ serve_auth crates documented codecs (routing (p, allowed)) p w (routed p allowed).0
        ∙ rw same refl
    | inr differs ↦
        serve_other allowed conn_alpn w
          (λ e. absurd (ground (arith, e, differs, list_beq_iff conn_alpn Wire.alpn)))
        ∙ rw differs refl
  ]

  contains-admitted_by :
      (allowed : List EndpointId) (conn_alpn : Bytes) (w : World) (id : EndpointId)
      → contains (admitted_by allowed conn_alpn w) id ≡ (
          contains allowed id
          || (conn_alpn == Wire.alpn && is_proved (run_handshake codecs p w) id))
  unfolding accept
  contains-admitted_by allowed conn_alpn w id = ground (
    arith,
    contains-settle codecs (run_handshake codecs p w) allowed id,
    Bool-cases (list_beq conn_alpn Wire.alpn),
  )

  -- The set of the router after them.
  allowed_after : List (Bytes × World) → List EndpointId → List EndpointId
  allowed_after [] allowed = allowed
  allowed_after ((conn_alpn, w) ∷ rest) allowed =
      allowed_after rest (admitted_by allowed conn_alpn w)

  serve_all-routing :
      (events : List (Bytes × World)) (allowed : List EndpointId)
      → serve_all crates codecs events (routing (p, allowed))
        ≡ routing (p, allowed_after events allowed)
  unfolding serve_all allowed_after
  serve_all-routing [] allowed = refl
  serve_all-routing ((conn_alpn, w) ∷ rest) allowed =
      ap (serve_all crates codecs rest) (serve-routing allowed conn_alpn w)
      ∙ serve_all-routing rest (admitted_by allowed conn_alpn w)

  contains-allowed_after :
      (events : List (Bytes × World)) (allowed : List EndpointId) (id : EndpointId)
      → contains (allowed_after events allowed) id
        ≡ (contains allowed id || was_proved codecs p id events)
  unfolding allowed_after
  contains-allowed_after [] allowed id = ground arith
  contains-allowed_after ((conn_alpn, w) ∷ rest) allowed id = ground (
    arith,
    contains-allowed_after rest (admitted_by allowed conn_alpn w) id,
    contains-admitted_by allowed conn_alpn w id,
  )

  -- The echo protocol at such a router.
  reached :
      (allowed : List EndpointId) (w : World)
      → serve crates codecs Echo.alpn (routing (p, allowed)) w ≡ (
        routing (p, allowed),
        if contains allowed w.remote.id then (Echo.accept crates w).1 else w,
      )
  unfolding routing
  reached allowed w = elim (Bool-cases (contains allowed w.remote.id)) [
    | inl known ↦
        serve_accepted crates documented codecs Echo.alpn (routing (p, allowed)) w echo
          (routed p allowed).1 (unfold after_handshake in ground (arith, known))
        ∙ rw known refl
    | inr stranger ↦
        serve_stranger crates documented codecs Echo.alpn (routing (p, allowed)) w other_alpn
          stranger
        ∙ rw stranger refl
  ]

  reached_after :
      (events : List (Bytes × World)) (w : World)
      → let router = serve_all crates codecs events (routing (p, [])) in
        serve crates codecs Echo.alpn router w
        ≡ (router, if was_proved codecs p w.remote.id events then (Echo.accept crates w).1 else w)
  reached_after events w =
      let set = allowed_after events [] in
      let known : contains set w.remote.id ≡ was_proved codecs p w.remote.id events =
        contains-allowed_after events [] w.remote.id ∙ unfold contains in refl in
      rw (serve_all-routing events []) (
        reached set w
        ∙ ap (λ b. (routing (p, set), if b then (Echo.accept crates w).1 else w)) known)

-- After any connections at a router that `accept_side` gives, on any ALPN and from any peers, the
-- hostile ones too, a connection for the echo protocol reaches it exactly if one of them was a
-- handshake that succeeded with the same remote id; otherwise nothing happens on it. Either way the
-- router stays as it is. This is for crates that do what they document.
pub router_exact :
    (hyde : Hyde) (crates : Crates) (codecs : Codecs) (roster : Roster.Roster) (router : Router)
    (events : List (Bytes × World)) (w : World)
    → AreDocumented crates
    → accept_side crates hyde roster ≡ ok router
    → let after = serve_all crates codecs events router in
      let protocol = (incoming (as_verifier hyde (new hyde roster))).0 in
      serve crates codecs Echo.alpn after w ≡ (
        after,
        if was_proved codecs protocol w.remote.id events then (Echo.accept crates w).1 else w,
      )
unfolding incoming
router_exact hyde crates codecs roster router events w documented fresh =
    rw (accept_side_lem crates hyde roster fresh).1 (
      reached_after crates documented codecs (incoming (as_verifier hyde (new hyde roster))).0
        events w)
