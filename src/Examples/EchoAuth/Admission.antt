-- ===== src/Examples/EchoAuth/Admission.antt =====
-- Who reaches the echo protocol of examples/echo-auth.rs.
use iroh_hyde_auth.Common.{
  ◌≡◌, ◌↔◌, ◌⊎◌, refl, ap, ◌∙◌, inl, inr, arith, true, false, none, some, String, [], Bytes, get,
  contains, list_eq, nat_eq, Bool-cases,
}
use iroh_hyde_auth.Error.{StdResult, Result, ok, err}
use iroh_hyde_auth.Hyde.{Hyde, SignsFor}
use iroh_hyde_auth.Net.{
  EndpointAddr, accept_connection, accept_dial, BeforeConnectOutcome, reject_dial, World,
  EndpointId,
}
use iroh_hyde_auth.Wire
use iroh_hyde_auth.Wire.{Codecs}
use iroh_hyde_auth.Util.{is_skewed}
use iroh_hyde_auth.Signer.{from_parts}
use iroh_hyde_auth.Verifier.{InstitutionId}
use iroh_hyde_auth.Verifier.Roster
use iroh_hyde_auth.Incoming.{incoming, accept, after_handshake}
use iroh_hyde_auth.Incoming.Soundness.{now}
use iroh_hyde_auth.Outgoing.{Sender, authenticate, before_connect}
use iroh_hyde_auth.Session.FirstDial.{dialled_once}
use iroh_hyde_auth.Session.OneWay.{
  Link, IsWorking, initiating, accepting, judged, recorded, session,
}
use iroh_hyde_auth.Session.Institution.{Parties, link, judged_iff, institution_admitted}
use iroh_hyde_auth.Examples.Echo
use iroh_hyde_auth.Examples.Echo.{Crates, AreDocumented}
use iroh_hyde_auth.Examples.Echo.Calls.{connect_rejected, not_accepted}
use iroh_hyde_auth.Examples.Line.{Line, IsSound, calling, call_echoed, call_refused}
use iroh_hyde_auth.Examples.EchoAuth.{
  echo, Router, routing, accept_side, connect_with, connect_no_auth, serve, greeting,
}
use iroh_hyde_auth.Examples.EchoAuth.Serving.{
  other_alpn, serve_accepted, serve_stranger, accept_side_lem, routed, serve_auth, unfailing,
}

recorded_none :
    (l : Link) (j : Result InstitutionId)
    → ((institution : InstitutionId) × (j ≡ ok institution) → ⊥)
    → recorded l j [] ≡ []
recorded_none l (ok institution) never = absurd (never (institution, refl))
recorded_none l (err e) never = refl

module _ (hyde : Hyde) (p : Parties hyde) where
  -- The router has the client's key in its roster, and the clocks are within 300 seconds.
  abbrev pub IsTrusted : Type 0
  IsTrusted =
      (Roster.contains p.roster (hyde.verifying_key p.key) ≡ true)
      × (is_skewed (some 300) (now (accepting (link hyde p))) (now (initiating (link hyde p)))
          ≡ false)

  is_trusted_cases : IsTrusted ⊎ (IsTrusted → ⊥)
  is_trusted_cases = ground (
    arith,
    Bool-cases (Roster.contains p.roster (hyde.verifying_key p.key)),
    Bool-cases
        (is_skewed (some 300) (now (accepting (link hyde p))) (now (initiating (link hyde p)))),
  )

module _ (hyde : Hyde) (crates : Crates) (p : Parties hyde) (router : Router) where
  -- The router, once the client's handshake is over.
  abbrev pub met : Router
  met = (serve crates p.codecs Wire.alpn router (accepting (link hyde p))).0

  -- What the client's hook answers to its first dial.
  abbrev asked_hook : Sender → BeforeConnectOutcome
  asked_hook tx =
      before_connect Echo.alpn (authenticate true (get (dialled_once (link hyde p) tx).replies tx))

  -- What `connect_with` returns at this router.
  abbrev pub response : Line → Sender → StdResult Bytes String
  response line tx =
      (connect_with crates hyde p.codecs p.my_id tx (initiating (link hyde p)) p.addr
        (from_parts hyde p.ctx p.key)
        (calling line p.my_id (λ w. (serve crates p.codecs Echo.alpn met w).1) p.addr)).0

  module _ (documented : AreDocumented crates) (line : Line) (signature : Bytes) (tx : Sender)
      (fresh : accept_side crates hyde p.roster ≡ ok router)
      (good : SignsFor hyde hyde.ml_dsa65 p.key) (works : IsWorking (link hyde p) signature) where
    met_lem :
        (get met.protocols Echo.alpn ≡ some echo)
        × (met.allowed_remotes
            ≡ (accept p.codecs (link hyde p).protocol (accepting (link hyde p)) []).0)
    unfolding incoming routing
    met_lem =
        let (bound_now, built) = accept_side_lem crates hyde p.roster fresh in
        let own = routed (link hyde p).protocol [] in
        let meeting =
          serve_auth crates documented p.codecs (routing ((link hyde p).protocol, []))
            (link hyde p).protocol (accepting (link hyde p)) own.0 in
        rw (built, meeting) (own.1, refl)

    -- A client that is not trusted leaves the router as it was.
    pub met_stranger : (IsTrusted hyde p → ⊥) → met ≡ router
    unfolding incoming routing
    met_stranger stranger =
        let (bound_now, built) = accept_side_lem crates hyde p.roster fresh in
        let own = routed (link hyde p).protocol [] in
        let meeting =
          serve_auth crates documented p.codecs (routing ((link hyde p).protocol, []))
            (link hyde p).protocol (accepting (link hyde p)) own.0 in
        let agreed = session (link hyde p) signature works [] in
        let unknown =
          recorded_none (link hyde p) (judged (link hyde p) signature)
            λ found. stranger ((judged_iff hyde p signature good works).0 found) in
        rw (built, meeting, agreed.1, unknown) refl

    -- The hooks of the two sides, on the client's own connection.
    hooks :
        ((asked_hook tx ≡ accept_dial) ↔ IsTrusted hyde p)
        × ((after_handshake met.allowed_remotes Echo.alpn p.my_id ≡ accept_connection)
            ↔ IsTrusted hyde p)
    hooks =
        let both = institution_admitted hyde p signature tx Echo.alpn good works other_alpn in
        (both.0, rw met_lem.1 both.1)

    response_lem :
        (h : BeforeConnectOutcome)
        → asked_hook tx ≡ h
        → response line tx
          ≡ (Echo.connect crates h accept_connection p.addr greeting
              (calling line p.my_id (λ w. (serve crates p.codecs Echo.alpn met w).1) p.addr)).0
    unfolding connect_with
    response_lem h e =
        let w : World =
          calling line p.my_id (λ w. (serve crates p.codecs Echo.alpn met w).1) p.addr in
        ap (λ r. r.0)
          (unfailing (accept_side_lem crates hyde p.roster fresh).0
            (Echo.connect crates (asked_hook tx) accept_connection p.addr greeting) w)
        ∙ ap (λ hook. (Echo.connect crates hook accept_connection p.addr greeting w).0) e

    pub admitted : IsTrusted hyde p → IsSound line → response line tx ≡ ok greeting
    admitted trusted sound =
        response_lem accept_dial (hooks.0.1 trusted)
        ∙ call_echoed crates documented line p.my_id
            (λ w. (serve crates p.codecs Echo.alpn met w).1) p.addr greeting sound (omega arith)
            λ w same.
              ap (λ r. r.1)
                (serve_accepted crates documented p.codecs Echo.alpn met w echo met_lem.0
                  (rw same (hooks.1.1 trusted)))

    pub refused : (IsTrusted hyde p → ⊥) → (e : String) × (response line tx ≡ err e)
    refused stranger =
        let rejected : asked_hook tx ≡ reject_dial =
          not_accepted (asked_hook tx) λ e. stranger (hooks.0.0 e) in
        rw (response_lem reject_dial rejected) (
          connect_rejected crates documented accept_connection p.addr greeting
            (calling line p.my_id (λ w. (serve crates p.codecs Echo.alpn met w).1) p.addr))

    -- `connect_with` gets its greeting back exactly if the client's key is in the roster that the
    -- router was made with and the two clocks are within 300 seconds of one another; otherwise it
    -- returns an error. This is for a router that `accept_side` gives, which the client then meets
    -- first, a key whose signatures hyde verifies, crates that do what they document, and where the
    -- networks and the pool are healthy, postcard gives the messages back, and hyde signs.
    pub echo_admitted :
        IsSound line
        → ((response line tx ≡ ok greeting) ↔ IsTrusted hyde p)
          × ((response line tx ≡ ok greeting) ⊎ ((e : String) × (response line tx ≡ err e)))
    echo_admitted sound = elim (is_trusted_cases hyde p) [
      | inl trusted ↦
          let answered = admitted trusted sound in ((λ h. trusted, λ t. answered), inl answered)
      | inr stranger ↦
          let (e, failed) = refused stranger in
          ((λ h. absurd (ground (arith, h, failed)), λ t. absurd (stranger t)), inr (e, failed))
    ]

-- `connect_no_auth` returns an error at a router whose set does not have the client's id.
pub no_auth_refused :
    (crates : Crates) (codecs : Codecs) (line : Line) (my_id : EndpointId) (addr : EndpointAddr)
    (router : Router)
    → AreDocumented crates
    → crates.bind_error ≡ none
    → contains router.allowed_remotes my_id ≡ false
    → (e : String) × ((connect_no_auth crates addr
          (calling line my_id (λ w. (serve crates codecs Echo.alpn router w).1) addr)).0
        ≡ err e)
unfolding connect_no_auth
no_auth_refused crates codecs line my_id addr router documented bound_now stranger =
    let serving : World → World = λ w. (serve crates codecs Echo.alpn router w).1 in
    let w : World = calling line my_id serving addr in
    rw
      (ap (λ r. r.0)
        (unfailing bound_now (Echo.connect crates accept_dial accept_connection addr greeting) w))
      (call_refused crates documented line my_id serving addr greeting λ w same.
        ap (λ r. r.1)
          (serve_stranger crates documented codecs Echo.alpn router w other_alpn
            (rw same stranger)))
