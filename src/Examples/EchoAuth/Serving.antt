-- ===== src/Examples/EchoAuth/Serving.antt =====
-- What the router of examples/echo-auth.rs does with a connection.
use iroh_hyde_auth.Common.{
  ◌≡◌, ◌≢◌, refl, ap, arith, false, Option, none, some, String, [], Bytes, get, put, remove, List,
  contains, list_eq, nat_eq, list_beq_iff, list_beq, codes,
}
use iroh_hyde_auth.Error.{ok}
use iroh_hyde_auth.Hyde.{Hyde}
use iroh_hyde_auth.Net.{accept_connection, World, EndpointId, Io, ◌>>◌, fail_if}
use iroh_hyde_auth.Wire
use iroh_hyde_auth.Wire.{Codecs}
use iroh_hyde_auth.Verifier.{as_verifier, new}
use iroh_hyde_auth.Verifier.Roster
use iroh_hyde_auth.Incoming.{AuthProtocol, incoming, accept, after_handshake}
use iroh_hyde_auth.Examples.Echo
use iroh_hyde_auth.Examples.Echo.{Crates, AreDocumented}
use iroh_hyde_auth.Examples.EchoAuth.{
  Handler, auth, echo, Router, bound, routing, accept_side, serve_with, serve,
}

pub other_alpn : Echo.alpn ≢ Wire.alpn
unfolding list_beq
other_alpn e = absurd (ground (arith, list_beq_iff Echo.alpn Wire.alpn, e))

module _ (crates : Crates) (documented : AreDocumented crates) (codecs : Codecs) where
  -- The router runs the handler of a connection's ALPN where its hook accepts.
  pub serve_accepted :
      (conn_alpn : Bytes) (router : Router) (w : World) (h : Handler)
      → get router.protocols conn_alpn ≡ some h
      → after_handshake router.allowed_remotes conn_alpn w.remote.id ≡ accept_connection
      → serve crates codecs conn_alpn router w ≡ serve_with crates codecs (some h) router w
  unfolding serve
  serve_accepted conn_alpn router w h found accepted =
      rw (accepted, documented.routes conn_alpn (get router.protocols), found) refl

  -- The router does nothing with a stranger's connection, except by the handshake's ALPN.
  pub serve_stranger :
      (conn_alpn : Bytes) (router : Router) (w : World)
      → conn_alpn ≢ Wire.alpn
      → contains router.allowed_remotes w.remote.id ≡ false
      → serve crates codecs conn_alpn router w ≡ (router, w)
  unfolding serve after_handshake
  serve_stranger conn_alpn router w other stranger = ground (
    arith,
    list_beq_iff conn_alpn Wire.alpn,
    documented.routes_not {H = Handler} 403 (codes "not authenticated") conn_alpn
        (get router.protocols),
  )

bound_ok :
    (e : Option String) (router router' : Router)
    → bound e router ≡ ok router'
    → (e ≡ none) × (router' ≡ router)
bound_ok none router router' h = (refl, ground (arith, h))
bound_ok (some x) router router' h = absurd (ground (arith, h))

module _ (crates : Crates) (hyde : Hyde) (roster : Roster.Roster) {router : Router} where
  pub accept_side_lem :
      accept_side crates hyde roster ≡ ok router
      → (crates.bind_error ≡ none)
        × (router ≡ routing (incoming (as_verifier hyde (new hyde roster))))
  unfolding accept_side
  accept_side_lem e = bound_ok crates.bind_error _ router e

  pub fresh_router :
      accept_side crates hyde roster ≡ ok router
      → (crates.bind_error ≡ none) × (router.allowed_remotes ≡ [])
  unfolding incoming routing
  fresh_router e = let (bound_now, built) = accept_side_lem e in (bound_now, rw built refl)

-- The handler of each ALPN.
pub routed :
    (p : AuthProtocol) (allowed : List EndpointId)
    → (get (routing (p, allowed)).protocols Wire.alpn ≡ some (auth p))
      × (get (routing (p, allowed)).protocols Echo.alpn ≡ some echo)
unfolding routing get put remove list_beq
routed p allowed = (refl, refl)

module _ (crates : Crates) (documented : AreDocumented crates) (codecs : Codecs)
    (router : Router) where
  -- The handshake's connection reaches its handler, and only the set changes.
  pub serve_auth :
      (p : AuthProtocol) (w : World)
      → get router.protocols Wire.alpn ≡ some (auth p)
      → (serve crates codecs Wire.alpn router w).0
        ≡ record router { allowed_remotes = (accept codecs p w router.allowed_remotes).0 }
  unfolding after_handshake
  serve_auth p w found =
      ap (λ r. r.0)
        (serve_accepted crates documented codecs Wire.alpn router w (auth p) found
          (ground (arith, list_beq_iff Wire.alpn Wire.alpn)))

pub unfailing :
    {A : Type 0} {e : Option String}
    → e ≡ none
    → (m : Io A String) (w : World) → (fail_if e >> m) w ≡ m w
unfailing {e = none} h m w = refl
unfailing {e = some x} h m w = absurd (ground (arith, h))
