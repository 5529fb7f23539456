-- ===== src/Incoming/Order.antt =====
-- The set of incoming.rs, as a set: which connections have let whom in, and not in which order.
use mathlib.Core.List.{Perm, foldr}
use mathlib.Core.List.Perm
use mathlib.Core.Bool.{Bool-set}
use iroh_hyde_auth.Common.{
  ◌≡◌, refl, Bool, false, ◌||◌, List, [], ◌∷◌, Bytes, codes, arith, contains, contains-insert, ◌==◌,
  list_eq, if◌then◌else◌,
}
use iroh_hyde_auth.Error.{Result, ok, err}
use iroh_hyde_auth.Net.{
  EndpointId, AfterHandshakeOutcome, accept_connection, reject_connection, World,
}
use iroh_hyde_auth.Wire.{Codecs, alpn}
use iroh_hyde_auth.Verifier.{InstitutionId}
use iroh_hyde_auth.Incoming.{AuthProtocol, run_handshake, accept, settle, after_handshake}
use iroh_hyde_auth.Incoming.Gate.{after_all}

-- The remote that a handshake which ended so proves: that of the connection.
abbrev pub is_proved : Result InstitutionId × World → EndpointId → Bool
is_proved (ok institution, w) id = w.remote.id == id
is_proved (err e, w) id = false

pub contains-settle :
    (codecs : Codecs) (r : Result InstitutionId × World) (allowed : List EndpointId)
    (id : EndpointId)
    → contains (settle codecs r allowed).0 id ≡ (is_proved r id || contains allowed id)
contains-settle codecs (ok institution, w) allowed id = contains-insert allowed w.remote.id id
contains-settle codecs (err e, w) allowed id = refl

module _ (codecs : Codecs) (p : AuthProtocol) where
  -- This connection proves the remote, or a later one does.
  abbrev pub proves : EndpointId → World → Bool → Bool
  proves id w later = is_proved (run_handshake codecs p w) id || later

  pub contains-after_all :
      (id : EndpointId) (ws : List World) (allowed : List EndpointId)
      → contains (after_all codecs p ws allowed) id
        ≡ (contains allowed id || foldr (proves id) false ws)
  unfolding after_all accept
  contains-after_all id [] allowed = ground arith
  contains-after_all id (w ∷ ws) allowed = ground (
    arith,
    contains-after_all id ws (accept codecs p w allowed).0,
    contains-settle codecs (run_handshake codecs p w) allowed id,
  )

  -- The hook as one test, without the set: an ALPN of the handshake passes, and so does a remote
  -- that the handshake has succeeded with on some connection.
  abbrev pub admits : List World → Bytes → EndpointId → AfterHandshakeOutcome
  admits ws conn_alpn id =
      if conn_alpn == alpn || foldr (proves id) false ws
      then accept_connection
      else reject_connection 403 (codes "not authenticated")

  -- After any auth connections from an empty set, the hook answers every connection as one test over
  -- those connections does: it accepts an ALPN that is that of the handshake, and a remote id that is
  -- that of a connection on which `run_handshake` has succeeded, and rejects all else with code 403.
  pub gate_exact :
      (ws : List World) (conn_alpn : Bytes) (id : EndpointId)
      → after_handshake (after_all codecs p ws []) conn_alpn id ≡ admits ws conn_alpn id
  unfolding after_handshake contains
  gate_exact ws conn_alpn id = rw (contains-after_all id ws []) refl

  -- Whom the hook admits does not depend on the order in which the auth connections came: after the
  -- same connections in another order, and with the same set before, it answers every connection the
  -- same.
  pub gate_order :
      (ws ws' : List World) (allowed : List EndpointId) (conn_alpn : Bytes) (id : EndpointId)
      → Perm ws ws'
      → after_handshake (after_all codecs p ws allowed) conn_alpn id
        ≡ after_handshake (after_all codecs p ws' allowed) conn_alpn id
  unfolding after_handshake
  gate_order ws ws' allowed conn_alpn id reordered =
      rw
        (
          contains-after_all id ws allowed,
          contains-after_all id ws' allowed,
          Perm.foldr-eq Bool-set (proves id) (λ a b later. ground arith) reordered false,
        )
        refl
