-- ===== src/Examples/Echo.antt =====
-- `mod echo` of examples/echo-auth.rs, which examples/mutual-echo.rs has too: a protocol that knows
-- nothing of authentication.
pub mod Calls
use iroh_hyde_auth.Common.{
  ℕ, ◌≤◌, ◌<◌, ◌≡◌, refl, arith, true, false, Option, none, String, [], ◌++◌, Bytes, codes, length,
}
use iroh_hyde_auth.Error.{StdResult, ok, err}
use iroh_hyde_auth.Net
use iroh_hyde_auth.Net.{
  EndpointAddr, AfterHandshakeOutcome, accept_connection, reject_connection, BeforeConnectOutcome,
  accept_dial, reject_dial, World, Io, ◌>>=◌, ◌>>◌, pure, open_stream, write_all, finish, close,
  closed_reason, arrived, dialled,
}
use iroh_hyde_auth.Net.Healthy.{IsHealthy}
use iroh_hyde_auth.Net.Inversion.{bind_ok}
use iroh_hyde_auth.Wire.Frames.{wrote, took, ended, write_all_lem, write_all_done}

abbrev pub alpn : Bytes
alpn = codes "iroh-hyde-auth-example/echo/0"

-- The calls of iroh and tokio that only the examples make: the binding of an endpoint,
-- `Endpoint::connect` by the two answers of the endpoint's hook, `RecvStream::read_to_end` with its limit,
-- `tokio::io::copy` from one half of the stream to the other, and the choice that a `Router` makes
-- for a connection, by what the hook answers and the connection's ALPN, among its handlers.
pub record Crates : Type 1 where
  pub bind_error : Option String
  pub connect_hooked :
      BeforeConnectOutcome → AfterHandshakeOutcome → EndpointAddr → Io (Unit {0}) String
  pub read_to_end : ℕ → Io Bytes String
  pub copy : Io ℕ String
  pub route : {H : Type 0} → AfterHandshakeOutcome → Bytes → (Bytes → Option H) → Option H

-- What the crates document of them. A dial that the hook rejects is an error, and one that it accepts, with the
-- connection, goes out.
-- `read_to_end` gives what the peer wrote before it finished, if that is within the limit, and fails
-- on more than that, or if the peer does not finish. `copy` writes back all that a peer writes who does not wait for it.
-- A connection that the hook rejects reaches no handler.
pub record AreDocumented (crates : Crates) : Type 1 where
  pub connects :
      (addr : EndpointAddr) (w : World)
      → crates.connect_hooked accept_dial accept_connection addr w ≡ Net.connect addr w
  pub rejects :
      (after : AfterHandshakeOutcome) (addr : EndpointAddr) (w : World)
      → (e : String) × (crates.connect_hooked reject_dial after addr w ≡ (err e, w))
  pub reads :
      (limit : ℕ) (w : World)
      → w.remote.ended w.sent ≡ true
      → length (arrived w) ≤ limit
      → crates.read_to_end limit w ≡ (ok (arrived w), took (length (arrived w)) w)
  pub reads_not :
      (limit : ℕ) (w : World)
      → w.remote.ended w.sent ≡ false
      → (e : String) × ((crates.read_to_end limit w).0 ≡ err e)
  pub copies :
      (w : World) (bytes : Bytes)
      → IsHealthy w.remote
      → w.taken ≡ 0
      → ((sent : Bytes) → w.remote.stream sent ≡ bytes)
      → ((sent : Bytes) → w.remote.ended sent ≡ true)
      → crates.copy w ≡ (ok (length bytes), wrote bytes (took (length bytes) w))
  pub routes :
      {H : Type 0} (conn_alpn : Bytes) (protocols : Bytes → Option H)
      → crates.route accept_connection conn_alpn protocols ≡ protocols conn_alpn
  pub routes_not :
      {H : Type 0} (code : ℕ) (text conn_alpn : Bytes) (protocols : Bytes → Option H)
      → crates.route (reject_connection code text) conn_alpn protocols ≡ none

module _ (crates : Crates) where
  -- `Echo::connect`, on an endpoint whose hook answers so before the dial and after the connection's
  -- TLS handshake
  unfoldable pub connect :
      BeforeConnectOutcome → AfterHandshakeOutcome → EndpointAddr → Bytes → Io Bytes String
  connect before after remote message = do
    crates.connect_hooked before after remote
    open_stream
    write_all message
    finish
    response ← crates.read_to_end 1000
    close 0 (codes "bye")
    pure response

  -- `Echo::accept`
  unfoldable pub accept : Io (Unit {0}) String
  accept = do open_stream; crates.copy; finish; closed_reason; pure tt
