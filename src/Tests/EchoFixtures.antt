-- ===== src/Tests/EchoFixtures.antt =====
-- Calls of iroh and tokio as the examples find them documented, and a line between two ends.
use iroh_hyde_auth.Common.{
  ℕ, ◌≡◌, ◌≤◌, refl, arith, true, Option, none, some, String, [], ◌++◌, Bytes, length, ltb,
  if◌then◌else◌,
}
use iroh_hyde_auth.Error.{ok, err}
use iroh_hyde_auth.Net
use iroh_hyde_auth.Net.{
  EndpointAddr, AfterHandshakeOutcome, accept_connection, reject_connection, BeforeConnectOutcome,
  accept_dial, reject_dial, World, Io, fail, arrived,
}
use iroh_hyde_auth.Net.Healthy.{IsHealthy}
use iroh_hyde_auth.Wire.Frames.{wrote, took}
use iroh_hyde_auth.Examples.Echo.{Crates, AreDocumented}
use iroh_hyde_auth.Examples.Line.{Line, IsSound}
use iroh_hyde_auth.Tests.Fixtures.{peer-IsHealthy}
use iroh_hyde_auth.Tests.SessionRuns.{end}

abbrev connect_hooked :
    BeforeConnectOutcome → AfterHandshakeOutcome → EndpointAddr → Io (Unit {0}) String
connect_hooked accept_dial accept_connection addr = Net.connect addr
connect_hooked accept_dial (reject_connection code text) addr = fail "connection rejected by hook"
connect_hooked reject_dial after addr = fail "dial rejected by hook"

abbrev read_to_end : ℕ → Io Bytes String
read_to_end limit w =
    if w.remote.ended w.sent
    then (if ltb limit (length (arrived w))
        then (err "too long", w)
        else (ok (arrived w), took (length (arrived w)) w))
    else (err "connection lost", w)

abbrev copy : Io ℕ String
copy w = elim (w.remote.write_error (w.sent ++ arrived w)) [
  | none ↦ (ok (length (arrived w)), wrote (arrived w) (took (length (arrived w)) w))
  | some e ↦ (err e, w)
]

abbrev route : {H : Type 0} → AfterHandshakeOutcome → Bytes → (Bytes → Option H) → Option H
route accept_connection conn_alpn protocols = protocols conn_alpn
route (reject_connection code text) conn_alpn protocols = none

abbrev pub crates : Crates
crates = record {
  bind_error = none;
  connect_hooked = connect_hooked;
  read_to_end = read_to_end;
  copy = copy;
  route = route;
}

reads :
    (limit : ℕ) (w : World)
    → w.remote.ended w.sent ≡ true
    → length (arrived w) ≤ limit
    → read_to_end limit w ≡ (ok (arrived w), took (length (arrived w)) w)
reads limit w over fits = ground (arith, over, fits)

copies :
    (w : World) (bytes : Bytes)
    → IsHealthy w.remote
    → w.taken ≡ 0
    → ((sent : Bytes) → w.remote.stream sent ≡ bytes)
    → copy w ≡ (ok (length bytes), wrote bytes (took (length bytes) w))
copies w bytes h untaken stream =
    let here : arrived w ≡ bytes = rw (untaken, stream w.sent) refl in
    ground (arith, here, h.writes (w.sent ++ arrived w))

pub documented : AreDocumented crates
documented = record {
  connects = λ addr w. refl;
  rejects = λ after addr w. ("dial rejected by hook", refl);
  reads = reads;
  reads_not = λ limit w open_still. ("connection lost", ground (arith, open_still));
  copies = λ w bytes h untaken stream over. copies w bytes h untaken stream;
  routes = λ conn_alpn protocols. refl;
  routes_not = λ code text conn_alpn protocols. refl;
}

abbrev pub line : Line
line = record { client = end; server = end }

pub line-IsSound : IsSound line
line-IsSound = record { healthy = peer-IsHealthy [] []; healthy' = peer-IsHealthy [] [] }
