-- ===== src/Examples/MutualEcho.antt =====
-- examples/mutual-echo.rs: nodes that each dial and take connections of an echo protocol, behind the
-- gate of mutual.rs.
pub mod Serving
pub mod Admission
pub mod FirstCall
pub mod Outsider
pub mod Demo
use iroh_hyde_auth.Common.{
  ℕ, true, Option, none, some, String, List, [], ◌∷◌, Bytes, get, put, list_eq, nat_eq,
}
use iroh_hyde_auth.Error.{StdResult, ok, err}
use iroh_hyde_auth.Net.{EndpointId, EndpointAddr, World, BeforeConnectOutcome}
use iroh_hyde_auth.Hyde.{Hyde}
use iroh_hyde_auth.Wire.{MutualCodecs, mutual_alpn}
use iroh_hyde_auth.Signer.{InstitutionalSigner}
use iroh_hyde_auth.Verifier.{as_verifier, new}
use iroh_hyde_auth.Verifier.Roster
use iroh_hyde_auth.Outgoing.{Sender}
use iroh_hyde_auth.Mutual
use iroh_hyde_auth.Mutual.{MutualAuthProtocol, after_handshake}
use iroh_hyde_auth.Mutual.Authenticator.{
  MutualAuthTask, mutual_auth, spawn, authenticate, before_connect,
}
use iroh_hyde_auth.Mutual.Loop.{LoopState, request, joined, run}
use iroh_hyde_auth.Examples.Echo
use iroh_hyde_auth.Examples.Echo.{Crates}
use iroh_hyde_auth.Examples.Line.{Line, calling}

-- A protocol handler of the router.
pub data Handler : Type 0 where
  auth : MutualAuthProtocol → Handler
  echo : Handler

-- What `build_node` gives: the `Router` with its endpoint and its protocols, and the task behind the
-- `TaskGuard`, whose set the handler and the hook share.
pub record Node : Type 0 where
  pub id : EndpointId
  pub protocol : MutualAuthProtocol
  pub protocols : List (Bytes × Handler)
  pub state : LoopState

-- The node over what `mutual` gives, on an endpoint with this id.
unfoldable pub node_of : EndpointId → MutualAuthProtocol × MutualAuthTask → Node
node_of id (protocol, task) = record {
  id = id;
  protocol = protocol;
  protocols = put (put [] mutual_alpn (auth protocol)) Echo.alpn echo;
  state = record { running = true; task = spawn task id };
}

abbrev pub bound : Option String → Node → StdResult Node String
bound none node = ok node
bound (some e) node = err e

module _ (crates : Crates) where
  unfoldable pub build_node :
      (hyde : Hyde) → EndpointId → InstitutionalSigner → Roster.Roster → StdResult Node String
  build_node hyde id signer roster =
      bound crates.bind_error (node_of id (mutual_auth signer (as_verifier hyde (new hyde roster))))

  module _ (codecs : MutualCodecs) where
    -- What a handler of the router does with a connection.
    abbrev pub serve_with : Option Handler → Node → World → Node × World
    serve_with none n w = (n, w)
    serve_with (some echo) n w = (n, (Echo.accept crates w).1)
    serve_with (some (auth p)) n w =
        let task = n.state.task in
        let (shared, w') = Mutual.accept codecs p w task.shared in
        (record n { state = record n.state { task = record task { shared = shared } } }, w')

    -- A connection at a node, by its ALPN: the hook, and the handler that the router chooses.
    unfoldable pub serve : Bytes → Node → World → Node × World
    serve conn_alpn n w =
        serve_with
          (crates.route (after_handshake n.state.task.shared conn_alpn w.remote.id) conn_alpn
            (get n.protocols))
          n w

    -- The node when its task has been asked to dial, and a handshake that this starts has met `w`.
    abbrev pub after_dial : Node → EndpointAddr → Sender → World → Node
    after_dial n addr tx w = record n {
      state = run codecs n.id n.protocol n.state (request addr tx ∷ joined 0 w ∷ []);
    }

    -- The other node then: without a handshake it is as it was.
    abbrev pub met_in : List EndpointAddr → Node → World → Node
    met_in [] n w = n
    met_in (addr ∷ tasks) n w = (serve mutual_alpn n w).0

    abbrev pub after_met : Node → EndpointAddr → Sender → Node → World → Node
    after_met n addr tx n' w =
        met_in (run codecs n.id n.protocol n.state (request addr tx ∷ [])).task.tasks n' w

    -- What the hook of the node answers to that dial.
    abbrev pub asked_hook : Node → Sender → BeforeConnectOutcome
    asked_hook left tx =
        before_connect Echo.alpn (authenticate true (get left.state.task.replies tx))

    -- `Echo::connect` on the endpoint of a node that has dialled, to a node that has been met.
    unfoldable pub call :
        Node → Sender → Node → EndpointAddr → Line → Bytes → StdResult Bytes String
    call left tx met addr line message =
        (Echo.connect crates (asked_hook left tx)
          (after_handshake left.state.task.shared Echo.alpn addr.id) addr message
          (calling line left.id (λ w. (serve Echo.alpn met w).1) addr)).0
