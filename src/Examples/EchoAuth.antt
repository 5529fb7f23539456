-- ===== src/Examples/EchoAuth.antt =====
-- examples/echo-auth.rs: an echo protocol behind the gate of incoming.rs, with one client that
-- authenticates and one that does not.
pub mod Serving
pub mod Admission
pub mod Gate
pub mod Demo
use iroh_hyde_auth.Common.{
  true, Option, none, some, String, List, [], ◌∷◌, Bytes, codes, get, put, list_eq, nat_eq,
}
use iroh_hyde_auth.Error.{StdResult, ok, err}
use iroh_hyde_auth.Net.{
  EndpointId, EndpointAddr, accept_dial, accept_connection, World, Io, ◌>>◌, fail_if,
}
use iroh_hyde_auth.Hyde.{Hyde}
use iroh_hyde_auth.Wire
use iroh_hyde_auth.Wire.{Codecs}
use iroh_hyde_auth.Signer.{HydeSigner, as_signer}
use iroh_hyde_auth.Verifier.{as_verifier, new}
use iroh_hyde_auth.Verifier.Roster
use iroh_hyde_auth.Incoming
use iroh_hyde_auth.Incoming.{AuthProtocol, incoming, after_handshake}
use iroh_hyde_auth.Outgoing.{Sender, authenticate, before_connect}
use iroh_hyde_auth.Outgoing.Loop.{request, joined, start, run}
use iroh_hyde_auth.Examples.Echo
use iroh_hyde_auth.Examples.Echo.{Crates}

-- A protocol handler of the router.
pub data Handler : Type 0 where
  auth : AuthProtocol → Handler
  echo : Handler

-- The `Router`: the set of its hook, and its protocols.
pub record Router : Type 0 where
  pub allowed_remotes : List EndpointId
  pub protocols : List (Bytes × Handler)

-- What `main` sends.
abbrev pub greeting : Bytes
greeting = codes "hello from the clinic"

abbrev pub bound : Option String → Router → StdResult Router String
bound none router = ok router
bound (some e) router = err e

-- The router over what `incoming` gives.
unfoldable pub routing : AuthProtocol × List EndpointId → Router
routing (auth_protocol, allowed_remotes) = record {
  allowed_remotes = allowed_remotes;
  protocols = put (put [] Wire.alpn (auth auth_protocol)) Echo.alpn echo;
}

module _ (crates : Crates) where
  module _ (hyde : Hyde) where
    unfoldable pub accept_side : Roster.Roster → StdResult Router String
    accept_side roster =
        bound crates.bind_error (routing (incoming (as_verifier hyde (new hyde roster))))

    -- The hook of outgoing.rs leaves it to iroh's default to accept a connection.
    -- By the wait for the hook's one request, and what the handshake meets.
    unfoldable pub connect_with :
        Codecs → EndpointId → Sender → World → EndpointAddr → HydeSigner hyde → Io Bytes String
    connect_with codecs my_id tx authenticating remote signer =
        let events = request remote tx ∷ joined 0 authenticating ∷ [] in
        let left = run codecs my_id (start (as_signer hyde signer)) events in
        fail_if crates.bind_error
        >> Echo.connect crates
            (before_connect Echo.alpn (authenticate true (get left.task.replies tx)))
            accept_connection remote greeting

  unfoldable pub connect_no_auth : EndpointAddr → Io Bytes String
  connect_no_auth remote = do
    fail_if crates.bind_error
    Echo.connect crates accept_dial accept_connection remote greeting

  -- What a handler of the router does with a connection.
  abbrev pub serve_with : Codecs → Option Handler → Router → World → Router × World
  serve_with codecs none router w = (router, w)
  serve_with codecs (some echo) router w = (router, (Echo.accept crates w).1)
  serve_with codecs (some (auth p)) router w =
      let (allowed, w') = Incoming.accept codecs p w router.allowed_remotes in
      (record router { allowed_remotes = allowed }, w')

  -- A connection at the router, by its ALPN: the hook, and then the handler that the router chooses.
  unfoldable pub serve : Codecs → Bytes → Router → World → Router × World
  serve codecs conn_alpn router w =
      serve_with codecs
        (crates.route (after_handshake router.allowed_remotes conn_alpn w.remote.id) conn_alpn
          (get router.protocols))
        router w
