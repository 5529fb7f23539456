-- ===== src/Examples/MutualEcho/Serving.antt =====
-- What a node of examples/mutual-echo.rs does with a connection and with a call.
use iroh_hyde_auth.Common.{
  ◌≡◌, ◌≢◌, refl, ap, ◌∙◌, arith, Option, none, some, String, Bytes, get, list_eq, nat_eq,
  list_beq_iff, list_beq, ◌≤◌, length,
}
use iroh_hyde_auth.Error.{ok, err}
use iroh_hyde_auth.Net.{EndpointAddr, accept_connection, accept_dial, World}
use iroh_hyde_auth.Wire.{MutualCodecs, mutual_alpn}
use iroh_hyde_auth.Mutual.{MutualAuthProtocol, after_handshake}
use iroh_hyde_auth.Outgoing.{Sender}
use iroh_hyde_auth.Examples.Echo
use iroh_hyde_auth.Examples.Echo.{Crates, AreDocumented}
use iroh_hyde_auth.Examples.Echo.Calls.{connect_rejected, not_accepted}
use iroh_hyde_auth.Examples.Line.{Line, IsSound, calling, call_echoed}
use iroh_hyde_auth.Examples.MutualEcho.{
  Handler, auth, echo, bound, Node, serve_with, serve, asked_hook, call,
}

pub other_alpn : Echo.alpn ≢ mutual_alpn
unfolding list_beq
other_alpn e = absurd (ground (arith, list_beq_iff Echo.alpn mutual_alpn, e))

pub bound_ok : (e : Option String) (n a : Node) → bound e n ≡ ok a → (e ≡ none) × (a ≡ n)
bound_ok none n a h = (refl, ground (arith, h))
bound_ok (some x) n a h = absurd (ground (arith, h))

module _ (crates : Crates) (documented : AreDocumented crates) (codecs : MutualCodecs) where
  -- The router runs the handler of a connection's ALPN where the node's hook accepts.
  serve_accepted :
      (conn_alpn : Bytes) (n : Node) (w : World) (h : Handler)
      → get n.protocols conn_alpn ≡ some h
      → after_handshake n.state.task.shared conn_alpn w.remote.id ≡ accept_connection
      → serve crates codecs conn_alpn n w ≡ serve_with crates codecs (some h) n w
  unfolding serve
  serve_accepted conn_alpn n w h found accepted =
      rw (accepted, documented.routes conn_alpn (get n.protocols), found) refl

  -- The handshake's own connection reaches its handler, and only what is shared changes.
  pub serve_auth :
      (p : MutualAuthProtocol) (n : Node) (w : World)
      → get n.protocols mutual_alpn ≡ some (auth p)
      → serve crates codecs mutual_alpn n w ≡ serve_with crates codecs (some (auth p)) n w
  unfolding after_handshake
  serve_auth p n w found =
      serve_accepted mutual_alpn n w (auth p) found
        (ground (arith, list_beq_iff mutual_alpn mutual_alpn))

  module _ (left met : Node) (tx : Sender) (addr : EndpointAddr) (line : Line)
      (message : Bytes) where
    -- Where both hooks accept, the message comes back.
    pub call_admitted :
        IsSound line
        → length message ≤ 1000
        → get met.protocols Echo.alpn ≡ some echo
        → asked_hook crates codecs left tx ≡ accept_dial
        → after_handshake left.state.task.shared Echo.alpn addr.id ≡ accept_connection
        → after_handshake met.state.task.shared Echo.alpn left.id ≡ accept_connection
        → call crates codecs left tx met addr line message ≡ ok message
    unfolding call
    call_admitted sound fits found out out' in_ =
        let serving : World → World = λ w. (serve crates codecs Echo.alpn met w).1 in
        let out_hook = after_handshake left.state.task.shared Echo.alpn addr.id in
        let w : World = calling line left.id serving addr in
        ap (λ h. (Echo.connect crates h out_hook addr message w).0) out
        ∙ ap (λ h. (Echo.connect crates accept_dial h addr message w).0) out'
        ∙ call_echoed crates documented line left.id serving addr message sound fits
            λ w same. ap (λ r. r.1) (serve_accepted Echo.alpn met w echo found (rw same in_))

    -- Where the caller's hook does not accept, the call fails.
    pub call_rejected :
        (asked_hook crates codecs left tx ≡ accept_dial → ⊥)
        → (e : String) × (call crates codecs left tx met addr line message ≡ err e)
    unfolding call
    call_rejected never =
        let serving : World → World = λ w. (serve crates codecs Echo.alpn met w).1 in
        rw
          (ap
            (λ h.
              (Echo.connect crates h (after_handshake left.state.task.shared Echo.alpn addr.id) addr
                message (calling line left.id serving addr)).0)
            (not_accepted (asked_hook crates codecs left tx) never))
          (connect_rejected crates documented
            (after_handshake left.state.task.shared Echo.alpn addr.id) addr message
            (calling line left.id serving addr))
