-- ===== src/Examples/MutualEcho/FirstCall.antt =====
-- The first call between two nodes of examples/mutual-echo.rs, and a call back.
use iroh_hyde_auth.Common.{
  ◌≡◌, ◌↔◌, ◌⊎◌, ◌≤◌, ap, ◌∙◌, inl, inr, arith, true, String, [], ◌∷◌, Bytes, get, contains, length,
  list_eq, nat_eq, list_beq, list_beq_iff, beq_refl,
}
use iroh_hyde_auth.Error.{StdResult, ok, err}
use iroh_hyde_auth.Hyde.{Hyde, SignsFor}
use iroh_hyde_auth.Net.{EndpointId, EndpointAddr, accept_connection, accept_dial, World}
use iroh_hyde_auth.Wire.{MutualCodecs, mutual_alpn}
use iroh_hyde_auth.Outgoing.{Sender}
use iroh_hyde_auth.Mutual.{Shared, after_handshake}
use iroh_hyde_auth.Mutual.Authenticator.{handle_request, authenticate, before_connect}
use iroh_hyde_auth.Mutual.Loop.{request, run, step}
use iroh_hyde_auth.Outgoing.Loop.{take_task}
use iroh_hyde_auth.Session.{Endings}
use iroh_hyde_auth.Session.Mutual.{IsWorking}
use iroh_hyde_auth.Session.MutualInstitution as Institution
use iroh_hyde_auth.Session.MutualInstitution.{link, mutually_admitted}
use iroh_hyde_auth.Examples.Echo
use iroh_hyde_auth.Examples.Echo.{Crates, AreDocumented}
use iroh_hyde_auth.Examples.Line.{Line, IsSound}
use iroh_hyde_auth.Examples.MutualEcho.{
  Node, node_of, asked_hook, call, after_dial, after_met, met_in,
}
use iroh_hyde_auth.Examples.MutualEcho.Serving.{other_alpn, call_admitted, call_rejected}
use iroh_hyde_auth.Examples.MutualEcho.Admission.{
  AreTrusted, are_trusted_cases, built, new_node, built_lem, dialling, dialled_by, left_lem,
  left_echo, met_lem,
}

known :
    (s : Shared) (id : EndpointId)
    → after_handshake s Echo.alpn id ≡ accept_connection
    → contains s.allowed id ≡ true
unfolding after_handshake
known s id h = ground (arith, h, list_beq_iff Echo.alpn mutual_alpn, other_alpn)

-- A dial to a node that is known: no handshake, and the hook accepts at once.
module _ (crates : Crates) (codecs : MutualCodecs) (n : Node) (addr : EndpointAddr) (tx : Sender)
    (running : n.state.running ≡ true)
    (met_before : contains n.state.task.shared.allowed addr.id ≡ true) where
  dial_known_tasks :
      (run codecs n.id n.protocol n.state (request addr tx ∷ [])).task.tasks ≡ n.state.task.tasks
  unfolding run step handle_request
  dial_known_tasks = ground (arith, running, met_before)

  dial_known :
      (w : World)
      → n.state.task.tasks ≡ []
      → (asked_hook crates codecs (after_dial crates codecs n addr tx w) tx ≡ accept_dial)
        × ((after_dial crates codecs n addr tx w).state.task.shared ≡ n.state.task.shared)
  unfolding run step handle_request before_connect authenticate get take_task list_beq
  dial_known w idle = ground (arith, running, met_before, idle, beq_refl tx)

module _ (hyde : Hyde) (crates : Crates) (codecs : MutualCodecs) (endings : Endings)
    (client server : Institution.Node hyde) (documented : AreDocumented crates) (i j : Bytes)
    (good : SignsFor hyde hyde.ml_dsa65 client.key) (good' : SignsFor hyde hyde.ml_dsa65 server.key)
    (works : IsWorking (link hyde codecs endings client server) i j) (tx : Sender) where
  abbrev left : Node
  left = dialling hyde crates codecs endings client server (new_node hyde crates client) tx

  abbrev met : Node
  met =
      dialled_by hyde crates codecs endings client server (new_node hyde crates client)
        (new_node hyde crates server) tx

  abbrev BothTrust : Type 0
  BothTrust = AreTrusted hyde codecs endings client server

  -- The hooks of the two nodes: for the call, and for one back.
  hooks :
      ((asked_hook crates codecs left tx ≡ accept_dial) ↔ BothTrust)
      × ((after_handshake met.state.task.shared Echo.alpn client.addr.id ≡ accept_connection)
          ↔ BothTrust)
      × ((after_handshake left.state.task.shared Echo.alpn server.addr.id ≡ accept_connection)
          ↔ BothTrust)
  hooks =
      let decided =
        mutually_admitted hyde codecs endings client server i j good good' works tx Echo.alpn
          other_alpn in
      (
        rw (left_lem hyde crates codecs endings client server tx) decided.0,
        rw (met_lem hyde crates codecs endings client server documented tx).1 decided.1,
        rw (left_lem hyde crates codecs endings client server tx) decided.2,
      )

  abbrev answer : Line → Bytes → StdResult Bytes String
  answer line message = call crates codecs left tx met server.addr line message

  answered :
      (line : Line) (message : Bytes)
      → IsSound line
      → length message ≤ 1000
      → BothTrust
      → answer line message ≡ ok message
  unfolding node_of
  answered line message sound fits trust =
      call_admitted crates documented codecs left met tx server.addr line message sound fits
        (met_lem hyde crates codecs endings client server documented tx).0 (hooks.0.1 trust)
        (hooks.2.1 trust) (hooks.1.1 trust)

  unanswered :
      (line : Line) (message : Bytes)
      → (BothTrust → ⊥)
      → (e : String) × (answer line message ≡ err e)
  unanswered line message strangers =
      call_rejected crates documented codecs left met tx server.addr line message
        λ out. strangers (hooks.0.0 out)

  -- The server's own call then, which starts no handshake.
  answered_back :
      (line : Line) (message : Bytes) (tx' : Sender) (w w' : World)
      → IsSound line
      → length message ≤ 1000
      → BothTrust
      → call crates codecs
          (after_dial crates codecs met client.addr tx' w)
          tx'
          (after_met crates codecs met client.addr tx' left w')
          client.addr
          line
          message
        ≡ ok message
  answered_back line message tx' w w' sound fits trust =
      let facts = met_lem hyde crates codecs endings client server documented tx in
      let before = known met.state.task.shared client.addr.id (hooks.1.1 trust) in
      let again = dial_known crates codecs met client.addr tx' facts.3 before w facts.4 in
      let unmet : after_met crates codecs met client.addr tx' left w' ≡ left =
        ap (λ tasks. met_in crates codecs tasks left w')
          (dial_known_tasks crates codecs met client.addr tx' facts.3 before ∙ facts.4) in
      rw unmet (
        call_admitted crates documented codecs (after_dial crates codecs met client.addr tx' w) left
          tx' client.addr line message sound fits
          (left_echo hyde crates codecs endings client server tx) again.0
          (rw again.1 (hooks.1.1 trust)) (rw facts.2 (hooks.2.1 trust)))

  -- The first call between two nodes that `build_node` gives returns its message exactly if each
  -- has the other's key in its roster and the clocks are within 300 seconds of one another at both
  -- tests, and an error otherwise. In the first case a call back then returns its own message too,
  -- whatever a handshake would meet. This is for messages of at most 1000 bytes, keys whose
  -- signatures hyde verifies, crates that do what they document, and where the networks and the
  -- pools are healthy, postcard gives the messages back, and hyde signs.
  pub calls_admitted :
      (a b : Node) (line line' : Line) (message message' : Bytes) (tx' : Sender) (w w' : World)
      → built hyde crates client ≡ ok a
      → built hyde crates server ≡ ok b
      → IsSound line
      → IsSound line'
      → length message ≤ 1000
      → length message' ≤ 1000
      → let left = dialling hyde crates codecs endings client server a tx in
        let met = dialled_by hyde crates codecs endings client server a b tx in
        let first = call crates codecs left tx met server.addr line message in
        let back =
          call crates codecs
            (after_dial crates codecs met client.addr tx' w)
            tx'
            (after_met crates codecs met client.addr tx' left w')
            client.addr
            line'
            message' in
        ((first ≡ ok message) ↔ AreTrusted hyde codecs endings client server)
        × (((first ≡ ok message) × (back ≡ ok message')) ⊎ ((e : String) × (first ≡ err e)))
  calls_admitted a b line line' message message' tx' w w' fresh fresh' sound sound' fits fits' =
      rw ((built_lem hyde crates client fresh).1, (built_lem hyde crates server fresh').1)
        (elim (are_trusted_cases hyde codecs endings client server) [
          | inl trust ↦ (
            (λ h. trust, λ t. answered line message sound fits t),
            inl (
              answered line message sound fits trust,
              answered_back line' message' tx' w w' sound' fits' trust,
            ),
          )
          | inr strangers ↦
              let (e, failed) = unanswered line message strangers in
              (
                (λ h. absurd (ground (arith, h, failed)), λ t. absurd (strangers t)),
                inr (e, failed),
              )
        ])
