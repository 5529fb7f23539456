-- ===== src/Examples/MutualEcho/Admission.antt =====
-- Which two nodes of examples/mutual-echo.rs reach one another's echo protocol.
use iroh_hyde_auth.Common.{
  suc, ◌≡◌, ◌⊎◌, refl, ap, ◌∙◌, arith, true, none, some, String, [], ◌∷◌, get, put, remove,
  contains, list_eq, nat_eq, list_beq, Bool-cases,
}
use iroh_hyde_auth.Error.{StdResult, ok}
use iroh_hyde_auth.Hyde.{Hyde}
use iroh_hyde_auth.Wire.{MutualCodecs, mutual_alpn}
use iroh_hyde_auth.Mutual.{accept}
use iroh_hyde_auth.Mutual.Authenticator.{mutual_auth}
use iroh_hyde_auth.Mutual.Authenticator.{spawn, handle_request}
use iroh_hyde_auth.Mutual.Loop.{request, run, step}
use iroh_hyde_auth.Util.{whole_secs, is_skewed}
use iroh_hyde_auth.Verifier.Roster
use iroh_hyde_auth.Outgoing.{Sender}
use iroh_hyde_auth.Session.{Endings}
use iroh_hyde_auth.Session.Mutual.{initiating, accepting, shared}
use iroh_hyde_auth.Session.MutualInstitution as Institution
use iroh_hyde_auth.Session.MutualInstitution.{
  Trusts, AreTimely, dialled, link, signer_of, verifier_of, mutually_admitted,
}
use iroh_hyde_auth.Examples.Echo
use iroh_hyde_auth.Examples.Echo.{Crates, AreDocumented}
use iroh_hyde_auth.Examples.MutualEcho.{
  auth, echo, bound, Node, node_of, build_node, after_dial, after_met, met_in,
}
use iroh_hyde_auth.Examples.MutualEcho.Serving.{bound_ok, serve_auth}

module _ (hyde : Hyde) (crates : Crates) where
  abbrev pub built : Institution.Node hyde → StdResult Node String
  built n = build_node crates hyde n.addr.id (signer_of hyde n) n.roster

  -- A node before anything happens at it.
  abbrev pub new_node : Institution.Node hyde → Node
  new_node n = node_of n.addr.id (mutual_auth (signer_of hyde n) (verifier_of hyde n))

  pub built_ok : (n : Institution.Node hyde) → crates.bind_error ≡ none → built n ≡ ok (new_node n)
  unfolding build_node
  built_ok n bound_now = ap (λ e. bound e (new_node n)) bound_now

  pub built_lem :
      (n : Institution.Node hyde) {a : Node}
      → built n ≡ ok a
      → (crates.bind_error ≡ none) × (a ≡ new_node n)
  unfolding build_node
  built_lem n {a = a} e = bound_ok crates.bind_error (new_node n) a e

module _ (hyde : Hyde) (codecs : MutualCodecs) (endings : Endings)
    (client server : Institution.Node hyde) where
  -- Each has the other's key in its roster, and the clocks agree.
  abbrev pub AreTrusted : Type 0
  AreTrusted =
      Trusts hyde client server
      × Trusts hyde server client
      × AreTimely hyde codecs endings client server

  pub are_trusted_cases : AreTrusted ⊎ (AreTrusted → ⊥)
  are_trusted_cases = ground (
    arith,
    Bool-cases (Roster.contains client.roster (hyde.verifying_key server.key)),
    Bool-cases (Roster.contains server.roster (hyde.verifying_key client.key)),
    Bool-cases (
        is_skewed (some 300) (whole_secs (client.end.clock client.end.ticks))
          (whole_secs (server.end.clock server.end.ticks))),
    Bool-cases (
        is_skewed (some 300) (whole_secs (server.end.clock (suc server.end.ticks)))
          (whole_secs (client.end.clock (suc client.end.ticks)))),
  )

module _ (hyde : Hyde) (crates : Crates) (codecs : MutualCodecs) (endings : Endings)
    (client server : Institution.Node hyde) where
  -- The two nodes, once the client has dialled the server on their first connection.
  abbrev pub dialling : Node → Sender → Node
  dialling a tx =
      after_dial crates codecs a server.addr tx
        (initiating (link hyde codecs endings client server))

  abbrev pub dialled_by : Node → Node → Sender → Node
  dialled_by a b tx =
      after_met crates codecs a server.addr tx b
        (accepting (link hyde codecs endings client server))

  pub left_lem :
      (tx : Sender)
      → (dialling (new_node hyde crates client) tx).state.task
        ≡ dialled hyde codecs endings client server tx
  unfolding node_of
  left_lem tx = refl

  -- The first dial starts a handshake.
  dial_starts :
      (tx : Sender)
      → (run codecs client.addr.id
          (new_node hyde crates client).protocol
          (new_node hyde crates client).state
          (request server.addr tx ∷ [])).task.tasks
        ≡ server.addr ∷ []
  unfolding node_of run step handle_request contains get spawn mutual_auth
  dial_starts tx = refl

  routed :
      (get (new_node hyde crates server).protocols mutual_alpn
        ≡ some (auth (link hyde codecs endings client server).protocol))
      × (get (new_node hyde crates server).protocols Echo.alpn ≡ some echo)
      × ((new_node hyde crates server).state.task.shared
          ≡ shared (link hyde codecs endings client server))
  unfolding node_of get put remove list_beq spawn mutual_auth
  routed = (refl, refl, refl)

  pub left_echo :
      (tx : Sender)
      → get (dialling (new_node hyde crates client) tx).protocols Echo.alpn ≡ some echo
  unfolding node_of get put remove list_beq
  left_echo tx = refl

  pub met_lem :
      AreDocumented crates
      → (tx : Sender)
      → let met = dialled_by (new_node hyde crates client) (new_node hyde crates server) tx in
        (get met.protocols Echo.alpn ≡ some echo)
        × (met.state.task.shared
            ≡ (accept codecs
                (link hyde codecs endings client server).protocol
                (accepting (link hyde codecs endings client server))
                (shared (link hyde codecs endings client server))).0)
        × (met.id ≡ server.addr.id)
        × (met.state.running ≡ true)
        × (met.state.task.tasks ≡ [])
  unfolding node_of spawn mutual_auth
  met_lem documented tx =
      let p = (link hyde codecs endings client server).protocol in
      let w = accepting (link hyde codecs endings client server) in
      let b = new_node hyde crates server in
      let meeting =
        ap (λ tasks. met_in crates codecs tasks b w) (dial_starts tx)
        ∙ ap (λ r. r.0) (serve_auth crates documented codecs p b w routed.0) in
      (
        ap (λ n. get n.protocols Echo.alpn) meeting ∙ routed.1,
        ap (λ n. n.state.task.shared) meeting ∙ ap (λ s. (accept codecs p w s).0) routed.2,
        ap (λ n. n.id) meeting,
        ap (λ n. n.state.running) meeting,
        ap (λ n. n.state.task.tasks) meeting,
      )
