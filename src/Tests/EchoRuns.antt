-- ===== src/Tests/EchoRuns.antt =====
-- The examples: the echo protocol behind each of the two gates.
use iroh_hyde_auth.Common.{
  ◌≤◌, length, ℕ, ◌≡◌, ◌≢◌, ◌↔◌, ◌⊎◌, refl, String, [], ◌∷◌, Bytes, arith, list_beq,
  u64_to_be_bytes, list_eq, list_beq_iff,
}
use iroh_hyde_auth.Error.{ok, err}
use iroh_hyde_auth.Wire.{transcript}
use iroh_hyde_auth.Util.{whole_secs, is_skewed}
use iroh_hyde_auth.Signer.{from_parts, sign}
use iroh_hyde_auth.Incoming.{incoming}
use iroh_hyde_auth.Verifier.{as_verifier, new}
use iroh_hyde_auth.Session.OneWay.{IsWorking}
use iroh_hyde_auth.Session.Institution.{link}
use iroh_hyde_auth.Examples.Echo.{connect, accept}
use iroh_hyde_auth.Examples.EchoAuth.{Router, routing, accept_side, greeting}
use iroh_hyde_auth.Examples.EchoAuth.Admission.{response, IsTrusted, echo_admitted}
use iroh_hyde_auth.Examples.EchoAuth.Demo as Demo
use iroh_hyde_auth.Examples.EchoAuth.Demo.{Client, Demo, main_lem}
use iroh_hyde_auth.Examples.MutualEcho.Demo as MutualDemo
use iroh_hyde_auth.Examples.MutualEcho.Demo.{mutual_main_lem, ping_from_a, ping_from_b}
use iroh_hyde_auth.Examples.MutualEcho.{call, after_dial, after_met}
use iroh_hyde_auth.Examples.MutualEcho.Admission as AtNodes
use iroh_hyde_auth.Examples.MutualEcho.Admission.{AreTrusted, new_node, built_ok}
use iroh_hyde_auth.Examples.MutualEcho.FirstCall.{calls_admitted}
use iroh_hyde_auth.Net.{World, EndpointAddr, EndpointId, EndpointId}
use iroh_hyde_auth.Common.{List, if◌then◌else◌}
use iroh_hyde_auth.Examples.Echo
use iroh_hyde_auth.Wire
use iroh_hyde_auth.Examples.EchoAuth.{serve}
use iroh_hyde_auth.Examples.EchoAuth.Gate.{serve_all, was_proved, router_exact}
use iroh_hyde_auth.Tests.Fixtures.{world_with, peer}
use iroh_hyde_auth.Tests.Fixtures.{
  hyde, roster, site_signature, nonce, client_id, server_id, server_addr, codecs, hello_bytes,
  challenge_bytes, peer-IsHealthy, dialling, accepting,
}
use iroh_hyde_auth.Tests.MutualFixtures
use iroh_hyde_auth.Tests.MutualInstitutionRuns
use iroh_hyde_auth.Tests.MutualInstitutionRuns.{every_key-SignsFor}
use iroh_hyde_auth.Tests.SessionRuns.{end, endings, parties, works, site_key-SignsFor}
use iroh_hyde_auth.Tests.EchoFixtures.{crates, documented, line, line-IsSound}

abbrev router : Router
router = routing (incoming (as_verifier hyde (new hyde roster)))

built : accept_side crates hyde roster ≡ ok router
unfolding accept_side
built = refl

echo_admitted_example :
    ((response hyde crates parties router line 0 ≡ ok greeting) ↔ IsTrusted hyde parties)
    × ((response hyde crates parties router line 0 ≡ ok greeting)
        ⊎ ((e : String) × (response hyde crates parties router line 0 ≡ err e)))
echo_admitted_example =
    echo_admitted hyde crates parties router documented line site_signature 0 built
      site_key-SignsFor works line-IsSound

-- The outsider's key is `23`, and that of the hospital `22`.
abbrev caller : EndpointId → ℕ → Client MutualInstitutionRuns.hyde
caller id key = record {
  my_id = id;
  ctx = 0;
  key = key ∷ [];
  tx = 0;
  client = end;
  server = end;
  line = line;
}

abbrev demo : Demo MutualInstitutionRuns.hyde
demo = record {
  codecs = codecs;
  endings = endings;
  server_addr = server_addr;
  nobody_id = nonce;
  nobody_line = line;
  outsider = caller server_id 23;
  hospital_a = caller client_id 22;
}

abbrev signature : EndpointId → ℕ → Bytes
signature id key = key ∷ transcript nonce id 1000

abbrev assertion : EndpointId → ℕ → Bytes
assertion id key = 1000 ∷ 1 ∷ key ∷ signature id key

works_for :
    (id : EndpointId) (key : ℕ)
    → length (assertion id key) ≤ 1024
    → IsWorking
        (link MutualInstitutionRuns.hyde
          (Demo.parties MutualInstitutionRuns.hyde demo (caller id key)))
        (signature id key)
unfolding incoming from_parts sign list_beq transcript whole_secs u64_to_be_bytes
works_for id key small = record {
  hello_bytes = hello_bytes;
  challenge_bytes = challenge_bytes;
  auth_bytes = assertion id key;
  healthy = peer-IsHealthy [] [];
  healthy' = peer-IsHealthy [] [];
  joins = refl;
  hello = record { encodes = refl; decodes = refl; fits = omega arith };
  challenge = record { encodes = refl; decodes = refl; fits = omega arith };
  auth = record { encodes = refl; decodes = refl; fits = omega (arith, small) };
  signed = refl;
}

caller-IsAble :
    (id : EndpointId) (key : ℕ)
    → length (assertion id key) ≤ 1024
    → Demo.IsAble MutualInstitutionRuns.hyde demo (caller id key) (signature id key)
caller-IsAble id key small = record {
  good = every_key-SignsFor (key ∷ []);
  works = works_for id key small;
  sound = line-IsSound;
}

different : ◌≢◌ {A = Bytes} (23 ∷ []) (22 ∷ [])
unfolding list_beq
different e = absurd (ground (arith, list_beq_iff (23 ∷ []) (22 ∷ []), e))

main_lem_example :
    (o : Demo.Outcomes) × (Demo.main MutualInstitutionRuns.hyde crates demo ≡ ok o)
    × Demo.IsAsExpected o
unfolding is_skewed whole_secs transcript u64_to_be_bytes
main_lem_example =
    main_lem MutualInstitutionRuns.hyde crates demo documented
      (caller-IsAble server_id 23 (omega arith)) (caller-IsAble client_id 22 (omega arith))
      different refl refl

abbrev party : EndpointAddr → ℕ → MutualDemo.Party MutualInstitutionRuns.hyde
party addr key = record { addr = addr; ctx = 0; key = key ∷ []; end = end }

abbrev ping : MutualDemo.Call
ping = record { tx = 0; line = line; dials = dialling; met = accepting }

abbrev mutual_demo : MutualDemo.Demo MutualInstitutionRuns.hyde
mutual_demo = record {
  codecs = MutualFixtures.codecs;
  endings = endings;
  hospital_a = party (record { id = client_id; direct = [] }) 22;
  hospital_b = party (record { id = server_id; direct = [] }) 21;
  outsider = party (record { id = nonce; direct = [] }) 23;
  a_to_b = ping;
  b_to_a = ping;
  outsider_to_b = ping;
}

mutual_demo-IsAble :
    MutualDemo.IsAble MutualInstitutionRuns.hyde mutual_demo
      (22 ∷ MutualFixtures.initiator_message)
      (21 ∷ MutualFixtures.acceptor_message)
unfolding is_skewed whole_secs
mutual_demo-IsAble = record {
  good = every_key-SignsFor (22 ∷ []);
  good' = every_key-SignsFor (21 ∷ []);
  works = MutualInstitutionRuns.works;
  timely = (refl, refl);
  sound = line-IsSound;
  sound' = line-IsSound;
}

mutual_main_lem_example :
    (o : MutualDemo.Outcomes) × (MutualDemo.main MutualInstitutionRuns.hyde crates mutual_demo
      ≡ ok o)
    × MutualDemo.IsAsExpected o
mutual_main_lem_example =
    mutual_main_lem MutualInstitutionRuns.hyde crates mutual_demo documented mutual_demo-IsAble refl

calls_admitted_example :
    let client = MutualInstitutionRuns.client in
    let server = MutualInstitutionRuns.server in
    let hyde = MutualInstitutionRuns.hyde in
    let codecs = MutualFixtures.codecs in
    let a = new_node hyde crates client in
    let b = new_node hyde crates server in
    let left = AtNodes.dialling hyde crates codecs endings client server a 0 in
    let met = AtNodes.dialled_by hyde crates codecs endings client server a b 0 in
    let first = call crates codecs left 0 met server.addr line ping_from_a in
    let back =
      call crates codecs
        (after_dial crates codecs met client.addr 1 dialling)
        1
        (after_met crates codecs met client.addr 1 left accepting)
        client.addr
        line
        ping_from_b in
    ((first ≡ ok ping_from_a) ↔ AreTrusted hyde codecs endings client server)
    × (((first ≡ ok ping_from_a) × (back ≡ ok ping_from_b)) ⊎ ((e : String) × (first ≡ err e)))
calls_admitted_example =
    calls_admitted MutualInstitutionRuns.hyde crates MutualFixtures.codecs endings
      MutualInstitutionRuns.client MutualInstitutionRuns.server documented
      (21 ∷ MutualFixtures.acceptor_message) (22 ∷ MutualFixtures.initiator_message)
      (every_key-SignsFor (22 ∷ [])) (every_key-SignsFor (21 ∷ [])) MutualInstitutionRuns.works 0
      (new_node MutualInstitutionRuns.hyde crates MutualInstitutionRuns.client)
      (new_node MutualInstitutionRuns.hyde crates MutualInstitutionRuns.server) line line
      ping_from_a ping_from_b 1 dialling accepting
      (built_ok MutualInstitutionRuns.hyde crates MutualInstitutionRuns.client refl)
      (built_ok MutualInstitutionRuns.hyde crates MutualInstitutionRuns.server refl) line-IsSound
      line-IsSound (omega arith) (omega arith)

-- A router that has nothing but the echo protocol.
abbrev echoing : World → World
echoing w = (accept crates w).1

-- The client tries the echo protocol before it has authenticated, and again afterwards.
abbrev echo_world : World
echo_world = world_with (peer client_id (1 ∷ 2 ∷ 3 ∷ []))

abbrev events : List (Bytes × World)
events = (Echo.alpn, echo_world) ∷ (Wire.alpn, accepting) ∷ []

router_exact_example :
    let after = serve_all crates codecs events router in
    serve crates codecs Echo.alpn after echo_world ≡ (
      after,
      if was_proved codecs (incoming (as_verifier hyde (new hyde roster))).0 client_id events
          then (accept crates echo_world).1
          else echo_world,
    )
router_exact_example =
    router_exact hyde crates codecs roster router events echo_world documented built
