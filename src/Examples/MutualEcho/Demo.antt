-- ===== src/Examples/MutualEcho/Demo.antt =====
-- `main` of examples/mutual-echo.rs: two hospitals that trust one another, and an outsider.
use iroh_hyde_auth.Common.{
  ◌⊎◌, inl, inr, ◌≡◌, refl, ap, ◌∙◌, arith, none, String, Bytes, codes, nat_eq, list_eq, beq_refl,
  true,
}
use iroh_hyde_auth.Error.{StdResult, ok, err}
use iroh_hyde_auth.Hyde.{Hyde, SignsFor}
use iroh_hyde_auth.Net.{EndpointAddr, World}
use iroh_hyde_auth.Wire.{MutualCodecs}
use iroh_hyde_auth.Verifier.Roster
use iroh_hyde_auth.Outgoing.{Sender}
use iroh_hyde_auth.Session.{Endings, End}
use iroh_hyde_auth.Session.Mutual.{IsWorking}
use iroh_hyde_auth.Session.MutualInstitution as Institution
use iroh_hyde_auth.Session.MutualInstitution.{link, AreTimely}
use iroh_hyde_auth.Examples.Echo.{Crates, AreDocumented}
use iroh_hyde_auth.Examples.Line.{Line, IsSound}
use iroh_hyde_auth.Examples.MutualEcho.{Node, call, after_dial, after_met}
use iroh_hyde_auth.Examples.MutualEcho.Admission.{
  AreTrusted, built, new_node, built_lem, built_ok, dialling, dialled_by,
}
use iroh_hyde_auth.Examples.MutualEcho.FirstCall.{calls_admitted}
use iroh_hyde_auth.Examples.MutualEcho.Outsider.{alone_refused}

-- One of the three: its endpoint, and what `HydeSigner::generate` has given.
pub record Party (hyde : Hyde) : Type 0 where
  pub addr : EndpointAddr
  pub ctx : hyde.HydeContext
  pub key : hyde.WrappedSigningKey
  pub end : End

-- One of the three calls: the wait for its hook's answer, its connection, and what the two ends of a
-- handshake meet, for a call that may start one with an endpoint that is not fresh.
pub record Call : Type 0 where
  pub tx : Sender
  pub line : Line
  pub dials : World
  pub met : World

pub record Demo (hyde : Hyde) : Type 0 where
  pub codecs : MutualCodecs
  pub endings : Endings
  pub hospital_a : Party hyde
  pub hospital_b : Party hyde
  pub outsider : Party hyde
  pub a_to_b : Call
  pub b_to_a : Call
  pub outsider_to_b : Call

-- What the three calls get.
pub record Outcomes : Type 0 where
  pub a_to_b : StdResult Bytes String
  pub b_to_a : StdResult Bytes String
  pub outsider_to_b : StdResult Bytes String

abbrev pub ping_from_a : Bytes
ping_from_a = codes "ping from A"

abbrev pub ping_from_b : Bytes
ping_from_b = codes "ping from B"

abbrev pub ping_from_c : Bytes
ping_from_c = codes "ping from C"

-- The operator `?`
abbrev and_then :
    {A B : Type 0} → StdResult A String → (A → StdResult B String) → StdResult B String
and_then (ok a) f = f a
and_then (err e) f = err e

module _ (hyde : Hyde) where
  abbrev with_roster : Party hyde → Roster.Roster → Institution.Node hyde
  with_roster party roster = record {
    addr = party.addr;
    ctx = party.ctx;
    key = party.key;
    roster = roster;
    end = party.end;
  }

  module _ (d : Demo hyde) where
    -- Each hospital trusts only the other, and the outsider no one.
    abbrev pub node_a : Institution.Node hyde
    node_a =
        with_roster d.hospital_a
          (Roster.insert Roster.new (hyde.verifying_key d.hospital_b.key) "hospital-b")

    abbrev pub node_b : Institution.Node hyde
    node_b =
        with_roster d.hospital_b
          (Roster.insert Roster.new (hyde.verifying_key d.hospital_a.key) "hospital-a")

    abbrev pub node_c : Institution.Node hyde
    node_c = with_roster d.outsider Roster.new

module _ (hyde : Hyde) (crates : Crates) (d : Demo hyde) where
  -- The ping from A to B and that from B to A, and the node of B after them.
  unfoldable pub hospital_calls :
      Node → Node → StdResult Bytes String × StdResult Bytes String × Node
  hospital_calls a b =
      let a₁ =
        dialling hyde crates d.codecs d.endings (node_a hyde d) (node_b hyde d) a d.a_to_b.tx in
      let b₁ =
        dialled_by hyde crates d.codecs d.endings (node_a hyde d) (node_b hyde d) a b d.a_to_b.tx in
      let b₂ = after_dial crates d.codecs b₁ d.hospital_a.addr d.b_to_a.tx d.b_to_a.dials in
      let a₂ = after_met crates d.codecs b₁ d.hospital_a.addr d.b_to_a.tx a₁ d.b_to_a.met in
      (
        call crates d.codecs a₁ d.a_to_b.tx b₁ d.hospital_b.addr d.a_to_b.line ping_from_a,
        call crates d.codecs b₂ d.b_to_a.tx a₂ d.hospital_a.addr d.b_to_a.line ping_from_b,
        b₂,
      )

  -- The outsider's ping to B.
  unfoldable pub outsider_call : Node → Node → StdResult Bytes String
  outsider_call b c =
      let c' =
        after_dial crates d.codecs c d.hospital_b.addr d.outsider_to_b.tx d.outsider_to_b.dials in
      let b' =
        after_met crates d.codecs c d.hospital_b.addr d.outsider_to_b.tx b d.outsider_to_b.met in
      call crates d.codecs c' d.outsider_to_b.tx b' d.hospital_b.addr d.outsider_to_b.line
        ping_from_c

  -- The outsider's node is built after the first two calls.
  abbrev visited :
      StdResult Bytes String × StdResult Bytes String × Node → StdResult Outcomes String
  visited (a_to_b, b_to_a, b) =
      and_then (built hyde crates (node_c hyde d))
        λ c. ok (record { a_to_b = a_to_b; b_to_a = b_to_a; outsider_to_b = outsider_call b c })

  unfoldable pub main : StdResult Outcomes String
  main =
      and_then (built hyde crates (node_a hyde d))
        λ a. and_then (built hyde crates (node_b hyde d)) λ b. visited (hospital_calls a b)

-- The second of two answers, where the first is no error.
back_too :
    {r r' : StdResult Bytes String} {a b : Bytes}
    → ((r ≡ ok a) × (r' ≡ ok b)) ⊎ ((e : String) × (r ≡ err e))
    → r ≡ ok a
    → r' ≡ ok b
back_too (inl both) h = both.1
back_too (inr failed) h = absurd (ground (arith, h, failed))

in_roster :
    (key : Bytes) (label : String) → Roster.contains (Roster.insert Roster.new key label) key ≡ true
in_roster key label = Roster.contains-insert-new key key label ∙ beq_refl key

-- What the calls meet: hyde's signatures verify, the first handshake works, and so do the lines.
pub record IsAble (hyde : Hyde) (d : Demo hyde) (a b : Bytes) : Type 0 where
  pub good : SignsFor hyde hyde.ml_dsa65 d.hospital_a.key
  pub good' : SignsFor hyde hyde.ml_dsa65 d.hospital_b.key
  pub works : IsWorking (link hyde d.codecs d.endings (node_a hyde d) (node_b hyde d)) b a
  pub timely : AreTimely hyde d.codecs d.endings (node_a hyde d) (node_b hyde d)
  pub sound : IsSound d.a_to_b.line
  pub sound' : IsSound d.b_to_a.line

-- What `main` means to show.
pub record IsAsExpected (o : Outcomes) : Type 0 where
  pub a_to_b : o.a_to_b ≡ ok ping_from_a
  pub b_to_a : o.b_to_a ≡ ok ping_from_b
  pub outsider_to_b : (e : String) × (o.outsider_to_b ≡ err e)

module _ (hyde : Hyde) (crates : Crates) (d : Demo hyde) {own others : Bytes}
    (documented : AreDocumented crates) (able : IsAble hyde d own others) where
  refused_by :
      (met : Node)
      → (e : String) × (call crates d.codecs
            (after_dial crates d.codecs
              (new_node hyde crates (node_c hyde d))
              d.hospital_b.addr
              d.outsider_to_b.tx
              d.outsider_to_b.dials)
            d.outsider_to_b.tx
            met
            d.hospital_b.addr
            d.outsider_to_b.line
            ping_from_c
          ≡ err e)
  refused_by met =
      alone_refused hyde crates d.codecs (node_c hyde d) refl d.hospital_b.addr d.outsider_to_b.tx
        d.outsider_to_b.dials documented met d.outsider_to_b.line ping_from_c

  -- What the three calls get from nodes that are freshly built.
  abbrev outcomes : Node → Node → Node → Outcomes
  outcomes a b c =
      let pinged = hospital_calls hyde crates d a b in
      record {
        a_to_b = pinged.0;
        b_to_a = pinged.1;
        outsider_to_b = outsider_call hyde crates d pinged.2 c;
      }

  outcomes-IsAsExpected :
      (a b c : Node)
      → built hyde crates (node_a hyde d) ≡ ok a
      → built hyde crates (node_b hyde d) ≡ ok b
      → built hyde crates (node_c hyde d) ≡ ok c
      → IsAsExpected (outcomes a b c)
  unfolding hospital_calls outsider_call
  outcomes-IsAsExpected a b c fresh fresh' fresh'' =
      let pinged =
        calls_admitted hyde crates d.codecs d.endings (node_a hyde d) (node_b hyde d) documented
          others own able.good able.good' able.works d.a_to_b.tx a b d.a_to_b.line d.b_to_a.line
          ping_from_a ping_from_b d.b_to_a.tx d.b_to_a.dials d.b_to_a.met fresh fresh' able.sound
          able.sound' (omega arith) (omega arith) in
      let trust : AreTrusted hyde d.codecs d.endings (node_a hyde d) (node_b hyde d) = (
        in_roster (hyde.verifying_key d.hospital_b.key) "hospital-b",
        in_roster (hyde.verifying_key d.hospital_a.key) "hospital-a",
        able.timely,
      ) in
      record {
        a_to_b = pinged.0.1 trust;
        b_to_a = back_too pinged.1 (pinged.0.1 trust);
        outsider_to_b = rw (built_lem hyde crates (node_c hyde d) fresh'').1 (refused_by _);
      }

  -- `main` runs to its end: the ping from A to B comes back, so does the ping from B to A, and the
  -- outsider's call gets an error. This is for clocks of the two hospitals that are within 300
  -- seconds of one another at both tests of their one handshake, endpoints that bind, keys whose
  -- signatures hyde verifies, crates that do what they document, and where the two hospitals'
  -- networks and pools are healthy, postcard gives the messages back, and hyde signs. Nothing is
  -- said of what a handshake of B to A or of the outsider would meet.
  pub mutual_main_lem :
      crates.bind_error ≡ none → (o : Outcomes) × (main hyde crates d ≡ ok o) × IsAsExpected o
  unfolding main
  mutual_main_lem bound_now =
      let a = new_node hyde crates (node_a hyde d) in
      let b = new_node hyde crates (node_b hyde d) in
      let c = new_node hyde crates (node_c hyde d) in
      let fresh = built_ok hyde crates (node_a hyde d) bound_now in
      let fresh' = built_ok hyde crates (node_b hyde d) bound_now in
      let fresh'' = built_ok hyde crates (node_c hyde d) bound_now in
      (
        outcomes a b c,
        ap
              (λ r. and_then r λ a.
                and_then (built hyde crates (node_b hyde d))
                  λ b. visited hyde crates d (hospital_calls hyde crates d a b))
              fresh
            ∙ ap (λ r. and_then r λ b. visited hyde crates d (hospital_calls hyde crates d a b))
                fresh'
            ∙ ap (λ r. and_then r λ c. ok (outcomes a b c)) fresh'',
        outcomes-IsAsExpected a b c fresh fresh' fresh'',
      )
