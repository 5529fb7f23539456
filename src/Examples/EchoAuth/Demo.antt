-- ===== src/Examples/EchoAuth/Demo.antt =====
-- `main` of examples/echo-auth.rs: three clients at one router.
use iroh_hyde_auth.Common.{
  ◌≡◌, ◌≢◌, refl, sym, ◌∙◌, arith, true, false, none, some, String, Bytes, contains, list_eq,
  nat_eq, list_beq_iff, beq_refl, ◌==◌,
}
use iroh_hyde_auth.Error.{StdResult, ok, err}
use iroh_hyde_auth.Hyde.{Hyde, SignsFor}
use iroh_hyde_auth.Net.{EndpointId, EndpointAddr}
use iroh_hyde_auth.Wire.{Codecs}
use iroh_hyde_auth.Util.{is_skewed}
use iroh_hyde_auth.Verifier.Roster
use iroh_hyde_auth.Incoming.Soundness.{now}
use iroh_hyde_auth.Outgoing.{Sender}
use iroh_hyde_auth.Session.{Endings, End}
use iroh_hyde_auth.Session.OneWay.{IsWorking, initiating, accepting}
use iroh_hyde_auth.Session.Institution.{Parties, link}
use iroh_hyde_auth.Examples.Echo
use iroh_hyde_auth.Examples.Echo.{Crates, AreDocumented}
use iroh_hyde_auth.Examples.Line.{Line, IsSound, calling}
use iroh_hyde_auth.Examples.EchoAuth.{Router, accept_side, connect_no_auth, serve, greeting}
use iroh_hyde_auth.Examples.EchoAuth.Serving.{fresh_router}
use iroh_hyde_auth.Examples.EchoAuth.Admission.{
  response, refused, admitted, met, met_stranger, IsTrusted, no_auth_refused,
}

-- A client of the demonstration: its endpoint, the key of its institution, the wait for its hook's
-- answer, the ends of the handshake's connection, and its connection for the echo protocol.
pub record Client (hyde : Hyde) : Type 0 where
  pub my_id : EndpointId
  pub ctx : hyde.HydeContext
  pub key : hyde.WrappedSigningKey
  pub tx : Sender
  pub client : End
  pub server : End
  pub line : Line

-- The surroundings of `main`: what the two calls of `HydeSigner::generate` have given, the endpoint
-- without authentication, and the server's address.
pub record Demo (hyde : Hyde) : Type 0 where
  pub codecs : Codecs
  pub endings : Endings
  pub server_addr : EndpointAddr
  pub nobody_id : EndpointId
  pub nobody_line : Line
  pub outsider : Client hyde
  pub hospital_a : Client hyde

-- What the three clients get.
pub record Outcomes : Type 0 where
  pub no_auth : StdResult Bytes String
  pub wrong_institution : StdResult Bytes String
  pub trusted_institution : StdResult Bytes String

module _ (hyde : Hyde) (d : Demo hyde) where
  abbrev pub roster : Roster.Roster
  roster = Roster.insert Roster.new (hyde.verifying_key d.hospital_a.key) "hospital-a"

  abbrev pub parties : Client hyde → Parties hyde
  parties c = record {
    codecs = d.codecs;
    endings = d.endings;
    my_id = c.my_id;
    addr = d.server_addr;
    ctx = c.ctx;
    key = c.key;
    roster = roster;
    client = c.client;
    server = c.server;
  }

module _ (hyde : Hyde) (crates : Crates) (d : Demo hyde) where
  -- The three calls, in their order, at one router. A connection for the echo protocol leaves the
  -- router as it was, and a handshake may change its set.
  unfoldable pub visits : Router → Outcomes
  visits router = record {
    no_auth =
        (connect_no_auth crates d.server_addr (
          calling d.nobody_line d.nobody_id (λ w. (serve crates d.codecs Echo.alpn router w).1)
            d.server_addr)).0;
    wrong_institution =
        response hyde crates (parties hyde d d.outsider) router d.outsider.line d.outsider.tx;
    trusted_institution =
        let router' = met hyde crates (parties hyde d d.outsider) router in
        response hyde crates (parties hyde d d.hospital_a) router' d.hospital_a.line
          d.hospital_a.tx;
  }

  abbrev visited : StdResult Router String → StdResult Outcomes String
  visited (ok router) = ok (visits router)
  visited (err e) = err e

  unfoldable pub main : StdResult Outcomes String
  main = visited (accept_side crates hyde (roster hyde d))

-- What `main` means to show.
pub record IsAsExpected (o : Outcomes) : Type 0 where
  pub no_auth : (e : String) × (o.no_auth ≡ err e)
  pub wrong_institution : (e : String) × (o.wrong_institution ≡ err e)
  pub trusted_institution : o.trusted_institution ≡ ok greeting

-- What a client meets: hyde's signatures under its key verify, and its handshake's connection
-- works.
pub record IsAble (hyde : Hyde) (d : Demo hyde) (c : Client hyde) (signature : Bytes) : Type 0 where
  pub good : SignsFor hyde hyde.ml_dsa65 c.key
  pub works : IsWorking (link hyde (parties hyde d c)) signature
  pub sound : IsSound c.line

module _ (hyde : Hyde) (d : Demo hyde) where
  outsider_untrusted :
      hyde.verifying_key d.outsider.key ≢ hyde.verifying_key d.hospital_a.key
      → IsTrusted hyde (parties hyde d d.outsider)
      → ⊥
  outsider_untrusted differ trusted =
      let own = hyde.verifying_key d.hospital_a.key in
      let other = hyde.verifying_key d.outsider.key in
      let same : (own == other) ≡ true =
        sym (Roster.contains-insert-new own other "hospital-a") ∙ trusted.0 in
      differ (sym ((list_beq_iff own other).0 same))

  hospital_a_trusted : Roster.contains (roster hyde d) (hyde.verifying_key d.hospital_a.key) ≡ true
  hospital_a_trusted =
      let own = hyde.verifying_key d.hospital_a.key in
      Roster.contains-insert-new own own "hospital-a" ∙ beq_refl own

module _ (hyde : Hyde) (crates : Crates) (d : Demo hyde) (documented : AreDocumented crates)
    {outsiders own : Bytes} (able : IsAble hyde d d.outsider outsiders)
    (able' : IsAble hyde d d.hospital_a own)
    (differ : hyde.verifying_key d.outsider.key ≢ hyde.verifying_key d.hospital_a.key)
    (timely : is_skewed
        (some 300)
        (now (accepting (link hyde (parties hyde d d.hospital_a))))
        (now (initiating (link hyde (parties hyde d d.hospital_a))))
      ≡ false) where
  visits_lem :
      (router : Router)
      → accept_side crates hyde (roster hyde d) ≡ ok router
      → IsAsExpected (visits hyde crates d router)
  unfolding visits
  visits_lem router fresh =
      let (bound_now, nobody) = fresh_router crates hyde (roster hyde d) fresh in
      let empty : contains router.allowed_remotes d.nobody_id ≡ false =
        rw nobody (unfold contains in refl) in
      let stranger = outsider_untrusted hyde d differ in
      let unmet : met hyde crates (parties hyde d d.outsider) router ≡ router =
        met_stranger hyde crates (parties hyde d d.outsider) router documented d.outsider.line
          outsiders d.outsider.tx fresh able.good able.works stranger in
      record {
        no_auth =
            no_auth_refused crates d.codecs d.nobody_line d.nobody_id d.server_addr router
              documented bound_now empty;
        wrong_institution =
            refused hyde crates (parties hyde d d.outsider) router documented d.outsider.line
              outsiders d.outsider.tx fresh able.good able.works stranger;
        trusted_institution = rw unmet (
            admitted hyde crates (parties hyde d d.hospital_a) router documented d.hospital_a.line
              own d.hospital_a.tx fresh able'.good able'.works (hospital_a_trusted hyde d, timely)
              able'.sound);
      }

  visited_lem :
      (built : StdResult Router String)
      → accept_side crates hyde (roster hyde d) ≡ built
      → crates.bind_error ≡ none
      → (o : Outcomes) × (visited hyde crates d built ≡ ok o) × IsAsExpected o
  unfolding accept_side
  visited_lem (ok router) e bound_now = (visits hyde crates d router, refl, visits_lem router e)
  visited_lem (err x) e bound_now = absurd (ground (arith, e, bound_now))

  -- `main` runs to its end: the client without authentication gets an error, the institution that
  -- is not on the roster gets an error, and the one that is gets its greeting back. This is for two
  -- institutions with different keys, clocks of the last one and the server that are within 300
  -- seconds of one another, endpoints that bind, keys whose signatures hyde verifies, crates that
  -- do what they document, and where the networks and the pool are healthy, postcard gives the
  -- messages back, and hyde signs.
  pub main_lem :
      crates.bind_error ≡ none → (o : Outcomes) × (main hyde crates d ≡ ok o) × IsAsExpected o
  unfolding main
  main_lem bound_now = visited_lem (accept_side crates hyde (roster hyde d)) refl bound_now
