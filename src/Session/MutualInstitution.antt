-- ===== src/Session/MutualInstitution.antt =====
-- Two institutions with the mutual handshake, each with its key and its roster: the wiring of
-- `build_node` in the repository's example of mutual authentication.
use iroh_hyde_auth.Common.{
  suc, ◌≡◌, ◌≢◌, ◌↔◌, refl, sym, ◌∙◌, nat_eq, true, false, some, [], Bytes, arith, get, list_eq,
}
use iroh_hyde_auth.Error.{ok}
use iroh_hyde_auth.Hyde.{Hyde, SignsFor}
use iroh_hyde_auth.Net.{EndpointAddr, accept_dial, accept_connection}
use iroh_hyde_auth.Wire.{
  MutualCodecs, mutual_alpn, mutual_transcript, role_initiator, role_acceptor,
}
use iroh_hyde_auth.Util.{whole_secs, is_skewed}
use iroh_hyde_auth.Signer.{InstitutionalSigner, as_signer, from_parts}
use iroh_hyde_auth.Signer.Backend.{verify-sign_roster}
use iroh_hyde_auth.Verifier.{InstitutionId, InstitutionVerifier, as_verifier, new, or_empty}
use iroh_hyde_auth.Verifier.Roster
use iroh_hyde_auth.Incoming.Soundness.{now, next_nonce}
use iroh_hyde_auth.Mutual.{MutualAuthProtocol, accept, after_handshake, default_max_skew_secs}
use iroh_hyde_auth.Mutual.Initiator.{handshake}
use iroh_hyde_auth.Mutual.Authenticator.{MutualAuthTask, mutual_auth, authenticate, before_connect}
use iroh_hyde_auth.Outgoing.{Sender}
use iroh_hyde_auth.Session.Mutual.FirstDial.{
  dialled_once, dialled_once_lem, dial_result, let_out, let_back,
}
use iroh_hyde_auth.Mutual.Exchange.{timed}
use iroh_hyde_auth.Session.{Endings, End}
use iroh_hyde_auth.Session.Mutual.Outcome.{BothOk, told_ok, let_in}
use iroh_hyde_auth.Common.{iff_trans}
use iroh_hyde_auth.Session.Mutual.Agreement.{mutual_session}
use iroh_hyde_auth.Session.Mutual.{
  Link, IsWorking, initiating, accepting, shared, acceptor_judged, initiator_judged,
}

-- One endpoint with its institution's key and the roster of those that it trusts.
pub record Node (hyde : Hyde) : Type 0 where
  pub addr : EndpointAddr
  pub ctx : hyde.HydeContext
  pub key : hyde.WrappedSigningKey
  pub roster : Roster.Roster
  pub end : End

module _ (hyde : Hyde) where
  abbrev pub signer_of : Node hyde → InstitutionalSigner
  signer_of n = as_signer hyde (from_parts hyde n.ctx n.key)

  abbrev pub verifier_of : Node hyde → InstitutionVerifier
  verifier_of n = as_verifier hyde (new hyde n.roster)

  -- `n` trusts the key of the other.
  abbrev pub Trusts : Node hyde → Node hyde → Type 0
  Trusts n other = Roster.contains n.roster (hyde.verifying_key other.key) ≡ true

module _ (hyde : Hyde) (codecs : MutualCodecs) (endings : Endings) (client server : Node hyde) where
  -- The client dials the server, and neither has met anybody.
  abbrev pub link : Link
  link = record {
    codecs = codecs;
    endings = endings;
    my_id = client.addr.id;
    addr = server.addr;
    signer = signer_of hyde client;
    verifier = verifier_of hyde client;
    max_skew_secs = some default_max_skew_secs;
    protocol = (mutual_auth (signer_of hyde server) (verifier_of hyde server)).0;
    allowed = [];
    client = client.end;
    server = server.end;
  }

  -- The clocks agree at the two tests: the client's against the time in the challenge, and the
  -- server's, at its next reading, against the time in the response.
  abbrev pub AreTimely : Type 0
  AreTimely =
      (is_skewed (some default_max_skew_secs) (now (initiating link)) (now (accepting link))
        ≡ false)
      × (is_skewed (some default_max_skew_secs)
            (whole_secs ((accepting link).clock (suc (accepting link).ticks)))
            (now (timed (some default_max_skew_secs) (initiating link)))
          ≡ false)

  -- The client's own protocol handler, and its task when the dial of the server has ended.
  abbrev own_protocol : MutualAuthProtocol
  own_protocol = (mutual_auth (signer_of hyde client) (verifier_of hyde client)).0

  abbrev pub dialled : Sender → MutualAuthTask
  dialled tx =
      dialled_once codecs client.addr.id own_protocol (signer_of hyde client)
        (verifier_of hyde client) server.addr tx (initiating link)

  module _ (a i : Bytes) (good : SignsFor hyde hyde.ml_dsa65 client.key)
      (good' : SignsFor hyde hyde.ml_dsa65 server.key) (works : IsWorking link a i) where
    -- Who is trusted, by what each makes of the other's assertion.
    acceptor_trusted :
        ((institution : InstitutionId) × (acceptor_judged link a ≡ ok institution)) ↔ (
          Trusts hyde client server
          × (is_skewed (some default_max_skew_secs) (now (initiating link)) (now (accepting link))
              ≡ false))
    unfolding mutual_auth from_parts
    acceptor_trusted =
        let verified =
          verify-sign_roster hyde server.ctx server.key client.roster
            (mutual_transcript role_acceptor (next_nonce (initiating link)) server.addr.id
              (now (accepting link)))
            a good' works.acceptor_signed in
        (
          λ found. ground (arith, found, verified),
          λ h. (
            or_empty (Roster.label client.roster (hyde.verifying_key server.key)),
            ground (arith, h, verified),
          ),
        )

    initiator_trusted :
        ((institution : InstitutionId) × (initiator_judged link i ≡ ok institution)) ↔ (
          Trusts hyde server client
          × (is_skewed
                (some default_max_skew_secs)
                (whole_secs ((accepting link).clock (suc (accepting link).ticks)))
                (now (timed (some default_max_skew_secs) (initiating link)))
              ≡ false))
    unfolding mutual_auth from_parts
    initiator_trusted =
        let verified =
          verify-sign_roster hyde client.ctx client.key server.roster
            (mutual_transcript role_initiator (next_nonce (accepting link)) client.addr.id
              (now (timed (some default_max_skew_secs) (initiating link))))
            i good works.initiator_signed in
        (
          λ found. ground (arith, found, verified),
          λ h. (
            or_empty (Roster.label server.roster (hyde.verifying_key client.key)),
            ground (arith, h, verified),
          ),
        )

    both_told :
        ((handshake codecs link.my_id link.addr link.signer link.verifier link.max_skew_secs
            (initiating link)).0
          ≡ ok tt)
        ↔ BothOk (acceptor_judged link a) (initiator_judged link i)
    both_told =
        let agreed = (mutual_session link a i works).0 in
        let decided = told_ok link (acceptor_judged link a) (initiator_judged link i) in
        (λ h. decided.0 (sym agreed ∙ h), λ b. agreed ∙ decided.1 b)

    both_trusted :
        BothOk (acceptor_judged link a) (initiator_judged link i)
        ↔ (Trusts hyde client server × Trusts hyde server client × AreTimely)
    both_trusted = (
      λ (x, y).
          let (t, s) = acceptor_trusted.0 x in
          let (t', s') = initiator_trusted.0 y in (t, t', (s, s')),
      λ (t, t', (s, s')). (acceptor_trusted.1 (t, s), initiator_trusted.1 (t', s')),
    )

    -- The first connection between two institutions on an application's ALPN, dialled by the client:
    -- the client's hook lets the dial out, the server's hook lets the client in, and the client's
    -- hook lets the server in then, each exactly if each has the other's key in its roster
    -- and the clocks are within 300 seconds of one another at both tests. This is for two endpoints
    -- that have met nobody, an ALPN other than that of the handshake, keys whose signatures hyde
    -- verifies, and where the networks and the pools are healthy, postcard gives the messages back,
    -- and hyde signs.
    pub mutually_admitted :
        (tx : Sender) (app : Bytes)
        → app ≢ mutual_alpn
        → let both_trust = Trusts hyde client server × Trusts hyde server client × AreTimely in
          let left = dialled tx in
          ((before_connect app (authenticate true (get left.replies tx)) ≡ accept_dial)
            ↔ both_trust)
          × ((after_handshake
                  (accept codecs link.protocol (accepting link) (shared link)).0
                  app
                  link.my_id
                ≡ accept_connection)
              ↔ both_trust)
          × ((after_handshake left.shared app server.addr.id ≡ accept_connection) ↔ both_trust)
    mutually_admitted tx app other =
        let left =
          dialled_once_lem codecs client.addr.id own_protocol (signer_of hyde client)
            (verifier_of hyde client) server.addr tx (initiating link) in
        let r =
          dial_result codecs client.addr.id own_protocol (signer_of hyde client)
            (verifier_of hyde client) server.addr tx (initiating link) in
        let by_told = iff_trans both_told both_trusted in
        (
          rw left.0 (iff_trans (let_out r app other) by_told),
          iff_trans
              (let_in link refl (acceptor_judged link a) (initiator_judged link i) app other
                (accept codecs link.protocol (accepting link) (shared link)).0
                (mutual_session link a i works).1)
              both_trusted,
          rw left.1 (iff_trans (let_back client.addr.id server.addr.id r app other) by_told),
        )
