-- ===== src/Session/Institution.antt =====
-- The first connection between an institution, whose initiator signs with its `HydeSigner`, and an
-- acceptor with a `HydeVerifier` over a roster: the wiring that the crate's documentation shows.
use iroh_hyde_auth.Common.{
  iff_trans, ◌≡◌, ◌≢◌, ◌↔◌, true, false, some, [], Bytes, arith, get, list_eq, nat_eq,
}
use iroh_hyde_auth.Error.{ok}
use iroh_hyde_auth.Hyde.{Hyde, SignsFor}
use iroh_hyde_auth.Net.{EndpointId, EndpointAddr, accept_dial, accept_connection}
use iroh_hyde_auth.Wire.{Codecs, alpn, transcript}
use iroh_hyde_auth.Util.{is_skewed}
use iroh_hyde_auth.Signer.{as_signer, from_parts}
use iroh_hyde_auth.Signer.Backend.{verify-sign_roster}
use iroh_hyde_auth.Verifier.{InstitutionId, as_verifier, new, or_empty}
use iroh_hyde_auth.Verifier.Roster
use iroh_hyde_auth.Incoming.{incoming, accept, after_handshake}
use iroh_hyde_auth.Incoming.Soundness.{now, next_nonce}
use iroh_hyde_auth.Outgoing.{Sender, authenticate, before_connect}
use iroh_hyde_auth.Session.{Endings, End}
use iroh_hyde_auth.Session.OneWay.{Link, IsWorking, initiating, accepting, judged}
use iroh_hyde_auth.Session.FirstDial.{dialled_once, first_dial}

-- Two endpoints, the key of the one, and the roster of the other.
pub record Parties (hyde : Hyde) : Type 0 where
  pub codecs : Codecs
  pub endings : Endings
  pub my_id : EndpointId
  pub addr : EndpointAddr
  pub ctx : hyde.HydeContext
  pub key : hyde.WrappedSigningKey
  pub roster : Roster.Roster
  pub client : End
  pub server : End

module _ (hyde : Hyde) (p : Parties hyde) where
  abbrev pub link : Link
  link = record {
    codecs = p.codecs;
    endings = p.endings;
    my_id = p.my_id;
    addr = p.addr;
    signer = as_signer hyde (from_parts hyde p.ctx p.key);
    protocol = (incoming (as_verifier hyde (new hyde p.roster))).0;
    client = p.client;
    server = p.server;
  }

  pub judged_iff :
      (signature : Bytes)
      → SignsFor hyde hyde.ml_dsa65 p.key
      → IsWorking link signature
      → ((institution : InstitutionId) × (judged link signature ≡ ok institution)) ↔ (
          (Roster.contains p.roster (hyde.verifying_key p.key) ≡ true)
          × (is_skewed (some 300) (now (accepting link)) (now (initiating link)) ≡ false))
  unfolding incoming from_parts
  judged_iff signature good works =
      let verified =
        verify-sign_roster hyde p.ctx p.key p.roster
          (transcript (next_nonce (accepting link)) p.my_id (now (initiating link))) signature good
          works.signed in
      (
        λ found. ground (arith, found, verified),
        λ h. (
          or_empty (Roster.label p.roster (hyde.verifying_key p.key)),
          ground (arith, h, verified),
        ),
      )

  -- The first connection of an institution on an application's ALPN, between two endpoints that
  -- have not met: the initiator's hook lets it out, and the acceptor's lets it in, exactly if the
  -- acceptor's roster has the institution's key and the two clocks are within 300 seconds of one
  -- another. This is for an ALPN other than that of the handshake, a key whose signatures hyde
  -- verifies, and where the networks and the pool are healthy, postcard gives the messages back,
  -- and hyde signs.
  pub institution_admitted :
      (signature : Bytes) (tx : Sender) (app : Bytes)
      → SignsFor hyde hyde.ml_dsa65 p.key
      → IsWorking link signature
      → app ≢ alpn
      → let is_trusted =
          (Roster.contains p.roster (hyde.verifying_key p.key) ≡ true)
          × (is_skewed (some 300) (now (accepting link)) (now (initiating link)) ≡ false) in
        ((before_connect app (authenticate true (get (dialled_once link tx).replies tx))
            ≡ accept_dial)
          ↔ is_trusted)
        × ((after_handshake (accept link.codecs link.protocol (accepting link) []).0 app link.my_id
              ≡ accept_connection)
            ↔ is_trusted)
  institution_admitted signature tx app good works other =
      let both = first_dial link signature tx app works other in
      let decided = judged_iff signature good works in
      (iff_trans both.0 decided, iff_trans both.1 decided)
