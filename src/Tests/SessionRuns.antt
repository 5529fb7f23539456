-- ===== src/Tests/SessionRuns.antt =====
-- Both ends of one connection, in the one-way handshake, in the first dial, and in the mutual one.
use iroh_hyde_auth.Common.{
  ◌≡◌, ◌≢◌, ◌↔◌, refl, true, none, some, [], ◌∷◌, arith, codes, u64_to_be_bytes, list_eq, list_beq,
  list_beq_iff, beq_refl, false, get, put, insert, ◌^◌, ◌*◌, nat_eq,
}
use iroh_hyde_auth.Error.{ok}
use iroh_hyde_auth.Net.{other, after_epoch, accept_dial, accept_connection}
use iroh_hyde_auth.Wire.{transcript, alpn, mutual_transcript}
use iroh_hyde_auth.Util.{whole_secs, is_skewed}
use iroh_hyde_auth.Signer.{as_signer, from_parts, sign}
use iroh_hyde_auth.Hyde.{SignsFor}
use iroh_hyde_auth.Session.Institution.{Parties, link, institution_admitted}
use iroh_hyde_auth.Verifier.{verify, new}
use iroh_hyde_auth.Verifier.Roster
use iroh_hyde_auth.Incoming.{incoming, accept, after_handshake}
use iroh_hyde_auth.Incoming.Soundness.{now}
use iroh_hyde_auth.Outgoing.{authenticate, before_connect}
use iroh_hyde_auth.Outgoing.Handshake.{handshake}
use iroh_hyde_auth.Mutual
use iroh_hyde_auth.Mutual.Initiator
use iroh_hyde_auth.Session.{Endings, End}
use iroh_hyde_auth.Session.OneWay.{IsWorking, initiating, accepting, session}
use iroh_hyde_auth.Session.FirstDial.{dialled_once}
use iroh_hyde_auth.Session.Mutual as Joined
use iroh_hyde_auth.Session.Mutual.Agreement.{mutual_session}
use iroh_hyde_auth.Tests.Fixtures.{
  nonce, client_id, server_addr, peer, peer-IsHealthy, site_key, site_signature, hyde, roster,
  codecs, hello_bytes, challenge_bytes, auth_bytes,
}
use iroh_hyde_auth.Tests.MutualFixtures
use iroh_hyde_auth.Tests.MutualFixtures.{signer_of, trusting}

abbrev pub endings : Endings
endings = record { display = λ code text. "closed by peer"; never = other "timed out" }

abbrev pub end : End
end = record {
  network = peer [] [];
  rng = λ i. nonce;
  draws = 0;
  clock = λ i. after_epoch (1000 * 10 ^ 9);
  ticks = 0;
  join_error = none;
}

abbrev pub parties : Parties hyde
parties = record {
  codecs = codecs;
  endings = endings;
  my_id = client_id;
  addr = server_addr;
  ctx = 0;
  key = site_key;
  roster = roster;
  client = end;
  server = end;
}

pub works : IsWorking (link hyde parties) site_signature
unfolding incoming from_parts sign list_beq transcript whole_secs u64_to_be_bytes
works = record {
  hello_bytes = hello_bytes;
  challenge_bytes = challenge_bytes;
  auth_bytes = auth_bytes;
  healthy = peer-IsHealthy [] [];
  healthy' = peer-IsHealthy [] [];
  joins = refl;
  hello = record { encodes = refl; decodes = refl; fits = omega arith };
  challenge = record { encodes = refl; decodes = refl; fits = omega arith };
  auth = record { encodes = refl; decodes = refl; fits = omega arith };
  signed = refl;
}

session_example :
    ((handshake codecs client_id server_addr
        (as_signer hyde (from_parts hyde 0 site_key))
        (initiating (link hyde parties))).0
      ≡ ok tt)
    × ((accept codecs (link hyde parties).protocol (accepting (link hyde parties)) []).0
        ≡ insert [] client_id)
unfolding incoming whole_secs transcript u64_to_be_bytes is_skewed verify Roster.contains get new
    Roster.insert put list_beq Roster.label from_parts insert
session_example = session (link hyde parties) site_signature works []

other_alpn : codes "echo/0" ≢ alpn
unfolding list_beq
other_alpn e = absurd (ground (arith, list_beq_iff (codes "echo/0") alpn, e))

pub site_key-SignsFor : SignsFor hyde hyde.ml_dsa65 site_key
site_key-SignsFor = record {
  verifies = λ c m signature e. ground (arith, e, beq_refl m, beq_refl signature);
}

institution_admitted_example :
    let is_trusted =
      (Roster.contains roster site_key ≡ true)
      × (is_skewed
            (some 300)
            (now (accepting (link hyde parties)))
            (now (initiating (link hyde parties)))
          ≡ false) in
    ((before_connect
          (codes "echo/0")
          (authenticate true (get (dialled_once (link hyde parties) 0).replies 0))
        ≡ accept_dial)
      ↔ is_trusted)
    × ((after_handshake
            (accept codecs (link hyde parties).protocol (accepting (link hyde parties)) []).0
            (codes "echo/0")
            client_id
          ≡ accept_connection)
        ↔ is_trusted)
institution_admitted_example =
    institution_admitted hyde parties site_signature 0 (codes "echo/0") site_key-SignsFor works
      other_alpn

abbrev mutual_link : Joined.Link
mutual_link = record {
  codecs = MutualFixtures.codecs;
  endings = endings;
  my_id = client_id;
  addr = server_addr;
  signer = signer_of 22;
  verifier = trusting;
  max_skew_secs = some 300;
  protocol = MutualFixtures.protocol;
  allowed = [];
  client = end;
  server = end;
}

mutual_works :
    Joined.IsWorking mutual_link
      (21 ∷ MutualFixtures.acceptor_message)
      (22 ∷ MutualFixtures.initiator_message)
unfolding mutual_transcript whole_secs u64_to_be_bytes
mutual_works = record {
  hello_bytes = MutualFixtures.hello_bytes;
  challenge_bytes = MutualFixtures.challenge_bytes;
  response_bytes = MutualFixtures.response_bytes;
  healthy = peer-IsHealthy [] [];
  healthy' = peer-IsHealthy [] [];
  joins = refl;
  joins' = refl;
  hello = record { encodes = refl; decodes = refl; fits = omega arith };
  challenge = record { encodes = refl; decodes = refl; fits = omega arith };
  response = record { encodes = refl; decodes = refl; fits = omega arith };
  acceptor_signed = refl;
  initiator_signed = refl;
}

mutual_session_example :
    ((Mutual.Initiator.handshake MutualFixtures.codecs client_id server_addr
        (signer_of 22)
        trusting
        (some 300)
        (Joined.initiating mutual_link)).0
      ≡ ok tt)
    × ((Mutual.accept MutualFixtures.codecs MutualFixtures.protocol
          (Joined.accepting mutual_link)
          (Joined.shared mutual_link)).0.allowed
        ≡ insert [] client_id)
unfolding mutual_transcript whole_secs u64_to_be_bytes is_skewed list_beq insert
mutual_session_example =
    mutual_session mutual_link (21 ∷ MutualFixtures.acceptor_message)
      (22 ∷ MutualFixtures.initiator_message) mutual_works
