-- ===== src/Tests/MutualRefusalRuns.antt =====
-- An acceptor of the mutual handshake that refuses.
use iroh_hyde_auth.Common.{
  ◌≡◌, refl, some, [], ◌∷◌, ◌++◌, arith, codes, u64_to_be_bytes, nat_eq, list_eq, list_beq,
}
use iroh_hyde_auth.Error.{err, denied}
use iroh_hyde_auth.Wire.{mutual_transcript, close_denied}
use iroh_hyde_auth.Wire.Frames.{frame}
use iroh_hyde_auth.Util.{whole_secs, is_skewed}
use iroh_hyde_auth.Verifier
use iroh_hyde_auth.Verifier.{untrusted_key}
use iroh_hyde_auth.Mutual.{MutualAuthProtocol, accept, accept_handshake}
use iroh_hyde_auth.Mutual.AcceptorRefusal.{misjudged, mutual_acceptor_refuses}
use iroh_hyde_auth.Tests.Fixtures.{client_id, server_id, peer-IsHealthy}
use iroh_hyde_auth.Tests.MutualFixtures.{
  codecs, distrusting, protocol, shared, acceptor_message, hello_bytes, challenge_bytes,
  response_bytes, hello, response, accepting,
}

abbrev strict : MutualAuthProtocol
strict = record protocol { verifier = distrusting }

mutual_acceptor_refuses_example :
    let left = accept codecs strict accepting shared in
    ((accept_handshake codecs strict shared accepting).0
      ≡ err (denied (Verifier.to_string untrusted_key)))
    × (left.0 ≡ shared)
    × (left.1.sent ≡ frame challenge_bytes)
    × (left.1.closed ≡ some (close_denied, codes "denied"))
unfolding frame mutual_transcript whole_secs u64_to_be_bytes is_skewed list_beq
mutual_acceptor_refuses_example =
    mutual_acceptor_refuses codecs strict shared accepting
      (denied (Verifier.to_string untrusted_key)) (frame challenge_bytes)
      (peer-IsHealthy client_id (frame hello_bytes ++ frame response_bytes)) refl refl
      (misjudged server_id hello response (21 ∷ acceptor_message) hello_bytes challenge_bytes
        response_bytes (frame response_bytes) [] refl
        (record { encodes = refl; decodes = refl; fits = omega arith })
        (record { encodes = refl; decodes = refl; fits = omega arith })
        (record { encodes = refl; decodes = refl; fits = omega arith }) refl refl refl refl refl
        refl)
