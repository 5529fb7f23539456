-- ===== src/Tests/GateRuns.antt =====
-- The set of incoming.rs, and a refused initiator.
use iroh_hyde_auth.Common.{◌≡◌, refl, sym, append-nil, some, [], ◌∷◌, arith, codes, list_eq}
use mathlib.Core.List.Perm
use iroh_hyde_auth.Error.{err, unsupported_version}
use iroh_hyde_auth.Net.{World}
use iroh_hyde_auth.Wire.{close_denied}
use iroh_hyde_auth.Wire.Frames.{frame}
use iroh_hyde_auth.Verifier.{as_verifier}
use iroh_hyde_auth.Incoming.{AuthProtocol, incoming, run_handshake, accept, after_handshake}
use iroh_hyde_auth.Incoming.Gate.{after_all}
use iroh_hyde_auth.Incoming.Order.{admits, gate_exact, gate_order}
use iroh_hyde_auth.Incoming.Refusal.{other_version, acceptor_refuses}
use iroh_hyde_auth.Tests.Fixtures.{
  client_id, server_id, hyde, verifier, codecs, accepting, peer, peer-IsHealthy, world_with,
}

abbrev protocol : AuthProtocol
protocol = (incoming (as_verifier hyde verifier)).0

-- An initiator that speaks version 1.
abbrev newer : World
newer = world_with (peer server_id (frame (1 ∷ [])))

gate_exact_example :
    after_handshake
      (after_all codecs protocol (newer ∷ accepting ∷ []) [])
      (codes "echo/0")
      client_id
    ≡ admits codecs protocol (newer ∷ accepting ∷ []) (codes "echo/0") client_id
gate_exact_example = gate_exact codecs protocol (newer ∷ accepting ∷ []) (codes "echo/0") client_id

acceptor_refuses_example :
    let left = accept codecs protocol newer (client_id ∷ []) in
    ((run_handshake codecs protocol newer).0 ≡ err (unsupported_version 1))
    × (left.0 ≡ client_id ∷ [])
    × (left.1.sent ≡ [])
    × (left.1.closed ≡ some (close_denied, codes "denied"))
unfolding frame
acceptor_refuses_example =
    acceptor_refuses codecs protocol newer (client_id ∷ []) (unsupported_version 1) []
      (peer-IsHealthy server_id (frame (1 ∷ []))) refl
      (other_version (record { version = 1 }) (1 ∷ []) []
        (record { encodes = refl; decodes = refl; fits = omega arith })
        (sym (append-nil (frame (1 ∷ [])))) (λ e. absurd (omega (arith, e))) refl refl)

gate_order_example :
    after_handshake
      (after_all codecs protocol (newer ∷ accepting ∷ []) [])
      (codes "echo/0")
      client_id
    ≡ after_handshake
        (after_all codecs protocol (accepting ∷ newer ∷ []) [])
        (codes "echo/0")
        client_id
gate_order_example =
    gate_order codecs protocol (newer ∷ accepting ∷ []) (accepting ∷ newer ∷ []) [] (codes "echo/0")
      client_id (Perm.swap accepting newer [])
