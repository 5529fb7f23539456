-- ===== src/Mutual/Loop/Gate.antt =====
-- Whom the hook of mutual.rs admits, over the life of an endpoint.
use iroh_hyde_auth.Common.{◌≡◌, ◌≢◌, refl, List, Bytes, arith, contains, list_eq, list_beq_iff}
use iroh_hyde_auth.Net.{EndpointId, accept_connection}
use iroh_hyde_auth.Wire.{MutualCodecs, mutual_alpn}
use iroh_hyde_auth.Verifier.{InstitutionVerifier}
use iroh_hyde_auth.Signer.{InstitutionalSigner}
use iroh_hyde_auth.Mutual.{MutualAuthProtocol, after_handshake}
use iroh_hyde_auth.Mutual.Authenticator.{mutual_auth, spawn}
use iroh_hyde_auth.Mutual.Loop.{Event, LoopState, run}
use iroh_hyde_auth.Mutual.Loop.Drain.{spawned}
use iroh_hyde_auth.Mutual.Loop.Met.{Met, IsTrusted, run-IsTrusted}

module _ (codecs : MutualCodecs) (my_id : EndpointId) (signer : InstitutionalSigner)
    (verifier : InstitutionVerifier) (p : MutualAuthProtocol) where
  -- The endpoint after these events, from the spawn of the task.
  abbrev pub endpoint_after : List Event → LoopState
  endpoint_after events = run codecs my_id p (spawned my_id signer verifier) events

  started :
      (Known : EndpointId → Type 0)
      → IsTrusted codecs my_id signer verifier p Known (spawned my_id signer verifier).task
  unfolding spawn mutual_auth
  started Known = record {
    signs = refl;
    verifies = refl;
    tolerates = refl;
    met = (refl, λ id h. absurd (unfold contains in ground (arith, h)));
  }

  -- After any events from the spawn of the task, requests, finished dials and incoming connections
  -- in any order, the hook admits a connection on another ALPN than that of the handshake only from
  -- an endpoint id that was met at one of those events: either it dialled in, with what was shared
  -- at that time the acceptor's handshake succeeded with its id, and the exchange was complete, or
  -- the running loop took a task that dialled it, the initiator's handshake succeeded in the world
  -- of that event, and the exchange was complete.
  pub mutual_gate :
      (events : List Event) (conn_alpn : Bytes) (id : EndpointId)
      → conn_alpn ≢ mutual_alpn
      → after_handshake (endpoint_after events).task.shared conn_alpn id ≡ accept_connection
      → Met codecs my_id signer verifier p id (spawned my_id signer verifier) events
  unfolding after_handshake
  mutual_gate events conn_alpn id other h =
      (run-IsTrusted codecs my_id signer verifier p
          (λ j. Met codecs my_id signer verifier p j (spawned my_id signer verifier) events)
          (spawned my_id signer verifier) events (λ j met. met)
          (started
            λ j. Met codecs my_id signer verifier p j (spawned my_id signer verifier) events)).met.1
        id (ground (arith, h, list_beq_iff conn_alpn mutual_alpn))
