-- ===== src/Session/Mutual/FirstDial.antt =====
-- What a fresh endpoint of mutual.rs does with its first dial, by how the handshake ends.
use iroh_hyde_auth.Common.{
  ◌≡◌, ◌≢◌, ◌↔◌, refl, true, some, [], ◌∷◌, Bytes, arith, contains, contains-insert_self, get, put,
  remove, beq_refl, nat_eq, list_eq, list_beq_iff,
}
use iroh_hyde_auth.Error.{ok, err}
use iroh_hyde_auth.Net.{EndpointId, EndpointAddr, World, accept_dial, accept_connection}
use iroh_hyde_auth.Wire.{MutualCodecs, mutual_alpn}
use iroh_hyde_auth.Signer.{InstitutionalSigner}
use iroh_hyde_auth.Verifier.{InstitutionVerifier}
use iroh_hyde_auth.Outgoing.{Sender, AuthResult, send_all}
use iroh_hyde_auth.Outgoing.Loop.{take_task}
use iroh_hyde_auth.Mutual.{MutualAuthProtocol, Shared, after_handshake, default_max_skew_secs}
use iroh_hyde_auth.Mutual.Initiator.{handshake}
use iroh_hyde_auth.Mutual.Authenticator.{
  MutualAuthTask, mutual_auth, spawn, admit, handle_request, handle_completion, authenticate,
  before_connect,
}
use iroh_hyde_auth.Mutual.Loop.{request, joined, run, step}
use iroh_hyde_auth.Mutual.Loop.Drain.{spawned}

-- The shared part of an endpoint that has met nobody.
abbrev pub fresh : EndpointId → Shared
fresh my_id = record { allowed = []; local_id = some my_id }

module _ (codecs : MutualCodecs) (my_id : EndpointId) (p : MutualAuthProtocol)
    (signer : InstitutionalSigner) (verifier : InstitutionVerifier) (addr : EndpointAddr)
    (tx : Sender) (w : World) where
  -- The task, asked to dial, when its handshake has ended.
  abbrev pub dialled_once : MutualAuthTask
  dialled_once =
      (run codecs my_id p (spawned my_id signer verifier) (request addr tx ∷ joined 0 w ∷ [])).task

  abbrev pub dial_result : AuthResult
  dial_result = (handshake codecs my_id addr signer verifier (some default_max_skew_secs) w).0

  -- The request is answered with the result, and a success is entered in what is shared.
  pub dialled_once_lem :
      (get dialled_once.replies tx ≡ some dial_result)
      × (dialled_once.shared ≡ admit (fresh my_id) addr.id dial_result)
  unfolding run step spawn mutual_auth handle_request handle_completion send_all take_task contains
      get put remove
  dialled_once_lem =
      (ground (arith, beq_refl addr.id, beq_refl tx), ground (arith, beq_refl addr.id))

-- The hook lets the dial out exactly after a success.
pub let_out :
    (r : AuthResult) (app : Bytes)
    → app ≢ mutual_alpn
    → (before_connect app (authenticate true (some r)) ≡ accept_dial) ↔ (r ≡ ok tt)
unfolding before_connect authenticate
let_out (ok x) app other = (λ h. refl, λ h. ground (arith, list_beq_iff app mutual_alpn))
let_out (err e) app other =
    (λ h. absurd (ground (arith, h, list_beq_iff app mutual_alpn)), λ h. absurd (ground (arith, h)))

-- The hook lets the remote's own connections in exactly after a success.
pub let_back :
    (my_id id : EndpointId) (r : AuthResult) (app : Bytes)
    → app ≢ mutual_alpn
    → (after_handshake (admit (fresh my_id) id r) app id ≡ accept_connection) ↔ (r ≡ ok tt)
unfolding after_handshake
let_back my_id id (ok x) app other = (λ h. refl, λ h. ground (arith, contains-insert_self [] id))
let_back my_id id (err e) app other = (
  λ h. absurd (unfold contains in ground (arith, h, list_beq_iff app mutual_alpn)),
  λ h. absurd (ground (arith, h)),
)
