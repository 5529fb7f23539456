-- ===== src/Mutual.antt =====
-- mutual.rs: both peers prove themselves and verify the other in one exchange. This module has the
-- acceptor's handler and the gate; `Mutual.Initiator` dials.
pub mod Initiator
pub mod Authenticator
pub mod Acceptor
pub mod Dialer
pub mod Completeness
pub mod Loop
pub mod Binding
pub mod Exchange
pub mod Refusal
pub mod AcceptorRefusal
pub mod Judgement
use iroh_hyde_auth.Common.{
  ℕ, Bool, true, false, not, ◌||◌, Option, none, some, List, [], String, Bytes, codes, contains,
  insert, ◌==◌, nat_eq, list_eq, if◌then◌else◌,
}
use iroh_hyde_auth.Error.{
  StdResult, ok, err, Error, Result, map_err, transport, unsupported_version, clock_skew, denied,
  signer_failed,
}
use iroh_hyde_auth.Net.{
  EndpointId, AfterHandshakeOutcome, accept_connection, reject_connection, World, Io, ◌>>=◌, ◌>>◌,
  lift, pure, fail, await_map_err, open_stream, random, close,
}
use iroh_hyde_auth.Wire.{
  MutualCodecs, mutual_alpn, protocol_version, max_msg, close_accepted, close_denied,
  role_initiator, role_acceptor, mutual_transcript, read_msg, write_msg,
}
use iroh_hyde_auth.Util.{unix_secs, is_skewed_now}
use iroh_hyde_auth.Verifier
use iroh_hyde_auth.Verifier.{InstitutionId, InstitutionVerifier}
use iroh_hyde_auth.Signer.{InstitutionalSigner, sign_blocking}

abbrev pub default_max_skew_secs : ℕ
default_max_skew_secs = 300

-- `Shared`: the authenticated peers, and this endpoint's own id once the task is spawned.
pub record Shared : Type 0 where
  pub allowed : List EndpointId
  pub local_id : Option EndpointId

abbrev pub empty_shared : Shared
empty_shared = record { allowed = []; local_id = none }

-- `MutualAuthProtocol`, less the shared part
pub record MutualAuthProtocol : Type 0 where
  pub signer : InstitutionalSigner
  pub verifier : InstitutionVerifier
  pub max_skew_secs : Option ℕ

unfoldable pub with_max_skew : MutualAuthProtocol → Option ℕ → MutualAuthProtocol
with_max_skew p secs = record p { max_skew_secs = secs }

-- `MutualAuthHook::after_handshake`
unfoldable pub after_handshake : Shared → Bytes → EndpointId → AfterHandshakeOutcome
after_handshake shared conn_alpn remote_id =
    if conn_alpn == mutual_alpn || contains shared.allowed remote_id
    then accept_connection
    else reject_connection 403 (codes "not mutually authenticated")

-- `self.shared.local_id.get().copied().ok_or_else(…)`
abbrev pub local_id_or_fail : Option EndpointId → Result EndpointId
local_id_or_fail (some id) = ok id
local_id_or_fail none = err (signer_failed "local endpoint id not set — spawn the MutualAuthTask")

module _ (codecs : MutualCodecs) where
  -- `MutualAuthProtocol::handshake`
  unfoldable pub accept_handshake : MutualAuthProtocol → Shared → Io EndpointId Error
  unfolding transport
  accept_handshake p shared = do
    local_id ← lift (local_id_or_fail shared.local_id)
    await_map_err transport open_stream
    hello ← read_msg codecs.hello max_msg
    if not (hello.version == protocol_version) then fail (unsupported_version hello.version) else do
      nonce_b ← random
      time_b ← unix_secs
      sig_b ← sign_blocking p.signer (mutual_transcript role_acceptor hello.nonce local_id time_b)
      write_msg codecs.challenge (record {
        version = protocol_version;
        nonce = nonce_b;
        verifying_key = p.signer.verifying_key;
        signature = sig_b;
        acceptor_unix_secs = time_b;
      })
      response ← read_msg codecs.response max_msg
      skewed ← is_skewed_now p.max_skew_secs response.initiator_unix_secs
      if skewed then fail clock_skew else λ w.
          (do
            lift (
                map_err (λ e. denied (Verifier.to_string e))
                  (p.verifier.verify response.verifying_key
                    (mutual_transcript role_initiator nonce_b w.remote.id
                      response.initiator_unix_secs)
                    response.signature))
            pure w.remote.id)
            w

  abbrev pub settle : Result EndpointId × World → Shared → Shared × World
  settle (ok remote, w) shared = (
    record shared { allowed = insert shared.allowed remote },
    (close {E = Error} close_accepted (codes "accepted") w).1,
  )
  settle (err e, w) shared = (shared, (close {E = Error} close_denied (codes "denied") w).1)

  -- `MutualAuthProtocol::accept`: the shared part afterwards, and what happened on the connection
  unfoldable pub accept : MutualAuthProtocol → World → Shared → Shared × World
  accept p w shared = settle (accept_handshake p shared w) shared
