-- ===== src/Incoming.antt =====
-- incoming.rs: the acceptor. The set of authenticated remotes, which the hook and the protocol
-- handler share behind an `Arc<Mutex<…>>`, is an argument of both and comes back from what writes it.
pub mod Hook
pub mod Gate
pub mod Soundness
pub mod Binding
pub mod Completeness
pub mod Order
pub mod Refusal
use iroh_hyde_auth.Common.{
  ℕ, Bool, true, false, not, ◌||◌, Option, some, List, [], String, Bytes, codes, contains, insert,
  ◌==◌, nat_eq, list_eq, if◌then◌else◌,
}
use iroh_hyde_auth.Error.{
  StdResult, ok, err, Error, Result, map_err, transport, unsupported_version, clock_skew, denied,
}
use iroh_hyde_auth.Net.{
  EndpointId, AfterHandshakeOutcome, accept_connection, reject_connection, World, Io, ◌>>=◌, ◌>>◌,
  lift, pure, fail, await_map_err, open_stream, random, close,
}
use iroh_hyde_auth.Wire.{
  Codecs, alpn, protocol_version, max_msg, close_accepted, close_denied, transcript, read_msg,
  write_msg,
}
use iroh_hyde_auth.Util.{unix_secs, is_skewed}
use iroh_hyde_auth.Verifier
use iroh_hyde_auth.Verifier.{InstitutionId, InstitutionVerifier}

abbrev pub default_max_skew_secs : ℕ
default_max_skew_secs = 300

-- `AuthProtocol`, less the shared set
pub record AuthProtocol : Type 0 where
  pub verifier : InstitutionVerifier
  pub max_skew_secs : Option ℕ

-- The protocol handler, and the empty set that it shares with the hook.
unfoldable pub incoming : InstitutionVerifier → AuthProtocol × List EndpointId
incoming verifier = (record { verifier = verifier; max_skew_secs = some default_max_skew_secs }, [])

unfoldable pub with_max_skew : AuthProtocol → Option ℕ → AuthProtocol
with_max_skew p secs = record p { max_skew_secs = secs }

-- `IncomingAuthHook::after_handshake`: the shared set, and the connection's ALPN and remote id
unfoldable pub after_handshake : List EndpointId → Bytes → EndpointId → AfterHandshakeOutcome
after_handshake allowed_remotes conn_alpn remote_id =
    if conn_alpn == alpn || contains allowed_remotes remote_id
    then accept_connection
    else reject_connection 403 (codes "not authenticated")

module _ (codecs : Codecs) where
  unfoldable pub run_handshake : AuthProtocol → Io InstitutionId Error
  unfolding transport
  run_handshake p = do
    await_map_err transport open_stream
    hello ← read_msg codecs.hello max_msg
    if not (hello.version == protocol_version) then fail (unsupported_version hello.version) else do
      nonce ← random
      server_now ← unix_secs
      write_msg codecs.challenge
          (record { version = protocol_version; nonce = nonce; server_unix_secs = server_now })
      auth ← read_msg codecs.auth max_msg
      if is_skewed p.max_skew_secs server_now auth.client_unix_secs then fail clock_skew else λ w.
          lift
            (map_err (λ e. denied (Verifier.to_string e))
              (p.verifier.verify auth.verifying_key
                (transcript nonce w.remote.id auth.client_unix_secs) auth.signature))
            w

  abbrev pub settle : Result InstitutionId × World → List EndpointId → List EndpointId × World
  settle (ok institution, w) allowed_remotes = (
    insert allowed_remotes w.remote.id,
    (close {E = Error} close_accepted (codes "accepted") w).1,
  )
  settle (err e, w) allowed_remotes =
      (allowed_remotes, (close {E = Error} close_denied (codes "denied") w).1)

  -- `AuthProtocol::accept`: the shared set afterwards, and what happened on the connection
  unfoldable pub accept : AuthProtocol → World → List EndpointId → List EndpointId × World
  accept p w allowed_remotes = settle (run_handshake p w) allowed_remotes
