-- ===== src/Mutual/Authenticator.antt =====
-- The hook of mutual.rs that authenticates outgoing connections, and its background task. The set
-- of authenticated peers is `Shared`, which the acceptor side writes to as well.
use iroh_hyde_auth.Common.{
  ℕ, Bool, true, false, Option, none, some, List, [], ◌∷◌, ◌++◌, Bytes, contains, insert, get, put,
  remove, ◌==◌, list_eq, if◌then◌else◌,
}
use iroh_hyde_auth.Error.{ok, err, Result, denied, authenticator_stopped, to_string}
use iroh_hyde_auth.Net.{EndpointId, EndpointAddr, BeforeConnectOutcome, accept_dial}
use iroh_hyde_auth.Wire.{mutual_alpn}
use iroh_hyde_auth.Signer.{InstitutionalSigner}
use iroh_hyde_auth.Verifier.{InstitutionVerifier}
use iroh_hyde_auth.Outgoing.{Sender, AuthResult, outcome, send_all}
use iroh_hyde_auth.Mutual.{Shared, MutualAuthProtocol, empty_shared, default_max_skew_secs}

-- `MutualAuthHook::authenticate`, by whether the task took the request, and what came back.
unfoldable pub authenticate : Bool → Option AuthResult → Result (Unit {0})
authenticate false reply = err authenticator_stopped
authenticate true (some (ok t)) = ok tt
authenticate true (some (err e)) = err (denied (to_string e))
authenticate true none = err authenticator_stopped

-- `MutualAuthHook::before_connect`
unfoldable pub before_connect : Bytes → Result (Unit {0}) → BeforeConnectOutcome
before_connect dialled_alpn authenticated =
    if dialled_alpn == mutual_alpn then accept_dial else outcome authenticated

-- `MutualAuthTask`, with the values sent on the oneshot channels
pub record MutualAuthTask : Type 0 where
  pub signer : InstitutionalSigner
  pub verifier : InstitutionVerifier
  pub shared : Shared
  pub pending : List (EndpointId × List Sender)
  pub tasks : List EndpointAddr
  pub max_skew_secs : Option ℕ
  pub replies : List (Sender × AuthResult)

-- `mutual`: the protocol handler and the task, over one `Shared`
unfoldable pub mutual_auth :
    InstitutionalSigner → InstitutionVerifier → MutualAuthProtocol × MutualAuthTask
mutual_auth signer verifier = (
  record { signer = signer; verifier = verifier; max_skew_secs = some default_max_skew_secs },
  record {
    signer = signer;
    verifier = verifier;
    shared = empty_shared;
    pending = [];
    tasks = [];
    max_skew_secs = some default_max_skew_secs;
    replies = [];
  },
)

-- `OnceLock::set(…).ok()`: a value that is there stays
abbrev set_once : Option EndpointId → EndpointId → Option EndpointId
set_once none id = some id
set_once (some old) id = some old

-- What `spawn` does to the task before it starts to run: the endpoint's own id is published.
unfoldable pub spawn : MutualAuthTask → EndpointId → MutualAuthTask
spawn t endpoint_id = record t {
  shared = record t.shared { local_id = set_once t.shared.local_id endpoint_id };
}

abbrev enqueue : MutualAuthTask → EndpointAddr → Sender → Option (List Sender) → MutualAuthTask
enqueue t remote_addr tx (some waiters) = record t {
  pending = put t.pending remote_addr.id (waiters ++ tx ∷ []);
}
enqueue t remote_addr tx none = record t {
  tasks = t.tasks ++ remote_addr ∷ [];
  pending = put t.pending remote_addr.id (tx ∷ []);
}

unfoldable pub handle_request : MutualAuthTask → EndpointAddr → Sender → MutualAuthTask
handle_request t remote_addr tx =
    if contains t.shared.allowed remote_addr.id
    then record t { replies = (tx, ok tt) ∷ t.replies }
    else enqueue t remote_addr tx (get t.pending remote_addr.id)

abbrev pub admit : Shared → EndpointId → AuthResult → Shared
admit shared remote_id (ok t) = record shared { allowed = insert shared.allowed remote_id }
admit shared remote_id (err e) = shared

abbrev release : MutualAuthTask → EndpointId → AuthResult → Option (List Sender) → MutualAuthTask
release t remote_id res none = t
release t remote_id res (some waiters) = record t {
  pending = remove t.pending remote_id;
  replies = send_all waiters res t.replies;
}

unfoldable pub handle_completion : MutualAuthTask → EndpointId → AuthResult → MutualAuthTask
handle_completion t remote_id res =
    release (record t { shared = admit t.shared remote_id res }) remote_id res
      (get t.pending remote_id)
