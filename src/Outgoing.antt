-- ===== src/Outgoing.antt =====
-- outgoing.rs: the initiator. This module has the hook and the background task that runs one
-- handshake for each remote and answers everybody who waits for it.
pub mod Handshake
pub mod Loop
pub mod Exchange
pub mod Completeness
use Handshake.{handshake}
use iroh_hyde_auth.Common.{
  ℕ, Bool, true, false, Option, none, some, List, [], ◌∷◌, ◌++◌, Bytes, contains, insert, get, put,
  remove, ◌==◌, list_eq, if◌then◌else◌,
}
use iroh_hyde_auth.Error.{
  StdResult, ok, err, Error, Result, denied, authenticator_stopped, to_string,
}
use iroh_hyde_auth.Net.{
  EndpointId, EndpointAddr, BeforeConnectOutcome, accept_dial, reject_dial, World,
}
use iroh_hyde_auth.Wire.{alpn}
use iroh_hyde_auth.Signer.{InstitutionalSigner}

-- `AuthResult`; the `Arc` about the error is not modelled, since errors are not changed
abbrev pub AuthResult : Type 0
AuthResult = Result (Unit {0})

-- A oneshot sender, by a number of its own.
abbrev pub Sender : Type 0
Sender = ℕ

-- `OutgoingAuthHook::authenticate`, by whether the task took the request, and what came back on the
-- oneshot channel: `none` when its sender was dropped.
unfoldable pub authenticate : Bool → Option AuthResult → Result (Unit {0})
authenticate false reply = err authenticator_stopped
authenticate true (some (ok t)) = ok tt
authenticate true (some (err e)) = err (denied (to_string e))
authenticate true none = err authenticator_stopped

abbrev pub outcome : Result (Unit {0}) → BeforeConnectOutcome
outcome (ok t) = accept_dial
outcome (err e) = reject_dial

-- `before_connect`, by the ALPN and what `authenticate` would return
unfoldable pub before_connect : Bytes → Result (Unit {0}) → BeforeConnectOutcome
before_connect dialled_alpn authenticated =
    if dialled_alpn == alpn then accept_dial else outcome authenticated

-- `OutgoingAuthTask`, with the values that were sent on the oneshot channels, the newest first.
-- `tasks` has the address of each handshake that is running.
pub record OutgoingAuthTask : Type 0 where
  pub signer : InstitutionalSigner
  pub allowed_remotes : List EndpointId
  pub pending_remotes : List (EndpointId × List Sender)
  pub tasks : List EndpointAddr
  pub replies : List (Sender × AuthResult)

unfoldable pub outgoing : InstitutionalSigner → OutgoingAuthTask
outgoing signer = record {
  signer = signer;
  allowed_remotes = [];
  pending_remotes = [];
  tasks = [];
  replies = [];
}

-- `tx.send(…).ok()`
abbrev pub send : OutgoingAuthTask → Sender → AuthResult → OutgoingAuthTask
send t tx res = record t { replies = (tx, res) ∷ t.replies }

-- The match on the entry of `pending_remotes`.
abbrev enqueue : OutgoingAuthTask → EndpointAddr → Sender → Option (List Sender) → OutgoingAuthTask
enqueue t remote_addr tx (some waiters) = record t {
  pending_remotes = put t.pending_remotes remote_addr.id (waiters ++ tx ∷ []);
}
enqueue t remote_addr tx none = record t {
  tasks = t.tasks ++ remote_addr ∷ [];
  pending_remotes = put t.pending_remotes remote_addr.id (tx ∷ []);
}

unfoldable pub handle_request : OutgoingAuthTask → EndpointAddr → Sender → OutgoingAuthTask
handle_request t remote_addr tx =
    if contains t.allowed_remotes remote_addr.id
    then send t tx (ok tt)
    else enqueue t remote_addr tx (get t.pending_remotes remote_addr.id)

-- `for tx in waiters { tx.send(res.clone()).ok(); }`
unfoldable pub send_all :
    List Sender → AuthResult → List (Sender × AuthResult) → List (Sender × AuthResult)
send_all [] res sent = sent
send_all (tx ∷ waiters) res sent = send_all waiters res ((tx, res) ∷ sent)

abbrev pub admit : List EndpointId → EndpointId → AuthResult → List EndpointId
admit allowed remote_id (ok t) = insert allowed remote_id
admit allowed remote_id (err e) = allowed

abbrev release :
    OutgoingAuthTask → EndpointId → AuthResult → Option (List Sender) → OutgoingAuthTask
release t remote_id res none = t
release t remote_id res (some waiters) = record t {
  pending_remotes = remove t.pending_remotes remote_id;
  replies = send_all waiters res t.replies;
}

unfoldable pub handle_completion : OutgoingAuthTask → EndpointId → AuthResult → OutgoingAuthTask
handle_completion t remote_id res =
    release (record t { allowed_remotes = admit t.allowed_remotes remote_id res }) remote_id res
      (get t.pending_remotes remote_id)
