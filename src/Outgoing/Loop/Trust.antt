-- ===== src/Outgoing/Loop/Trust.antt =====
-- What a reply of the loop means, and whom `before_connect` lets through.
use iroh_hyde_auth.Common.{
  All-get, ◌≡◌, ◌≢◌, refl, Bool, true, false, Option, none, some, List, Bytes, arith, contains, get,
  nat_eq, list_eq, list_beq_iff,
}
use iroh_hyde_auth.Error.{ok, err}
use iroh_hyde_auth.Net.{EndpointId, accept_dial}
use iroh_hyde_auth.Wire.{Codecs, alpn}
use iroh_hyde_auth.Signer.{InstitutionalSigner}
use iroh_hyde_auth.Outgoing.{
  OutgoingAuthTask, Sender, AuthResult, outgoing, authenticate, before_connect,
}
use iroh_hyde_auth.Outgoing.Loop.{Event, start, run}
use iroh_hyde_auth.Outgoing.Loop.Ends.{Ended, AreAddressed, IsTrusted, run-IsTrusted}

-- Past the hook's test of the ALPN, only the reply `Ok` lets a connection out.
let_through :
    (sent : Bool) (reply : Option AuthResult) (dialled_alpn : Bytes)
    → dialled_alpn ≢ alpn
    → before_connect dialled_alpn (authenticate sent reply) ≡ accept_dial
    → reply ≡ some (ok tt)
unfolding before_connect authenticate
let_through false reply dialled_alpn other h = ground (arith, h, list_beq_iff dialled_alpn alpn)
let_through true none dialled_alpn other h = ground (arith, h, list_beq_iff dialled_alpn alpn)
let_through true (some (err e)) dialled_alpn other h =
    ground (arith, h, list_beq_iff dialled_alpn alpn)
let_through true (some (ok t)) dialled_alpn other h = refl

module _ (codecs : Codecs) (my_id : EndpointId) (signer : InstitutionalSigner) where
  -- `remote_of` is the remote that the hook asked for with a sender.
  module _ (remote_of : Sender → EndpointId) where
    -- The loop after these events, from the start.
    abbrev pub task_after : List Event → OutgoingAuthTask
    task_after events = (run codecs my_id (start signer) events).task

    started-IsTrusted :
        (events : List Event)
        → AreAddressed codecs my_id signer remote_of events
        → IsTrusted codecs my_id signer remote_of
            (λ id res. Ended codecs my_id signer id res (start signer) events)
            (task_after events)
    unfolding outgoing
    started-IsTrusted events a =
        run-IsTrusted codecs my_id signer remote_of
          (λ id res. Ended codecs my_id signer id res (start signer) events) (outgoing signer)
          events a (λ id res h. h)
          (record {
            signs = refl;
            allowed = λ id h. absurd (unfold contains in ground (arith, h));
            waits = λ id txs h. absurd (unfold get in ground (arith, h));
            replied = tt;
          })

    -- A reply that the loop has sent to a request is the outcome of a handshake that ended at one of
    -- the events, with the remote that was asked for: `Ok` only after one that succeeded, and an
    -- error only after one that gave that error. This is for events in which each request comes with
    -- a sender of its remote.
    pub reply_sound :
        (events : List Event) (tx : Sender) (res : AuthResult)
        → AreAddressed codecs my_id signer remote_of events
        → get (task_after events).replies tx ≡ some res
        → Ended codecs my_id signer (remote_of tx) res (start signer) events
    reply_sound events tx res a h =
        All-get (λ (x, r). Ended codecs my_id signer (remote_of x) r (start signer) events)
          (task_after events).replies tx res (started-IsTrusted events a).replied h

    -- After any events from the start, the hook lets a connection on another ALPN than that of the
    -- handshake out only if, at one of those events, the running loop took a task that dialled that
    -- remote and its handshake had succeeded in the world of that event; so it rejects where the
    -- request was not taken or not answered. This is for requests that come with a sender of their
    -- remote.
    pub dial_gate :
        (events : List Event) (tx : Sender) (dialled_alpn : Bytes) (sent : Bool)
        → AreAddressed codecs my_id signer remote_of events
        → dialled_alpn ≢ alpn
        → before_connect dialled_alpn (authenticate sent (get (task_after events).replies tx))
          ≡ accept_dial
        → Ended codecs my_id signer (remote_of tx) (ok tt) (start signer) events
    dial_gate events tx dialled_alpn sent a other h =
        reply_sound events tx (ok tt) a (let_through sent _ dialled_alpn other h)
