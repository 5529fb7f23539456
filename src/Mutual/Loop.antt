-- ===== src/Mutual/Loop.antt =====
-- One endpoint of mutual.rs at work: the loop of `MutualAuthTask::run`, and the connections that the
-- router hands to `MutualAuthProtocol::accept`, which write to the same `Shared`, in any order.
pub mod Met
pub mod Gate
pub mod View
pub mod Flight
pub mod Drain
pub mod Lasting
use iroh_hyde_auth.Common.{ℕ, Bool, true, false, Option, none, some, List, [], ◌∷◌, if◌then◌else◌}
use iroh_hyde_auth.Net.{EndpointId, EndpointAddr, World}
use iroh_hyde_auth.Wire.{MutualCodecs}
use iroh_hyde_auth.Outgoing.{Sender}
use iroh_hyde_auth.Outgoing.Loop.{take_task}
use iroh_hyde_auth.Mutual.{MutualAuthProtocol, accept}
use iroh_hyde_auth.Mutual.Initiator.{handshake}
use iroh_hyde_auth.Mutual.Authenticator.{MutualAuthTask, handle_request, handle_completion}

pub data Event : Type 0 where
  -- `rx.recv()` gives a request
  request : EndpointAddr → Sender → Event
  -- `tasks.join_next()` gives the task at this place, whose handshake met this world
  joined : ℕ → World → Event
  -- the router has an incoming connection for `accept`
  incoming_auth : World → Event
  -- `rx.recv()` gives `None`: every hook is gone
  hooks_gone : Event
  -- the abort that a dropped `TaskGuard` asks for takes effect, which may be later than the drop
  abort : Event

-- The task's `Shared` is that of the protocol handler too, and stays when the loop has ended.
pub record LoopState : Type 0 where
  pub running : Bool
  pub task : MutualAuthTask

module _ (codecs : MutualCodecs) (my_id : EndpointId) (p : MutualAuthProtocol) where
  abbrev pub join :
      MutualAuthTask → World → Option (EndpointAddr × List EndpointAddr) → MutualAuthTask
  join t w none = t
  join t w (some (addr, others)) =
      handle_completion (record t { tasks = others }) addr.id
        (handshake codecs my_id addr t.signer t.verifier t.max_skew_secs w).0

  -- `accept`, which runs whether the loop does or not
  abbrev pub let_in : MutualAuthTask → World → MutualAuthTask
  let_in t w = record t { shared = (accept codecs p w t.shared).0 }

  abbrev pub handle : MutualAuthTask → Event → LoopState
  handle t (request remote_addr tx) = record {
    running = true;
    task = handle_request t remote_addr tx;
  }
  handle t (joined i w) = record { running = true; task = join t w (take_task t.tasks i) }
  handle t (incoming_auth w) = record { running = true; task = let_in t w }
  handle t hooks_gone = record { running = false; task = t }
  handle t abort = record { running = false; task = t }

  -- A loop that has ended takes no request and no finished task.
  abbrev pub handle_ended : MutualAuthTask → Event → LoopState
  handle_ended t (request remote_addr tx) = record { running = false; task = t }
  handle_ended t (joined i w) = record { running = false; task = t }
  handle_ended t (incoming_auth w) = record { running = false; task = let_in t w }
  handle_ended t hooks_gone = record { running = false; task = t }
  handle_ended t abort = record { running = false; task = t }

  unfoldable pub step : LoopState → Event → LoopState
  step s e = let ended = handle_ended s.task e in if s.running then handle s.task e else ended

  unfoldable pub run : LoopState → List Event → LoopState
  run s [] = s
  run s (e ∷ events) = run (step s e) events
