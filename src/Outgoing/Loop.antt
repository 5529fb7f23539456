-- ===== src/Outgoing/Loop.antt =====
-- `OutgoingAuthTask::run`: the loop over requests and finished handshakes. `select!` takes either
-- when both are ready, so a run is any sequence of events.
pub mod Flight
pub mod Replies
pub mod Ends
pub mod Trust
pub mod Drain
pub mod Lasting
use iroh_hyde_auth.Common.{
  ℕ, zero, suc, Bool, true, false, Option, none, some, List, [], ◌∷◌, if◌then◌else◌,
}
use iroh_hyde_auth.Net.{EndpointId, EndpointAddr, World}
use iroh_hyde_auth.Wire.{Codecs}
use iroh_hyde_auth.Signer.{InstitutionalSigner}
use iroh_hyde_auth.Util.{JoinHandle, TaskGuard, new}
use iroh_hyde_auth.Outgoing.Handshake.{handshake}
use iroh_hyde_auth.Outgoing.{OutgoingAuthTask, Sender, outgoing, handle_request, handle_completion}

-- What `select!` may find ready, and the end of the task from outside.
pub data Event : Type 0 where
  -- `rx.recv()` gives a request
  request : EndpointAddr → Sender → Event
  -- `tasks.join_next()` gives the task at this place, whose handshake met this world
  joined : ℕ → World → Event
  -- `rx.recv()` gives `None`: every hook is gone
  hooks_gone : Event
  -- the abort that a dropped `TaskGuard` asks for takes effect, which may be later than the drop
  abort : Event

pub record LoopState : Type 0 where
  pub running : Bool
  pub task : OutgoingAuthTask

-- `spawn`, over tokio's own `spawn`, which gives a handle of the task that it runs
unfoldable pub spawn :
    {S : Type 0} → (OutgoingAuthTask → JoinHandle S) → OutgoingAuthTask → TaskGuard S
spawn tokio_spawn task = new (tokio_spawn task)

-- The task that `outgoing` made, as it starts to run.
abbrev pub start : InstitutionalSigner → LoopState
start signer = record { running = true; task = outgoing signer }

-- The task at a place, and the others.
unfoldable pub take_task : List EndpointAddr → ℕ → Option (EndpointAddr × List EndpointAddr)
take_task [] i = none
take_task (a ∷ rest) zero = some (a, rest)
take_task (a ∷ rest) (suc i) = elim (take_task rest i) [
  | none ↦ none
  | some (b, others) ↦ some (b, a ∷ others)
]

module _ (codecs : Codecs) (my_id : EndpointId) where
  -- Without a finished task, `join_next` is not ready.
  abbrev pub join :
      OutgoingAuthTask → World → Option (EndpointAddr × List EndpointAddr) → OutgoingAuthTask
  join t w none = t
  join t w (some (addr, others)) =
      handle_completion (record t { tasks = others }) addr.id
        (handshake codecs my_id addr t.signer w).0

  abbrev pub handle : OutgoingAuthTask → Event → LoopState
  handle t (request remote_addr tx) = record {
    running = true;
    task = handle_request t remote_addr tx;
  }
  handle t (joined i w) = record { running = true; task = join t w (take_task t.tasks i) }
  handle t hooks_gone = record { running = false; task = t }
  handle t abort = record { running = false; task = t }

  -- A loop that has ended takes no event.
  unfoldable pub step : LoopState → Event → LoopState
  step s e = if s.running then handle s.task e else s

  unfoldable pub run : LoopState → List Event → LoopState
  run s [] = s
  run s (e ∷ events) = run (step s e) events
