-- ===== src/Session.antt =====
-- Both ends of one connection at once: what the code of one end writes is what the code of the
-- other end reads. The peer of each end is the other end's own code, run on what this end has
-- written so far; so nothing is assumed about a peer's messages.
pub mod OneWay
pub mod FirstDial
pub mod Mutual
pub mod Institution
pub mod MutualInstitution
use native.Mathlib.Nat.{zero-add}
use iroh_hyde_auth.Common.{
  false, ℕ, Option, none, some, String, List, [], ◌≡◌, refl, ◌+◌, drop, Bytes,
}
use iroh_hyde_auth.Net.{ConnectionError, application_closed, EndpointId, Remote, SystemTime, World}
use iroh_hyde_auth.Net.Healthy.{IsHealthy}

-- iroh's text for a close, and the error of a connection that nobody closes.
pub record Endings : Type 0 where
  pub display : ℕ → Bytes → String
  pub never : ConnectionError

-- What `closed` gives at one end, by the close that the other end has called.
abbrev pub reason_of : Endings → Option (ℕ × Bytes) → ConnectionError
reason_of endings none = endings.never
reason_of endings (some (code, text)) = application_closed code (endings.display code text)

-- One end of a connection before anything happens on it: the network as this end meets it, whose
-- peer is put in below, the random numbers, the clock, and the pool of blocking tasks.
pub record End : Type 0 where
  pub network : Remote
  pub rng : ℕ → Bytes
  pub draws : ℕ
  pub clock : ℕ → SystemTime
  pub ticks : ℕ
  pub join_error : Option String

abbrev pub opening : End → Remote → World
opening end remote = record {
  remote = remote;
  sent = [];
  finished = false;
  taken = 0;
  rng = end.rng;
  draws = end.draws;
  clock = end.clock;
  ticks = end.ticks;
  join_error = end.join_error;
  closed = none;
}

-- An end to which just these bytes come, from the endpoint with this id.
abbrev pub hearing : End → EndpointId → Bytes → World
hearing end id bytes = opening end (record end.network { id = id; stream = λ sent. bytes })

-- An end whose peer has this id, writes these bytes and closes so, by what it has heard.
abbrev pub joined_to : End → EndpointId → (Bytes → Bytes) → (Bytes → ConnectionError) → World
joined_to end id stream reason =
    opening end (record end.network { id = id; stream = stream; reason = reason })

pub peer-IsHealthy :
    (network : Remote) (id : EndpointId) (stream : Bytes → Bytes) (reason : Bytes → ConnectionError)
    → IsHealthy network
    → IsHealthy (record network { id = id; stream = stream; reason = reason })
peer-IsHealthy network id stream reason h = record {
  connects = h.connects;
  opens = h.opens;
  writes = h.writes;
  finishes = h.finishes;
}

-- An end that has read nothing skips what it then reads.
pub skip : (n : ℕ) (bytes : Bytes) → drop (0 + n) bytes ≡ drop n bytes
skip n bytes = rw zero-add refl
