-- ===== src/Util.antt =====
-- util.rs: the clock, and the guard of a task.
use iroh_hyde_auth.Common.{
  ℕ, suc, ◌-◌, ◌/◌, ◌^◌, Bool, false, Option, none, some, ltb, if◌then◌else◌,
}
use iroh_hyde_auth.Error.{ok}
use iroh_hyde_auth.Net.{SystemTime, after_epoch, before_epoch, Io, ◌>>=◌, pure}

-- `duration_since(UNIX_EPOCH)`, in nanoseconds: an error for a time before the epoch
abbrev duration_since_epoch : SystemTime → Option ℕ
duration_since_epoch (after_epoch n) = some n
duration_since_epoch (before_epoch n) = none

abbrev pub secs_or_zero : Option ℕ → ℕ
secs_or_zero none = 0
secs_or_zero (some nanos) = nanos / 10 ^ 9

-- What `unix_secs` returns at one reading of the clock.
unfoldable pub whole_secs : SystemTime → ℕ
whole_secs t = secs_or_zero (duration_since_epoch t)

unfoldable pub unix_secs : {E : Type 0} → Io ℕ E
unix_secs w = (ok (whole_secs (w.clock w.ticks)), record w { ticks = suc w.ticks })

-- `u64::abs_diff`
unfoldable pub abs_diff : ℕ → ℕ → ℕ
abs_diff a b = if ltb a b then b - a else a - b

-- The test that both handshakes make, by which a limit that is absent turns it off:
-- `if let Some(max) = max_skew_secs { if now.abs_diff(asserted) > max { … } }`.
unfoldable pub is_skewed : Option ℕ → ℕ → ℕ → Bool
unfolding abs_diff
is_skewed none now asserted = false
is_skewed (some max) now asserted = ltb max (abs_diff now asserted)

-- The same where the clock is read for the test, and only if there is a limit.
unfoldable pub is_skewed_now : {E : Type 0} → Option ℕ → ℕ → Io Bool E
unfolding unix_secs is_skewed
is_skewed_now none asserted = pure false
is_skewed_now (some max) asserted = do now ← unix_secs; pure (is_skewed (some max) now asserted)

-- tokio's `JoinHandle`, which is not part of this repository: `S` is what tokio keeps of a task, and
-- `abort` what the call does to that.
pub record JoinHandle (S : Type 0) : Type 0 where
  pub abort : S → S

pub record TaskGuard (S : Type 0) : Type 0 where
  pub handle : JoinHandle S

unfoldable pub new : {S : Type 0} → JoinHandle S → TaskGuard S
new handle = record { handle = handle }

-- `TaskGuard::drop`
unfoldable pub drop : {S : Type 0} → TaskGuard S → S → S
drop guard = guard.handle.abort
