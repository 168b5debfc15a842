-- ===== src/Threadpool.antt =====
-- src/threadpool.rs: the wrapper of a Win32 threadpool timer, by the calls it makes of the system. A
-- `Duration` is a number of nanoseconds.
pub mod DueTime
use wrest.Prelude.{
  ℕ, ◌+◌, ◌-◌, ◌*◌, ◌/◌, ◌%◌, List, [], ◌∷◌, Option, none, some, if◌then◌else◌, leb,
}

-- `i64::MAX`
abbrev pub i64_max : ℕ
i64_max = 9223372036854775807

-- Since the ticks are a `u128`, the conversion fails exactly above `i64::MAX`.
unfoldable pub ticks : ℕ → ℕ
ticks nanos = if leb (nanos / 100) i64_max then nanos / 100 else i64_max

-- The bits of -n as an `i64`.
abbrev pub negated_bits : ℕ → ℕ
negated_bits n = (18446744073709551616 - n) % 18446744073709551616

-- `i64::to_le_bytes`, of the bits.
abbrev pub to_le_bytes : ℕ → ℕ → List ℕ
to_le_bytes ℕ.zero w = []
to_le_bytes (ℕ.suc n) w = (w % 256) ∷ to_le_bytes n (w / 256)

-- `u32::from_le_bytes`
abbrev pub from_le_bytes : List ℕ → ℕ
from_le_bytes [] = 0
from_le_bytes (b ∷ bs) = b + 256 * from_le_bytes bs

pub record FileTime : Type 0 where
  pub dw_low_date_time : ℕ
  pub dw_high_date_time : ℕ

-- The bytes of the word, and the two halves they make.
abbrev pub halves : List ℕ → FileTime
halves (b0 ∷ b1 ∷ b2 ∷ b3 ∷ high) = record {
  dw_low_date_time = from_le_bytes (b0 ∷ b1 ∷ b2 ∷ b3 ∷ []);
  dw_high_date_time = from_le_bytes high;
}
halves _ = record { dw_low_date_time = 0; dw_high_date_time = 0 }

unfoldable pub due_time : ℕ → FileTime
unfolding ticks
due_time nanos = halves (to_le_bytes 8 (negated_bits (ticks nanos)))

-- The calls of the system: `SetThreadpoolTimer`, with no time to stop the timer,
-- `WaitForThreadpoolTimerCallbacks`, and `CloseThreadpoolTimer`.
pub data Call : Type 0 where
  set_threadpool_timer : Option FileTime → Call
  wait_for_threadpool_timer_callbacks : Call
  close_threadpool_timer : Call

unfoldable pub set_relative : Option ℕ → Call
unfolding due_time
set_relative (some due) = set_threadpool_timer (some (due_time due))
set_relative none = set_threadpool_timer none

-- `ThreadpoolTimer::drop`
unfoldable pub drop_timer : List Call
unfolding set_relative
drop_timer = set_relative none ∷ wait_for_threadpool_timer_callbacks ∷ close_threadpool_timer ∷ []
