-- ===== src/Retry/Budget.antt =====
-- src/retry.rs, `mod budget`: the sliding-window token bucket. Times are nanoseconds: an `Instant` is
-- the nanoseconds since some fixed moment, and the clock reading is an argument of each operation.
-- The mutex is not modelled: each operation takes it for its whole body, so the operations are steps
-- on `BudgetState`. `deposit_amount`, `withdraw_amount` and `reserve` are `isize` in the source and
-- never negative, so they are natural numbers here.
pub mod Bounds
pub mod Permits
pub mod Window
use mathlib.Core.List.{foldl}
use wrest.Prelude.Int.{ℤ, pos, lebℤ, saturating_add, saturating_sub, saturating_mul, isize_max}
use wrest.Prelude.{
  ℕ, zero, suc, ◌+◌, ◌-◌, ◌*◌, ◌/◌, ◌%◌, Bool, true, false, ◌&&◌, List, Option, none, some, ltb,
  leb, if◌then◌else◌, set, replicate,
}

pub record BudgetState : Type 0 where
  pub buckets : List ℤ
  pub writer : ℤ
  pub gen_index : ℕ
  pub gen_time : ℕ

pub record Budget : Type 0 where
  pub state : BudgetState
  pub reserve : ℕ
  pub slots : ℕ
  pub slot_duration : ℕ
  pub deposit_amount : ℕ
  pub withdraw_amount : ℕ

-- What the source uses of `f32`. The cast `as isize` is only made at positive quotients.
pub record F32 : Type 1 where
  pub Float : Type 0
  pub zero_f : Float
  pub one_f : Float
  pub thousand_f : Float
  pub eq_f : Float → Float → Bool
  pub le_f : Float → Float → Bool
  pub div_f : Float → Float → Float
  pub as_isize : Float → ℕ

abbrev pub nanos_per_sec : ℕ
nanos_per_sec = 1000000000

abbrev pub num_slots : ℕ
num_slots = 10

module _ (f : F32) where
  open f use {Float, zero_f, one_f, thousand_f, eq_f, le_f, div_f, as_isize}

  -- `(deposit_amount, withdraw_amount)`
  unfoldable pub amounts : Float → ℕ × ℕ
  amounts retry_percent =
      if eq_f retry_percent zero_f
      then (0, 1)
      else if le_f retry_percent one_f
      then (1, as_isize (div_f one_f retry_percent))
      else (1000, as_isize (div_f thousand_f retry_percent))

  -- `Budget::new`; `none` is a failed assertion. `min_per_sec` is a `u32`, which fits an `isize`.
  unfoldable pub new : ℕ → ℕ → Float → ℕ → Option Budget
  unfolding amounts
  new ttl min_per_sec retry_percent now =
      if leb nanos_per_sec ttl
        && leb ttl (60 * nanos_per_sec)
        && le_f zero_f retry_percent
        && le_f retry_percent thousand_f
      then some (record {
        state = record {
          buckets = replicate num_slots (pos 0);
          writer = pos 0;
          gen_index = 0;
          gen_time = now;
        };
        reserve =
            saturating_mul (saturating_mul min_per_sec (ttl / nanos_per_sec))
              (amounts retry_percent).1;
        slots = num_slots;
        slot_duration = ttl / num_slots;
        deposit_amount = (amounts retry_percent).0;
        withdraw_amount = (amounts retry_percent).1;
      })
      else none

-- The loop that clears elapsed slots; the first argument is the rounds left of `0..self.slots`.
unfoldable pub clear_elapsed : ℕ → ℕ → ℕ → ℕ → ℕ → List ℤ → List ℤ × ℕ
clear_elapsed zero slots slot_duration remaining idx buckets = (buckets, idx)
clear_elapsed (suc rounds) slots slot_duration remaining idx buckets =
    let rest =
      clear_elapsed rounds slots slot_duration (remaining - slot_duration) ((idx + 1) % slots)
        (set buckets idx (pos 0)) in
    if leb remaining slot_duration then (buckets, idx) else rest

-- `Budget::advance` at the clock reading `now`; `duration_since` saturates at zero.
unfoldable pub advance : Budget → ℕ → Budget
advance b now =
    let st = b.state in
    let elapsed = now - st.gen_time in
    let committed = set st.buckets st.gen_index st.writer in
    let cleared =
      clear_elapsed b.slots b.slots b.slot_duration elapsed ((st.gen_index + 1) % b.slots)
        committed in
    if ltb elapsed b.slot_duration then b else record b {
      state = record { buckets = cleared.0; writer = pos 0; gen_index = cleared.1; gen_time = now };
    }

unfoldable pub windowed : List ℤ → ℤ
windowed = foldl saturating_add (pos 0)

-- `Budget::sum`
unfoldable pub sum : Budget → ℤ
unfolding windowed
sum b = saturating_add (saturating_add b.state.writer (windowed b.state.buckets)) (pos b.reserve)

abbrev with_writer : Budget → ℤ → Budget
with_writer b w = record b { state = record (b.state) { writer = w } }

unfoldable pub deposit : Budget → ℕ → Budget
deposit b now =
    let b' = advance b now in
    with_writer b' (saturating_add b'.state.writer (pos b'.deposit_amount))

-- The result is whether the retry is permitted.
unfoldable pub withdraw : Budget → ℕ → Budget × Bool
withdraw b now =
    let b' = advance b now in
    if lebℤ (pos b'.withdraw_amount) (sum b')
    then (with_writer b' (saturating_sub b'.state.writer (pos b'.withdraw_amount)), true)
    else (b', false)
