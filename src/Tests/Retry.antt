-- ===== src/Tests/Retry.antt =====
-- The retry budget at concrete inputs: ten seconds, ten retries a second, 0.2 retries per request.
use wrest.Prelude.Int.{pos}
use wrest.Prelude.{
  ℕ, ◌*◌, ◌+◌, ◌-◌, ◌≤◌, List, [], ◌∷◌, some, true, ◌≡◌, refl, replicate, leb, arith,
}
use wrest.Prelude.Int.{isize_max}
use wrest.Retry.Budget.Bounds.{IsWellFormed}
use wrest.Retry.Budget.Permits.{
  Call, deposit_at, withdraw_at, Tally, calls, fresh, calls-IsWellFormed, permits-bound,
}
use wrest.Retry.Budget.Window.{idle-sum}
use wrest.Retry.Budget.{Budget, new, nanos_per_sec, sum, advance, withdraw}
use wrest.Tests.Samples.{thousandths}

abbrev pub sample_budget : Budget
sample_budget = record {
  state = record { buckets = replicate 10 (pos 0); writer = pos 0; gen_index = 0; gen_time = 7 };
  reserve = 500;
  slots = 10;
  slot_duration = 1000000000;
  deposit_amount = 1;
  withdraw_amount = 5;
}

sample_made : new thousandths (10 * nanos_per_sec) 10 200 7 ≡ some sample_budget
unfolding new wrest.Prelude.Int.saturating_mul
sample_made = refl

abbrev sample_calls : List Call
sample_calls = deposit_at 9 ∷ withdraw_at 10 ∷ withdraw_at 900000000 ∷ deposit_at 20 ∷ []

both_permitted : (calls (fresh sample_budget) sample_calls).permits ≡ 2
unfolding calls wrest.Retry.Budget.Permits.call withdraw advance wrest.Retry.Budget.deposit sum
    wrest.Prelude.Int.saturating_add wrest.Prelude.Int.saturating_sub
both_permitted = refl

calls-IsWellFormed_example : IsWellFormed (calls (fresh sample_budget) sample_calls).budget
calls-IsWellFormed_example =
    calls-IsWellFormed thousandths (10 * nanos_per_sec) 10 200 7 sample_made sample_calls

permits-bound_example :
    (calls (fresh sample_budget) sample_calls).permits * 5
    ≤ (calls (fresh sample_budget) sample_calls).deposits * 1 + 500
permits-bound_example =
    permits-bound thousandths (10 * nanos_per_sec) 10 200 7 sample_made sample_calls
      (omega arith, (omega arith, (omega arith, (omega arith, tt))))

sample_budget-IsWellFormed : IsWellFormed sample_budget
sample_budget-IsWellFormed = record { ring_length = refl; gen_in_ring = omega arith }

idle-sum_example :
    (sum (advance sample_budget 20000000000) ≡ pos 500)
    × ((withdraw sample_budget 20000000000).1 ≡ leb 5 500)
idle-sum_example =
    idle-sum sample_budget 20000000000 sample_budget-IsWellFormed (omega arith) (omega arith)
