-- ===== src/Retry/Budget/Permits.antt =====
-- src/retry.rs, `mod budget`: what any sequence of calls on one budget permits.
use wrest.Prelude.Int.{
  ℤ, pos, pos_part, neg_part, saturating_add, saturating_sub, isize_max, lebℤ, saturating_mul,
}
use wrest.Prelude.{
  ℕ, suc, ◌+◌, ◌*◌, ◌-◌, ◌/◌, ◌≤◌, ◌<◌, ◌≡◌, ap, Bool, true, false, List, [], ◌∷◌, some, arith,
  Bool-cases, inl, inr, lt→ltb,
}
use wrest.Retry.Budget.Bounds.{
  IsWellFormed, new-IsWellFormed, deposit-IsWellFormed, withdraw-IsWellFormed,
}
use wrest.Retry.Budget.{
  Budget, F32, new, advance, windowed, sum, deposit, withdraw, nanos_per_sec, amounts,
}

-- The calls that a client makes on its budget, each with its clock reading.
pub data Call : Type 0 where
  deposit_at : ℕ → Call
  withdraw_at : ℕ → Call

pub record Tally : Type 0 where
  pub budget : Budget
  pub deposits : ℕ
  pub permits : ℕ

abbrev pub count_permit : Tally → Budget × Bool → Tally
count_permit t (b, true) = record t { budget = b; permits = suc t.permits }
count_permit t (b, false) = record t { budget = b }

count_permit-IsWellFormed :
    (t : Tally) (r : Budget × Bool) → IsWellFormed r.0 → IsWellFormed (count_permit t r).budget
count_permit-IsWellFormed t (b, true) w = w
count_permit-IsWellFormed t (b, false) w = w

unfoldable pub call : Tally → Call → Tally
call t (deposit_at now) = record t { budget = deposit t.budget now; deposits = suc t.deposits }
call t (withdraw_at now) = count_permit t (withdraw t.budget now)

unfoldable pub calls : Tally → List Call → Tally
calls t [] = t
calls t (c ∷ cs) = calls (call t c) cs

abbrev pub time_of : Call → ℕ
time_of (deposit_at now) = now
time_of (withdraw_at now) = now

abbrev pub AllBefore : ℕ → List Call → Type 0
AllBefore end [] = Unit
AllBefore end (c ∷ cs) = (time_of c < end) × AllBefore end cs

calls-IsWellFormed_from :
    (cs : List Call) (t : Tally) → IsWellFormed t.budget → IsWellFormed (calls t cs).budget
unfolding calls call
calls-IsWellFormed_from [] t w = w
calls-IsWellFormed_from (deposit_at now ∷ cs) t w =
    calls-IsWellFormed_from cs _ (deposit-IsWellFormed t.budget now w)
calls-IsWellFormed_from (withdraw_at now ∷ cs) t w =
    calls-IsWellFormed_from cs (count_permit t (withdraw t.budget now))
      (count_permit-IsWellFormed t (withdraw t.budget now) (withdraw-IsWellFormed t.budget now w))

-- While the first slot lasts: the writer holds at most what was deposited less what was paid.
record InFirstSlot (reserve deposit_amount withdraw_amount slot_duration start : ℕ) (t : Tally)
    : Type 0 where
  same_reserve : t.budget.reserve ≡ reserve
  same_deposit : t.budget.deposit_amount ≡ deposit_amount
  same_withdraw : t.budget.withdraw_amount ≡ withdraw_amount
  same_slot : t.budget.slot_duration ≡ slot_duration
  started : t.budget.state.gen_time ≡ start
  rest_empty : windowed t.budget.state.buckets ≡ pos 0
  slot_pos : 0 < slot_duration
  reserve_fits : reserve ≤ isize_max
  writer_floor : neg_part t.budget.state.writer ≤ reserve
  writer_bound :
      pos_part t.budget.state.writer + t.permits * withdraw_amount
      ≤ neg_part t.budget.state.writer + t.deposits * deposit_amount
  paid_bound : t.permits * withdraw_amount ≤ t.deposits * deposit_amount + reserve

saturating_add-le :
    (a b : ℤ)
    → neg_part a + neg_part b ≤ pos_part a + pos_part b + suc isize_max
    → pos_part (saturating_add a b) + neg_part a + neg_part b
      ≤ neg_part (saturating_add a b) + pos_part a + pos_part b
unfolding saturating_add
saturating_add-le a b h = ground arith

-- A sum that is not negative was not clamped from below.
saturating_add-nonneg :
    (a b : ℤ)
    → neg_part (saturating_add a b) ≡ 0
    → neg_part a + neg_part b ≤ pos_part a + pos_part b
unfolding saturating_add
saturating_add-nonneg a b h = ground arith

saturating_sub-le :
    (a b : ℤ)
    → neg_part a + pos_part b ≤ pos_part a + neg_part b + suc isize_max
    → pos_part (saturating_sub a b) + neg_part a + pos_part b
      ≤ neg_part (saturating_sub a b) + pos_part a + neg_part b
unfolding saturating_sub
saturating_sub-le a b h = ground arith

advance_early :
    (b : Budget) (now : ℕ)
    → 0 < b.slot_duration
    → now < b.state.gen_time + b.slot_duration
    → advance b now ≡ b
unfolding advance
advance_early b now k h = rw (lt→ltb (now - b.state.gen_time) b.slot_duration (omega arith))

-- What a permitted withdrawal says of the writer, when the slots are empty.
permitted-bound :
    (writer : ℤ) (reserve withdraw_amount : ℕ)
    → reserve ≤ isize_max
    → lebℤ (pos withdraw_amount) (saturating_add (saturating_add writer (pos 0)) (pos reserve))
      ≡ true
    → withdraw_amount + neg_part writer ≤ pos_part writer + reserve
unfolding saturating_add
permitted-bound w r a h e = ground arith

permitted-afford :
    (b : Budget)
    → windowed b.state.buckets ≡ pos 0
    → b.reserve ≤ isize_max
    → lebℤ (pos b.withdraw_amount) (sum b) ≡ true
    → b.withdraw_amount + neg_part b.state.writer ≤ pos_part b.state.writer + b.reserve
unfolding sum
permitted-afford b e fits g =
    permitted-bound b.state.writer b.reserve b.withdraw_amount fits (rw e at g)

saturating_add-floor : (a : ℤ) (d r : ℕ) → neg_part a ≤ r → neg_part (saturating_add a (pos d)) ≤ r
unfolding saturating_add
saturating_add-floor a d r h = ground arith

saturating_sub-floor :
    (a : ℤ) (w r : ℕ) → w + neg_part a ≤ pos_part a + r → neg_part (saturating_sub a (pos w)) ≤ r
unfolding saturating_sub
saturating_sub-floor a w r h = ground arith

deposit-InFirstSlot :
    (reserve dep wd slot start : ℕ) (t : Tally) (now : ℕ)
    → now < start + slot
    → InFirstSlot reserve dep wd slot start t
    → InFirstSlot reserve dep wd slot start (call t (deposit_at now))
unfolding call deposit
deposit-InFirstSlot reserve dep wd slot start t now h i =
    let w = t.budget.state.writer in
    rw (advance_early t.budget now (omega arith) (omega arith)) (record {
      same_reserve = i.same_reserve;
      same_deposit = i.same_deposit;
      same_withdraw = i.same_withdraw;
      same_slot = i.same_slot;
      started = i.started;
      rest_empty = i.rest_empty;
      slot_pos = i.slot_pos;
      reserve_fits = i.reserve_fits;
      writer_floor = saturating_add-floor w t.budget.deposit_amount reserve i.writer_floor;
      writer_bound = omega (
        arith,
        saturating_add-le w (pos t.budget.deposit_amount) (omega arith),
        ap (λ (x : ℕ). t.deposits * x) i.same_deposit,
      );
      paid_bound = omega arith;
    })

withdraw-InFirstSlot :
    (reserve dep wd slot start : ℕ) (t : Tally) (now : ℕ)
    → now < start + slot
    → InFirstSlot reserve dep wd slot start t
    → InFirstSlot reserve dep wd slot start (call t (withdraw_at now))
unfolding call withdraw
withdraw-InFirstSlot reserve dep wd slot start t now h i =
    let w = t.budget.state.writer in
    rw (advance_early t.budget now (omega arith) (omega arith))
      (elim (Bool-cases (lebℤ (pos t.budget.withdraw_amount) (sum t.budget))) [
        | inl granted ↦
            let afford : t.budget.withdraw_amount + neg_part w ≤ pos_part w + reserve =
              omega (arith, permitted-afford t.budget i.rest_empty (omega arith) granted) in
            rw granted (record {
              same_reserve = i.same_reserve;
              same_deposit = i.same_deposit;
              same_withdraw = i.same_withdraw;
              same_slot = i.same_slot;
              started = i.started;
              rest_empty = i.rest_empty;
              slot_pos = i.slot_pos;
              reserve_fits = i.reserve_fits;
              writer_floor = saturating_sub-floor w t.budget.withdraw_amount reserve afford;
              writer_bound =
                  omega (arith, saturating_sub-le w (pos t.budget.withdraw_amount) (omega arith));
              paid_bound = omega arith;
            })
        | inr refused ↦ rw refused i
      ])

calls-InFirstSlot :
    (reserve dep wd slot start : ℕ) (cs : List Call) (t : Tally)
    → AllBefore (start + slot) cs
    → InFirstSlot reserve dep wd slot start t
    → InFirstSlot reserve dep wd slot start (calls t cs)
unfolding calls
calls-InFirstSlot reserve dep wd slot start [] t h i = i
calls-InFirstSlot reserve dep wd slot start (deposit_at now ∷ cs) t h i =
    calls-InFirstSlot reserve dep wd slot start cs (call t (deposit_at now)) h.1
      (deposit-InFirstSlot reserve dep wd slot start t now h.0 i)
calls-InFirstSlot reserve dep wd slot start (withdraw_at now ∷ cs) t h i =
    calls-InFirstSlot reserve dep wd slot start cs (call t (withdraw_at now)) h.1
      (withdraw-InFirstSlot reserve dep wd slot start t now h.0 i)

-- The tally of a budget that has had no call.
abbrev pub fresh : Budget → Tally
fresh b = record { budget = b; deposits = 0; permits = 0 }

saturating_mul-le : (a b : ℕ) → saturating_mul a b ≤ isize_max
unfolding saturating_mul
saturating_mul-le a b = ground arith

module _ (f : F32) (ttl min_per_sec : ℕ) (p : f.Float) (now : ℕ) {b : Budget}
    (made : new f ttl min_per_sec p now ≡ some b) where
  new-InFirstSlot :
      InFirstSlot b.reserve b.deposit_amount b.withdraw_amount b.slot_duration now (fresh b)
  unfolding new windowed saturating_add
  new-InFirstSlot =
      ground (
        arith,
        saturating_mul-le (saturating_mul min_per_sec (ttl / nanos_per_sec)) (amounts f p).1,
      )

  -- Every sequence of calls on a new budget keeps the ring well formed.
  pub calls-IsWellFormed : (cs : List Call) → IsWellFormed (calls (fresh b) cs).budget
  calls-IsWellFormed cs =
      calls-IsWellFormed_from cs (fresh b) (new-IsWellFormed f ttl min_per_sec p now made)

  -- In the first slot of a new budget, whatever the order of the calls, the retries permitted cost
  -- at most what the deposits have earned and the reserve.
  pub permits-bound :
      (cs : List Call)
      → AllBefore (now + b.slot_duration) cs
      → (calls (fresh b) cs).permits * b.withdraw_amount
        ≤ (calls (fresh b) cs).deposits * b.deposit_amount + b.reserve
  permits-bound cs h =
      (calls-InFirstSlot b.reserve b.deposit_amount b.withdraw_amount b.slot_duration now cs
        (fresh b) h new-InFirstSlot).paid_bound
