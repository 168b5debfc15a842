-- ===== src/Retry/Budget/Window.antt =====
-- src/retry.rs, `mod budget`: what an idle time longer than the window leaves of the balance.
use native.Mathlib.Nat.{mod-eq_of_lt, mod_self}
use wrest.Prelude.Int.{ℤ, pos, saturating_add, isize_max}
use wrest.Prelude.{
  ℕ, zero, suc, ◌+◌, ◌*◌, ◌-◌, ◌%◌, ◌≤◌, ◌<◌, ◌≡◌, refl, ◌∙◌, false, List, [], ◌∷◌, arith,
  Bool-cases, leb, ltb, inl, inr, set, get_or, length, length-set, if◌then◌else◌, ◌≢◌, ◌&&◌,
}
use wrest.Retry.Budget.Bounds.{IsWellFormed, clear_elapsed-length}
use wrest.Retry.Budget.{Budget, clear_elapsed, advance, windowed, sum, withdraw}

-- How many steps round the ring lead from slot `i` to slot `j`.
abbrev steps : ℕ → ℕ → ℕ → ℕ
steps slots i j = if leb i j then j - i else j + slots - i

full : (idx slots : ℕ) → idx < slots → slots ≤ idx + 1 → idx + 1 ≡ slots
full idx slots h k = omega arith

next_slot :
    (idx slots : ℕ) → idx < slots → (idx + 1) % slots ≡ (if leb slots (idx + 1) then 0 else idx + 1)
next_slot idx slots h = elim (Bool-cases (leb slots (idx + 1))) [
  | inl wrap ↦ rw wrap (rw (full idx slots h (ground arith)) (mod_self slots))
  | inr inside ↦ rw inside (mod-eq_of_lt (ground arith))
]

get_or-set : (bs : List ℤ) (i j : ℕ) → (i ≡ j → get_or (set bs i (pos 0)) j (pos 0) ≡ pos 0)
get_or-set [] i j e = refl
get_or-set (x ∷ bs) zero zero e = refl
get_or-set (x ∷ bs) zero (suc j) e = absurd (omega arith)
get_or-set (x ∷ bs) (suc i) zero e = absurd (omega arith)
get_or-set (x ∷ bs) (suc i) (suc j) e = get_or-set bs i j (omega arith)

get_or-set_ne :
    (bs : List ℤ) (i j : ℕ) → i ≢ j → get_or (set bs i (pos 0)) j (pos 0) ≡ get_or bs j (pos 0)
get_or-set_ne [] i j h = refl
get_or-set_ne (x ∷ bs) zero zero h = absurd (h refl)
get_or-set_ne (x ∷ bs) zero (suc j) h = refl
get_or-set_ne (x ∷ bs) (suc i) zero h = refl
get_or-set_ne (x ∷ bs) (suc i) (suc j) h = get_or-set_ne bs i j (omega arith)

-- The slots at `rounds` steps or more from `idx` are zero already.
abbrev ZeroBeyond : ℕ → ℕ → ℕ → List ℤ → Type 0
ZeroBeyond slots rounds idx bs =
    (j : ℕ) → j < slots → rounds ≤ steps slots idx j → get_or bs j (pos 0) ≡ pos 0

ZeroBeyond-clear :
    (slots rounds idx : ℕ) (bs : List ℤ)
    → idx < slots
    → ZeroBeyond slots (suc rounds) idx bs
    → ZeroBeyond slots rounds ((idx + 1) % slots) (set bs idx (pos 0))
ZeroBeyond-clear slots rounds idx bs h z j hj far = elim (Bool-cases (leb idx j && leb j idx)) [
  | inl same ↦ get_or-set bs idx j (ground arith)
  | inr other ↦
      get_or-set_ne bs idx j (ground arith) ∙ z j hj (ground (arith, next_slot idx slots h))
]

clear_elapsed-zero :
    (rounds slots d remaining idx : ℕ) (bs : List ℤ)
    → idx < slots
    → rounds * d < remaining
    → ZeroBeyond slots rounds idx bs
    → (j : ℕ) → j < slots
    → get_or (clear_elapsed rounds slots d remaining idx bs).0 j (pos 0) ≡ pos 0
unfolding clear_elapsed
clear_elapsed-zero zero slots d remaining idx bs h r z j hj = z j hj (omega arith)
clear_elapsed-zero (suc k) slots d remaining idx bs h r z j hj =
    elim (Bool-cases (leb remaining d)) [
      | inl stop ↦ absurd (ground arith)
      | inr more ↦ rw more (
          clear_elapsed-zero k slots d (remaining - d) ((idx + 1) % slots) (set bs idx (pos 0))
            (omega arith) (ground arith) (ZeroBeyond-clear slots k idx bs h z) j hj)
    ]

windowed-zero :
    (bs : List ℤ) → ((j : ℕ) → j < length bs → get_or bs j (pos 0) ≡ pos 0) → windowed bs ≡ pos 0
unfolding windowed saturating_add
windowed-zero [] z = refl
windowed-zero (x ∷ bs) z =
    rw (z 0 (omega arith)) (windowed-zero bs (λ j hj. z (suc j) (omega arith)))

next-lt : (idx slots : ℕ) → idx < slots → (idx + 1) % slots < slots
next-lt idx slots h = omega arith

not_beyond : (slots i j : ℕ) → i < slots → j < slots → slots ≤ steps slots i j → ⊥
not_beyond slots i j hi hj far = ground arith

sum_reserve :
    (r : ℕ) → r ≤ isize_max → saturating_add (saturating_add (pos 0) (pos 0)) (pos r) ≡ pos r
unfolding saturating_add
sum_reserve r h = ground arith

advance_config :
    (b : Budget) (now : ℕ)
    → ((advance b now).reserve ≡ b.reserve) × ((advance b now).withdraw_amount ≡ b.withdraw_amount)
unfolding advance
advance_config b now = ground arith

module _ (b : Budget) (now : ℕ) (w : IsWellFormed b)
    (idle : b.slots * b.slot_duration < now - b.state.gen_time) where
  idle-not_early : ltb (now - b.state.gen_time) b.slot_duration ≡ false
  idle-not_early = grind arith

  idle-windowed : windowed (advance b now).state.buckets ≡ pos 0
  unfolding advance
  idle-windowed = rw idle-not_early (
      windowed-zero _ (λ j hj.
        clear_elapsed-zero b.slots b.slots b.slot_duration (now - b.state.gen_time)
          ((b.state.gen_index + 1) % b.slots) (set b.state.buckets b.state.gen_index b.state.writer)
          (next-lt _ _ w.gen_in_ring) idle
          (λ i hi far. absurd (not_beyond _ _ _ (next-lt _ _ w.gen_in_ring) hi far)) j
          (omega
            (arith, rw (clear_elapsed-length _ _ _ _ _ _, length-set _ _ _) at hj, w.ring_length))))

  idle-writer : (advance b now).state.writer ≡ pos 0
  unfolding advance
  idle-writer = rw idle-not_early

-- After an idle time longer than all slots together, the balance is the reserve: a withdrawal is
-- permitted exactly when the reserve covers it.
pub idle-sum :
    (b : Budget) (now : ℕ)
    → IsWellFormed b
    → b.reserve ≤ isize_max
    → b.slots * b.slot_duration < now - b.state.gen_time
    → (sum (advance b now) ≡ pos b.reserve) × ((withdraw b now).1 ≡ leb b.withdraw_amount b.reserve)
unfolding sum withdraw
idle-sum b now w fits idle =
    let total : sum (advance b now) ≡ pos b.reserve =
      rw (idle-writer b now w idle, idle-windowed b now w idle, (advance_config b now).0)
        (sum_reserve b.reserve fits) in
    (total, ground (arith, total, (advance_config b now).1))
