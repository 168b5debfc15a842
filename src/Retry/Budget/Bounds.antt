-- ===== src/Retry/Budget/Bounds.antt =====
-- src/retry.rs, `mod budget`: the shape of the ring, and what the budget permits within one slot.
use wrest.Prelude.Int.{ℤ, pos}
use wrest.Prelude.{
  ℕ, zero, suc, ◌+◌, ◌-◌, ◌%◌, ◌<◌, ◌≡◌, refl, ◌∙◌, List, some, arith, set, length, length-set,
  Bool-cases, leb, inl, inr,
}
use wrest.Retry.Budget.{Budget, F32, new, clear_elapsed, advance, deposit, withdraw}

-- The ring has `slots` buckets, at least one, and the current generation is one of them.
pub record IsWellFormed (b : Budget) : Type 0 where
  pub ring_length : length b.state.buckets ≡ b.slots
  pub gen_in_ring : b.state.gen_index < b.slots

pub clear_elapsed-length :
    (rounds slots d remaining idx : ℕ) (bs : List ℤ)
    → length (clear_elapsed rounds slots d remaining idx bs).0 ≡ length bs
unfolding clear_elapsed
clear_elapsed-length zero slots d remaining idx bs = refl
clear_elapsed-length (suc r) slots d remaining idx bs = elim (Bool-cases (leb remaining d)) [
  | inl stop ↦ rw stop
  | inr more ↦ rw more (
      clear_elapsed-length r slots d (remaining - d) ((idx + 1) % slots) (set bs idx (pos 0))
      ∙ length-set bs idx (pos 0))
]

clear_elapsed-index :
    (rounds slots d remaining idx : ℕ) (bs : List ℤ)
    → idx < slots
    → (clear_elapsed rounds slots d remaining idx bs).1 < slots
unfolding clear_elapsed
clear_elapsed-index zero slots d remaining idx bs h = h
clear_elapsed-index (suc r) slots d remaining idx bs h = elim (Bool-cases (leb remaining d)) [
  | inl stop ↦ rw stop h
  | inr more ↦ rw more (
      clear_elapsed-index r slots d (remaining - d) ((idx + 1) % slots) (set bs idx (pos 0))
        (omega arith))
]

pub advance-IsWellFormed : (b : Budget) (now : ℕ) → IsWellFormed b → IsWellFormed (advance b now)
unfolding advance
advance-IsWellFormed b now w =
    let st = b.state in
    let committed = set st.buckets st.gen_index st.writer in
    let next = (st.gen_index + 1) % b.slots in
    ground (
      arith,
      clear_elapsed-length b.slots b.slots b.slot_duration (now - st.gen_time) next committed,
      length-set st.buckets st.gen_index st.writer,
      clear_elapsed-index b.slots b.slots b.slot_duration (now - st.gen_time) next committed,
    )

-- A new budget has a well-formed ring, and every operation keeps it so.
pub new-IsWellFormed :
    (f : F32) (ttl min_per_sec : ℕ) (p : f.Float) (now : ℕ) {b : Budget}
    → new f ttl min_per_sec p now ≡ some b
    → IsWellFormed b
unfolding new
new-IsWellFormed f ttl m p now e = ground arith

pub deposit-IsWellFormed : (b : Budget) (now : ℕ) → IsWellFormed b → IsWellFormed (deposit b now)
unfolding deposit
deposit-IsWellFormed b now w = ground (arith, advance-IsWellFormed b now w)

pub withdraw-IsWellFormed :
    (b : Budget) (now : ℕ) → IsWellFormed b → IsWellFormed (withdraw b now).0
unfolding withdraw
withdraw-IsWellFormed b now w = ground (arith, advance-IsWellFormed b now w)
