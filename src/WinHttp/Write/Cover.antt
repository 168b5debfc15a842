-- ===== src/WinHttp/Write/Cover.antt =====
-- src/winhttp.rs: a write loop that succeeds has written each byte once, in order, and it always ends.
use mathlib.Core.Path.{subst}
use wrest.Error.{Error}
use wrest.Prelude.Result.{Result, ok, err, Result-cases}
use wrest.Prelude.{
  ℕ, zero, suc, ◌+◌, ◌-◌, ◌≤◌, ◌<◌, true, List, [], ◌∷◌, Option, none, some, ◌≡◌, refl, sym, ap,
  ◌∙◌, arith, Bool-cases, inl, inr, ltb, is_some, if◌then◌else◌,
}
use wrest.Url.Types.{Url}
use wrest.WinHttp.Write.{Write, advance_write_offset, write_round, write_loop, write_data_with}

module _ (write_once : ℕ → ℕ → ℕ → Result Error ℕ) (data_ptr data_len : ℕ) (url : Url) where
  -- The writes from an offset to the end of the buffer: each starts where the one before ended, is given
  -- all that is left, and writes some of it.
  pub data Covers : ℕ → List Write → Type 0 where
    done : Covers data_len []
    more :
        {offset : ℕ} (w : Write) {ws : List Write}
        → w.ptr ≡ data_ptr + offset
        → w.len ≡ data_len - offset
        → 1 ≤ w.written
        → w.written ≤ w.len
        → Covers (offset + w.written) ws
        → Covers offset (w ∷ ws)

  advance-ok :
      (offset written next : ℕ)
      → advance_write_offset offset data_len written url ≡ ok next
      → (next ≡ offset + written)
        × (1 ≤ written)
        × (written ≤ data_len - offset)
        × (offset ≤ data_len)
  unfolding advance_write_offset
  advance-ok offset written next h = ground arith

  round-ok :
      (n offset : ℕ) (w : Write) (next : ℕ)
      → write_round write_once data_ptr data_len url n offset ≡ ok (w, next)
      → (w.ptr ≡ data_ptr + offset)
        × (w.len ≡ data_len - offset)
        × (1 ≤ w.written)
        × (w.written ≤ w.len)
        × (next ≡ offset + w.written)
        × (next ≤ data_len)
  unfolding write_round
  round-ok n offset w next h = ground (arith, advance-ok offset w.written next)

  abbrev pub loop : ℕ → ℕ → ℕ → List Write × Option (Result Error (Unit {0}))
  loop = write_loop write_once data_ptr data_len url

  -- The three ends of one round of the loop.
  data Turn (fuel n offset : ℕ) (l : List Write × Option (Result Error (Unit {0}))) : Type 0 where
    stop : data_len ≤ offset → l ≡ ([], some (ok tt)) → Turn fuel n offset l
    fail : (e : Error) → offset < data_len → l ≡ ([], some (err e)) → Turn fuel n offset l
    next_round :
        (w : Write)
        → w.ptr ≡ data_ptr + offset
        → w.len ≡ data_len - offset
        → 1 ≤ w.written
        → w.written ≤ w.len
        → offset + w.written ≤ data_len
        → l ≡ (
          w ∷ (loop fuel (suc n) (offset + w.written)).0,
          (loop fuel (suc n) (offset + w.written)).1,
        )
        → Turn fuel n offset l

  turn : (fuel n offset : ℕ) → Turn fuel n offset (loop (suc fuel) n offset)
  unfolding write_loop
  turn fuel n offset = elim (Bool-cases (ltb offset data_len)) [
    | inr ended ↦ stop (ground arith) (rw (ended, write_loop) refl)
    | inl going ↦ elim (Result-cases (write_round write_once data_ptr data_len url n offset)) [
      | inr (e, r) ↦ fail e (ground arith) (rw (going, r, write_loop) refl)
      | inl ((w, next), r) ↦
          let (p, l, pos, fits, next_is, inside) = round-ok n offset w next r in
          next_round w p l pos fits (omega (arith, next_is, inside)) (
            rw (going, r, write_loop)
              (ap (λ x. (w ∷ (loop fuel (suc n) x).0, (loop fuel (suc n) x).1)) next_is))
    ]
  ]

  ended-at :
      (offset : ℕ)
      → offset ≤ data_len
      → ◌≡◌ {A = Option (Result Error (Unit {0}))}
          (if ltb offset data_len then none else some (ok tt))
          (some (ok tt))
      → data_len ≡ offset
  ended-at offset le h = ground arith

  start :
      (n offset : ℕ) → loop 0 n offset ≡ ([], if ltb offset data_len then none else some (ok tt))
  unfolding write_loop
  start n offset = refl

  loop-Covers :
      (fuel n offset : ℕ)
      → offset ≤ data_len
      → (loop fuel n offset).1 ≡ some (ok tt)
      → Covers offset (loop fuel n offset).0
  loop-Covers zero n offset le h =
      let stopped = sym (ap (λ x. x.1) (start n offset)) ∙ h in
      subst (λ l. Covers offset l.0) (sym (start n offset))
        (subst (λ o. Covers o []) (ended-at offset le stopped) done)
  loop-Covers (suc fuel) n offset le h = elim (turn fuel n offset) [
    | stop over e ↦
        subst (λ l. Covers offset l.0) (sym e) (subst (λ o. Covers o []) (omega arith) done)
    | fail e _ l ↦ absurd (ground (arith, ap (λ x. x.1) l))
    | next_round w p l pos fits inside e ↦
        subst (λ x. Covers offset x.0) (sym e)
          (more w p l pos fits
            (loop-Covers fuel (suc n) (offset + w.written) inside (sym (ap (λ x. x.1) e) ∙ h)))
  ]

  loop-ends : (fuel n offset : ℕ) → data_len ≤ offset + fuel → is_some (loop fuel n offset).1 ≡ true
  loop-ends zero n offset le = rw (start n offset) (ground arith)
  loop-ends (suc fuel) n offset le = elim (turn fuel n offset) [
    | stop over e ↦ rw e refl
    | fail e _ l ↦ rw l refl
    | next_round w p l pos fits inside e ↦
        rw e (loop-ends fuel (suc n) (offset + w.written) (omega arith))
  ]

  -- Writing a buffer ends, whatever the writes return: with success or with an error.
  pub write_data_with-ends : is_some (write_data_with write_once data_ptr data_len url).1 ≡ true
  unfolding write_data_with
  write_data_with-ends = loop-ends data_len 0 0 (omega arith)

  -- When writing a buffer succeeds, the accepted writes cover it: each starts where the one before
  -- ended, is given all bytes that are left, and writes at least one of them and no more than those.
  pub write_data_with-Covers :
      (write_data_with write_once data_ptr data_len url).1 ≡ some (ok tt)
      → Covers 0 (write_data_with write_once data_ptr data_len url).0
  unfolding write_data_with
  write_data_with-Covers h = loop-Covers data_len 0 0 (omega arith) h
