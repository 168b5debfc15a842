-- ===== src/Threadpool/DueTime.antt =====
-- src/threadpool.rs: what the due time of a timer says.
use wrest.Prelude.Int.{ℤ, pos, negsuc}
use wrest.Prelude.{
  ℕ, zero, suc, ◌+◌, ◌-◌, ◌*◌, ◌/◌, ◌%◌, ◌<◌, ◌≤◌, ◌≡◌, refl, if◌then◌else◌, ltb, arith, min, ap,
  ◌∙◌,
}
use wrest.Threadpool.{
  FileTime, due_time, ticks, halves, to_le_bytes, from_le_bytes, negated_bits, i64_max,
}

-- How the system reads a `FILETIME`: a signed number of 64 bits, where a negative one is relative.
abbrev pub signed_64 : ℕ → ℤ
signed_64 w = if ltb w 9223372036854775808 then pos w else negsuc (18446744073709551616 - w - 1)

abbrev pub as_i64 : FileTime → ℤ
as_i64 ft = signed_64 (ft.dw_low_date_time + 4294967296 * ft.dw_high_date_time)

abbrev pub negate : ℕ → ℤ
negate zero = pos 0
negate (suc n) = negsuc n

four_bytes : (w : ℕ) → from_le_bytes (to_le_bytes 4 w) ≡ w % 4294967296
four_bytes w = omega arith

ticks-min : (nanos : ℕ) → ticks nanos ≡ min (nanos / 100) i64_max
unfolding ticks
ticks-min nanos = ground arith

negated-lt : (n : ℕ) → negated_bits n < 18446744073709551616
negated-lt n = omega arith

low_half : (w : ℕ) → (halves (to_le_bytes 8 w)).dw_low_date_time ≡ w % 4294967296
low_half w = four_bytes w

high_half : (w : ℕ) → (halves (to_le_bytes 8 w)).dw_high_date_time ≡ (w / 4294967296) % 4294967296
high_half w = four_bytes (w / 256 / 256 / 256 / 256) ∙ omega arith

both_halves :
    (w low high : ℕ)
    → w < 18446744073709551616
    → low ≡ w % 4294967296
    → high ≡ (w / 4294967296) % 4294967296
    → low + 4294967296 * high ≡ w
both_halves w low high small l h = omega arith

signed_64-negated : (n : ℕ) → n ≤ i64_max → signed_64 (negated_bits n) ≡ negate n
signed_64-negated zero small = refl
signed_64-negated (suc n) small =
    let e : negated_bits (suc n) ≡ 18446744073709551615 - n = omega arith in rw e (ground arith)

as_i64-negated : (n : ℕ) → n ≤ i64_max → as_i64 (halves (to_le_bytes 8 (negated_bits n))) ≡ negate n
as_i64-negated n small =
    ap signed_64 (
      both_halves (negated_bits n) _ _ (negated-lt n) (low_half (negated_bits n))
        (high_half (negated_bits n)))
    ∙ signed_64-negated n small

-- The due time of a delay, read as the system reads it, is the negative of the delay in whole ticks of
-- 100 ns, or of `i64::MAX` ticks where it is longer, so that it never stands for an absolute time in the
-- future; each half fits 32 bits.
pub due_time_lem :
    (nanos : ℕ)
    → (as_i64 (due_time nanos) ≡ negate (min (nanos / 100) i64_max))
      × ((due_time nanos).dw_low_date_time < 4294967296)
      × ((due_time nanos).dw_high_date_time < 4294967296)
unfolding due_time
due_time_lem nanos =
    let e = ticks-min nanos in
    let w = negated_bits (ticks nanos) in
    (
      as_i64-negated (ticks nanos) (omega arith) ∙ ap negate e,
      (let l = low_half w in omega arith),
      (let h = high_half w in omega arith),
    )
