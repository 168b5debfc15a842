-- ===== src/Prelude/Int.antt =====
-- Signed integers over the native numbers, with the saturating operations of Rust's `isize`.
use Prim.Native.Nat.{ℕ, suc, ◌+◌, ◌-◌, ◌*◌, ◌≤◌}
use mathlib.Core.Bool.{Bool}
use wrest.Prelude.Tests.{leb, if◌then◌else◌}

-- `negsuc n` is -(n + 1).
pub data ℤ : Type 0 where
  pos : ℕ → ℤ
  negsuc : ℕ → ℤ

abbrev pub pos_part : ℤ → ℕ
pos_part (pos n) = n
pos_part (negsuc n) = 0

abbrev pub neg_part : ℤ → ℕ
neg_part (pos n) = 0
neg_part (negsuc n) = suc n

-- a - b, as an integer.
abbrev pub sub_ℕ : ℕ → ℕ → ℤ
sub_ℕ a b = if leb b a then pos (a - b) else negsuc (b - a - 1)

infix 50 ◌≤ℤ◌
abbrev pub ◌≤ℤ◌ : ℤ → ℤ → Type 0
a ≤ℤ b = pos_part a + neg_part b ≤ pos_part b + neg_part a

abbrev pub lebℤ : ℤ → ℤ → Bool
lebℤ a b = leb (pos_part a + neg_part b) (pos_part b + neg_part a)

-- `isize::MAX`, on the 64-bit target; `isize::MIN` is `negsuc isize_max`.
abbrev pub isize_max : ℕ
isize_max = 9223372036854775807

-- The nearest `isize` to p - n.
abbrev pub clamp : ℕ → ℕ → ℤ
clamp p n =
    if leb n p
    then pos (if leb (p - n) isize_max then p - n else isize_max)
    else negsuc (if leb (n - p - 1) isize_max then n - p - 1 else isize_max)

-- `isize::saturating_add` and `isize::saturating_sub`.
unfoldable pub saturating_add : ℤ → ℤ → ℤ
saturating_add a b = clamp (pos_part a + pos_part b) (neg_part a + neg_part b)

unfoldable pub saturating_sub : ℤ → ℤ → ℤ
saturating_sub a b = clamp (pos_part a + neg_part b) (neg_part a + pos_part b)

-- `isize::saturating_mul` at operands that are not negative.
unfoldable pub saturating_mul : ℕ → ℕ → ℕ
saturating_mul a b = let p = a * b in if leb p isize_max then p else isize_max
