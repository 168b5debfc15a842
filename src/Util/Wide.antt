-- ===== src/Util/Wide.antt =====
-- src/util.rs: what the text of a wide string is, by the way it is given.
use wrest.Encoding.Decoders.{from_utf16_lossy, is_high_surrogate, is_low_surrogate}
use wrest.Prelude.Result.{ok}
use wrest.Prelude.Text.{Text}
use wrest.Prelude.{
  ℕ, false, List, [], ◌∷◌, ◌++◌, Option, none, some, ◌==◌, ◌≡◌, refl, ap, take, length, All, arith,
  Bool-cases, Option-cases, inl, inr,
}
use wrest.Util.{from_utf16, wcslen, strip_nul, wide_slice, wide_to_string, wide_to_string_lossy}

-- Where the strict decoder gives a text, the lossy one gives the same.
from_utf16-lossy : (ws : List ℕ) (t : Text) → from_utf16 ws ≡ some t → from_utf16_lossy ws ≡ t
unfolding from_utf16 from_utf16_lossy
from_utf16-lossy [] t e = ground arith
from_utf16-lossy (w ∷ []) t e = ground arith
from_utf16-lossy (w ∷ v ∷ rest) t e = elim (Bool-cases (is_high_surrogate w)) [
  | inl h ↦ elim (Bool-cases (is_low_surrogate v)) [
    | inl l ↦ elim (Option-cases (from_utf16 rest)) [
      | inl n ↦ ground arith
      | inr (t', st) ↦ grind (arith, from_utf16-lossy rest t' st)
    ]
    | inr l ↦ ground arith
  ]
  | inr h ↦ elim (Option-cases (from_utf16 (v ∷ rest))) [
    | inl n ↦ ground arith
    | inr (t', st) ↦ grind (arith, from_utf16-lossy (v ∷ rest) t' st)
  ]
]

wcslen-terminated :
    (s rest : List ℕ) → All (λ w. (w == 0) ≡ false) s → wcslen (s ++ (0 ∷ rest)) ≡ length s
unfolding wcslen
wcslen-terminated [] rest h = refl
wcslen-terminated (w ∷ s) rest h = rw h.0 (ap ℕ.suc (wcslen-terminated s rest h.1))

take-length : (s rest : List ℕ) → take (length s) (s ++ rest) ≡ s
take-length [] rest = refl
take-length (w ∷ s) rest = ap (◌∷◌ w) (take-length s rest)

strip_nul-none : (s : List ℕ) → All (λ w. (w == 0) ≡ false) s → strip_nul s ≡ s
unfolding strip_nul
strip_nul-none [] h = refl
strip_nul-none (w ∷ []) h = rw h.0 refl
strip_nul-none (w ∷ v ∷ s) h = ap (◌∷◌ w) (strip_nul-none (v ∷ s) h.1)

-- Without a count, the units before the first NUL are those of the string.
wide_slice-terminated :
    (s rest : List ℕ) → All (λ w. (w == 0) ≡ false) s → wide_slice (some (s ++ (0 ∷ rest))) none ≡ s
unfolding wide_slice
wide_slice-terminated s rest h =
    rw (wcslen-terminated s rest h) (rw (take-length s (0 ∷ rest)) (strip_nul-none s h))

-- Where `wide_to_string` gives a text, `wide_to_string_lossy` gives the same.
wide_to_string-lossy :
    (ptr : Option (List ℕ)) (char_count : Option ℕ) (t : Text)
    → wide_to_string ptr char_count ≡ ok t
    → wide_to_string_lossy ptr char_count ≡ t
unfolding wide_to_string wide_to_string_lossy
wide_to_string-lossy ptr char_count t e =
    elim (Option-cases (from_utf16 (wide_slice ptr char_count))) [
      | inl n ↦ ground arith
      | inr (t', st) ↦ grind (arith, from_utf16-lossy (wide_slice ptr char_count) t' st)
    ]
