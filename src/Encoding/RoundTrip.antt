-- ===== src/Encoding/RoundTrip.antt =====
-- src/encoding.rs: the decoders of UTF-16 read back every text that is encoded in it.
use wrest.Encoding.Decoders.{
  words, from_le_bytes, from_be_bytes, is_high_surrogate, is_low_surrogate, from_surrogates,
  from_utf16_lossy, decode_utf16,
}
use wrest.Prelude.Text.{Text}
use wrest.Prelude.{
  ℕ, ◌+◌, ◌-◌, ◌/◌, ◌%◌, Bool, true, false, ◌&&◌, not, List, [], ◌∷◌, if◌then◌else◌, ltb, ◌≡◌, refl,
  ap, ◌∙◌, arith, All, Bool-cases, inl, inr,
}

-- A Unicode scalar value.
abbrev pub is_scalar : ℕ → Bool
is_scalar c = ltb c 0x110000 && not (is_high_surrogate c) && not (is_low_surrogate c)

-- The UTF-16 form of a text: a surrogate pair for each character above U+FFFF.
abbrev pub encode_utf16 : Text → List ℕ
encode_utf16 [] = []
encode_utf16 (c ∷ t) =
    if ltb c 0x10000
    then c ∷ encode_utf16 t
    else (0xD800 + (c - 0x10000) / 0x400) ∷ (0xDC00 + (c - 0x10000) % 0x400) ∷ encode_utf16 t

abbrev pub le_bytes : List ℕ → List ℕ
le_bytes [] = []
le_bytes (w ∷ ws) = w % 256 ∷ w / 256 ∷ le_bytes ws

abbrev pub be_bytes : List ℕ → List ℕ
be_bytes [] = []
be_bytes (w ∷ ws) = w / 256 ∷ w % 256 ∷ be_bytes ws

words-le_bytes : (ws : List ℕ) → words from_le_bytes (le_bytes ws) ≡ (ws, false)
unfolding words
words-le_bytes [] = refl
words-le_bytes (w ∷ ws) = rw (words-le_bytes ws) (ap (λ x. (x ∷ ws, false)) (omega arith))

words-be_bytes : (ws : List ℕ) → words from_be_bytes (be_bytes ws) ≡ (ws, false)
unfolding words
words-be_bytes [] = refl
words-be_bytes (w ∷ ws) = rw (words-be_bytes ws) (ap (λ x. (x ∷ ws, false)) (omega arith))

lossy-unit :
    (w : ℕ) (ws : List ℕ)
    → is_high_surrogate w ≡ false
    → is_low_surrogate w ≡ false
    → from_utf16_lossy (w ∷ ws) ≡ w ∷ from_utf16_lossy ws
unfolding from_utf16_lossy
lossy-unit w [] h l = rw (h, l)
lossy-unit w (v ∷ ws) h l = rw (h, l)

lossy-pair :
    (w v : ℕ) (ws : List ℕ)
    → is_high_surrogate w ≡ true
    → is_low_surrogate v ≡ true
    → from_utf16_lossy (w ∷ v ∷ ws) ≡ from_surrogates w v ∷ from_utf16_lossy ws
unfolding from_utf16_lossy
lossy-pair w v ws h l = rw (h, l)

high-half :
    (c : ℕ)
    → is_scalar c ≡ true
    → ltb c 0x10000 ≡ false
    → is_high_surrogate (0xD800 + (c - 0x10000) / 0x400) ≡ true
high-half c s h = ground arith

low-half : (c : ℕ) → is_low_surrogate (0xDC00 + (c - 0x10000) % 0x400) ≡ true
low-half c = ground arith

halves :
    (c : ℕ)
    → ltb c 0x10000 ≡ false
    → from_surrogates (0xD800 + (c - 0x10000) / 0x400) (0xDC00 + (c - 0x10000) % 0x400) ≡ c
halves c h = ground arith

scalar-unit :
    (c : ℕ) → is_scalar c ≡ true → (is_high_surrogate c ≡ false) × (is_low_surrogate c ≡ false)
scalar-unit c s = (ground arith, ground arith)

lossy-nil : from_utf16_lossy [] ≡ []
unfolding from_utf16_lossy
lossy-nil = refl

lossy-encode_utf16 :
    (t : Text) → All (λ c. is_scalar c ≡ true) t → from_utf16_lossy (encode_utf16 t) ≡ t
lossy-encode_utf16 [] s = lossy-nil
lossy-encode_utf16 (c ∷ t) s = elim (Bool-cases (ltb c 0x10000)) [
  | inl small ↦
      let (h, l) = scalar-unit c s.0 in
      rw small (lossy-unit c (encode_utf16 t) h l ∙ ap (◌∷◌ c) (lossy-encode_utf16 t s.1))
  | inr big ↦ rw big (
      lossy-pair _ _ (encode_utf16 t) (high-half c s.0 big) (low-half c)
      ∙ (ap (λ x. x ∷ from_utf16_lossy (encode_utf16 t)) (halves c big)
          ∙ ap (◌∷◌ c) (lossy-encode_utf16 t s.1)))
]

-- Little-endian and big-endian UTF-16 of a text of scalar values decode to that text.
pub decode_utf16-encode :
    (t : Text)
    → All (λ c. is_scalar c ≡ true) t
    → (decode_utf16 from_le_bytes (le_bytes (encode_utf16 t)) ≡ t)
      × (decode_utf16 from_be_bytes (be_bytes (encode_utf16 t)) ≡ t)
unfolding decode_utf16
decode_utf16-encode t s = (
  rw (words-le_bytes (encode_utf16 t)) (lossy-encode_utf16 t s),
  rw (words-be_bytes (encode_utf16 t)) (lossy-encode_utf16 t s),
)
