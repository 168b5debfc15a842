-- ===== src/Encoding/Utf8RoundTrip.antt =====
-- src/encoding.rs: the branch for UTF-8 reads back every text that is encoded in it.
use wrest.Encoding.RoundTrip.{is_scalar}
use wrest.Encoding.{decode_utf8}
use wrest.Encoding.Utf8.{Need, ready, more, lead, continue_with, feed, scan, collect, from_utf8}
use wrest.Prelude.Text.{Text}
use wrest.Prelude.{
  ℕ, suc, ◌+◌, ◌*◌, ◌-◌, ◌/◌, ◌%◌, true, false, List, [], ◌∷◌, ◌++◌, if◌then◌else◌, leb, ltb, ◌==◌,
  ◌≡◌, refl, ap, ◌∙◌, arith, All, Bool-cases, inl, inr, map, some, Option,
}

-- The UTF-8 form of a text.
abbrev pub encode_char : ℕ → List ℕ
encode_char c =
    if ltb c 0x80
    then c ∷ []
    else if ltb c 0x800
    then (0xC0 + c / 64) ∷ (0x80 + c % 64) ∷ []
    else if ltb c 0x10000
    then (0xE0 + c / 4096) ∷ (0x80 + c / 64 % 64) ∷ (0x80 + c % 64) ∷ []
    else (0xF0 + c / 262144) ∷ (0x80 + c / 4096 % 64) ∷ (0x80 + c / 64 % 64) ∷ (0x80 + c % 64) ∷ []

abbrev pub encode_utf8 : Text → List ℕ
encode_utf8 [] = []
encode_utf8 (c ∷ t) = encode_char c ++ encode_utf8 t

feed-one : (c : ℕ) → ltb c 0x80 ≡ true → feed ready c ≡ (some c ∷ [], ready)
unfolding feed lead
feed-one c h = rw h

last-byte :
    (bits low high b : ℕ)
    → leb low b ≡ true
    → leb b high ≡ true
    → feed (more 0 bits low high) b ≡ (some (64 * bits + (b - 0x80)) ∷ [], ready)
unfolding feed continue_with
last-byte bits low high b l h = rw (l, h)

next-byte :
    (k bits low high b : ℕ)
    → leb low b ≡ true
    → leb b high ≡ true
    → feed (more (suc k) bits low high) b ≡ ([], more k (64 * bits + (b - 0x80)) 0x80 0xBF)
unfolding feed continue_with
next-byte k bits low high b l h = rw (l, h)

-- The bounds of the second byte after the first byte of three or of four.
abbrev low3 : ℕ → ℕ
low3 q = if q == 0 then 0xA0 else 0x80

abbrev high3 : ℕ → ℕ
high3 q = if q == 13 then 0x9F else 0xBF

abbrev low4 : ℕ → ℕ
low4 q = if q == 0 then 0x90 else 0x80

abbrev high4 : ℕ → ℕ
high4 q = if q == 4 then 0x8F else 0xBF

lead2 : (q : ℕ) → leb 2 q ≡ true → ltb q 32 ≡ true → lead (0xC0 + q) ≡ ([], more 0 q 0x80 0xBF)
unfolding lead
lead2 q l h = ground arith

lead3 : (q : ℕ) → ltb q 16 ≡ true → lead (0xE0 + q) ≡ ([], more 1 q (low3 q) (high3 q))
unfolding lead
lead3 q h = ground arith

lead4 : (q : ℕ) → ltb q 5 ≡ true → lead (0xF0 + q) ≡ ([], more 2 q (low4 q) (high4 q))
unfolding lead
lead4 q h = ground arith

scan-step :
    (n : Need) (b : ℕ) (rest : List ℕ) {out : List (Option ℕ)} {n' : Need}
    → feed n b ≡ (out, n')
    → scan n (b ∷ rest) ≡ out ++ scan n' rest
unfolding scan
scan-step ready b rest h = rw h
scan-step (more k bits low high) b rest h = rw h

feed-lead : (b : ℕ) → feed ready b ≡ lead b
unfolding feed
feed-lead b = refl

scan-char1 :
    (c : ℕ) (rest : List ℕ) → ltb c 0x80 ≡ true → scan ready (c ∷ rest) ≡ some c ∷ scan ready rest
scan-char1 c rest h = scan-step ready c rest (feed-one c h)

scan-char2 :
    (c : ℕ) (rest : List ℕ)
    → ltb c 0x80 ≡ false
    → ltb c 0x800 ≡ true
    → scan ready ((0xC0 + c / 64) ∷ (0x80 + c % 64) ∷ rest) ≡ some c ∷ scan ready rest
scan-char2 c rest h₁ h₂ =
    scan-step ready _ _ (feed-lead _ ∙ lead2 (c / 64) (ground arith) (ground arith))
    ∙ (scan-step _ _ rest (last-byte (c / 64) _ _ _ (ground arith) (ground arith))
        ∙ ap (λ x. some x ∷ scan ready rest) (omega arith))

scan-char3 :
    (c : ℕ) (rest : List ℕ)
    → is_scalar c ≡ true
    → ltb c 0x800 ≡ false
    → ltb c 0x10000 ≡ true
    → scan ready ((0xE0 + c / 4096) ∷ (0x80 + c / 64 % 64) ∷ (0x80 + c % 64) ∷ rest)
      ≡ some c ∷ scan ready rest
scan-char3 c rest s h₁ h₂ =
    scan-step ready _ _ (feed-lead _ ∙ lead3 (c / 4096) (ground arith))
    ∙ (scan-step _ _ _ (next-byte 0 (c / 4096) _ _ _ (ground arith) (ground arith))
        ∙ (scan-step _ _ rest (
              last-byte (64 * (c / 4096) + (0x80 + c / 64 % 64 - 0x80)) _ _ _ (ground arith)
                (ground arith))
            ∙ ap (λ x. some x ∷ scan ready rest) (omega arith)))

scan-char4 :
    (c : ℕ) (rest : List ℕ)
    → is_scalar c ≡ true
    → ltb c 0x10000 ≡ false
    → scan ready (
        (0xF0 + c / 262144)
        ∷ (0x80 + c / 4096 % 64)
        ∷ (0x80 + c / 64 % 64)
        ∷ (0x80 + c % 64)
        ∷ rest)
      ≡ some c ∷ scan ready rest
scan-char4 c rest s h =
    scan-step ready _ _ (feed-lead _ ∙ lead4 (c / 262144) (ground arith))
    ∙ (scan-step _ _ _ (next-byte 1 (c / 262144) _ _ _ (ground arith) (ground arith))
        ∙ (scan-step _ _ _ (
              next-byte 0 (64 * (c / 262144) + (0x80 + c / 4096 % 64 - 0x80)) _ _ _ (ground arith)
                (ground arith))
            ∙ (scan-step _ _ rest (
                  last-byte
                    (64 * (64 * (c / 262144) + (0x80 + c / 4096 % 64 - 0x80))
                      + (0x80 + c / 64 % 64 - 0x80))
                    _ _ _ (ground arith) (ground arith))
                ∙ ap (λ x. some x ∷ scan ready rest) (omega arith))))

scan-char :
    (c : ℕ) (rest : List ℕ)
    → is_scalar c ≡ true
    → scan ready (encode_char c ++ rest) ≡ some c ∷ scan ready rest
scan-char c rest s = elim (Bool-cases (ltb c 0x80)) [
  | inl h₁ ↦ rw h₁ (scan-char1 c rest h₁)
  | inr h₁ ↦ elim (Bool-cases (ltb c 0x800)) [
    | inl h₂ ↦ rw (h₁, h₂) (scan-char2 c rest h₁ h₂)
    | inr h₂ ↦ elim (Bool-cases (ltb c 0x10000)) [
      | inl h₃ ↦ rw (h₁, h₂, h₃) (scan-char3 c rest s h₂ h₃)
      | inr h₃ ↦ rw (h₁, h₂, h₃) (scan-char4 c rest s h₃)
    ]
  ]
]

scan-nil : scan ready [] ≡ []
unfolding scan
scan-nil = refl

scan-encode_utf8 :
    (t : Text) → All (λ c. is_scalar c ≡ true) t → scan ready (encode_utf8 t) ≡ map some t
scan-encode_utf8 [] s = scan-nil
scan-encode_utf8 (c ∷ t) s =
    scan-char c (encode_utf8 t) s.0 ∙ ap (◌∷◌ (some c)) (scan-encode_utf8 t s.1)

collect-some : (t : Text) → collect (map some t) ≡ some t
unfolding collect
collect-some [] = refl
collect-some (c ∷ t) = rw (collect-some t) refl

from_utf8-encode : (t : Text) → All (λ c. is_scalar c ≡ true) t → from_utf8 (encode_utf8 t) ≡ some t
unfolding from_utf8
from_utf8-encode t s = ap collect (scan-encode_utf8 t s) ∙ collect-some t

-- UTF-8 of a text of scalar values is valid, and the branch for UTF-8 decodes it to that text.
pub decode_utf8-encode :
    (t : Text)
    → All (λ c. is_scalar c ≡ true) t
    → (from_utf8 (encode_utf8 t) ≡ some t) × (decode_utf8 (encode_utf8 t) ≡ t)
unfolding decode_utf8
decode_utf8-encode t s = let valid = from_utf8-encode t s in (valid, rw (decode_utf8, valid) refl)
