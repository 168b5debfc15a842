-- ===== src/Encoding/Total.antt =====
-- src/encoding.rs, `decode_body`: every code page of the label table has a decoder.
use wrest.Encoding.{
  Abi, decode_icu_preferred, run_backend, decode_codepage, decode_labelled, decode_body, strip_bom,
}
use wrest.Encoding.Backend.{CodepageBackend, icu_required, icu_preferred, nls, codepage_backend}
use wrest.Encoding.Labels.{
  cp_x_user_defined, cp_replacement, cp_utf16_le, cp_utf16_be, cp_iso_8859_16, is_one_of,
  is_utf8_label, arms, first_arm, whatwg_label_to_codepage,
}
use wrest.Error.{Error}
use wrest.Prelude.Result.{Result, Result-cases, ok, err}
use wrest.Prelude.Text.{Text, text_eq, text_eq_iff}
use wrest.Prelude.{
  ℕ, Bool, true, false, ◌||◌, List, [], ◌∷◌, Option, none, some, if◌then◌else◌, ◌≡◌, refl, all,
  ◌==◌, arith, is_some, Bool-cases, Option-cases, inl, inr, &&-true,
}

-- Whether `decode_codepage` knows what to do with a code page.
abbrev is_decoded : ℕ → Bool
is_decoded c =
    c == cp_x_user_defined
    || c == cp_replacement
    || c == cp_utf16_le
    || c == cp_utf16_be
    || c == cp_iso_8859_16
    || is_some (codepage_backend c)

one_of-all :
    (p : Text → Bool) (labels : List Text) (label : Text)
    → all p labels ≡ true
    → is_one_of labels label ≡ true
    → p label ≡ true
unfolding is_one_of
one_of-all p [] label h e = ground arith
one_of-all p (l ∷ labels) label h e = elim (Bool-cases (text_eq label l)) [
  | inl same ↦ rw ((text_eq_iff label l).0 same) ((&&-true h).0)
  | inr other ↦ one_of-all p labels label ((&&-true h).1) (ground arith)
]

-- A property of rows, by the code page or by the labels.
abbrev row_fits : (ℕ → Bool) → (Text → Bool) → List Text × ℕ → Bool
row_fits q p (labels, codepage) = q codepage || all p labels

else-all : {a b : Bool} → (a || b) ≡ true → a ≡ false → b ≡ true
else-all h n = ground arith

first_arm-all :
    (q : ℕ → Bool) (p : Text → Bool) (rows : List (List Text × ℕ)) (label : Text) (c : ℕ)
    → all (row_fits q p) rows ≡ true
    → first_arm rows label ≡ some c
    → p label ≡ false
    → q c ≡ true
unfolding first_arm
first_arm-all q p [] label c h e n = ground arith
first_arm-all q p ((labels, page) ∷ rows) label c h e n =
    elim (Bool-cases (is_one_of labels label)) [
      | inl found ↦ elim (Bool-cases (q page)) [
        | inl y ↦ ground arith
        | inr other ↦
            let fits = one_of-all p labels label (else-all (&&-true h).0 other) found in
            ground arith
      ]
      | inr other ↦ first_arm-all q p rows label c ((&&-true h).1) (ground arith) n
    ]

arms-fit : all (row_fits is_decoded is_utf8_label) arms ≡ true
unfolding codepage_backend is_utf8_label is_one_of text_eq
arms-fit = refl

-- The label table gives no code page without a decoder, but for the labels of UTF-8.
pub codepage-is_decoded :
    (label : Text) (c : ℕ)
    → whatwg_label_to_codepage label ≡ some c
    → is_utf8_label label ≡ false
    → is_decoded c ≡ true
unfolding whatwg_label_to_codepage
codepage-is_decoded label c e n = first_arm-all is_decoded is_utf8_label arms label c arms-fit e n

-- What an error of `decode_body` is: one of a platform decoder, on these bytes.
pub data IsAbiError (abi : Abi) (bytes : List ℕ) (e : Error) : Type 0 where
  icu : (name : Text) → abi.icu_decode name bytes ≡ err e → IsAbiError abi bytes e
  icu_if_available :
      (name : Text) → abi.icu_decode_if_available name bytes ≡ err e → IsAbiError abi bytes e
  nls_page : (c : ℕ) → abi.multi_byte_to_string c bytes ≡ err e → IsAbiError abi bytes e

rest-true :
    {a b c d e f : Bool}
    → a ≡ false
    → b ≡ false
    → c ≡ false
    → d ≡ false
    → e ≡ false
    → (a || b || c || d || e || f) ≡ true
    → f ≡ true
rest-true ha hb hc hd he h = ground arith

module _ (abi : Abi) where
  preferred-err :
      (c : ℕ) (name : Text) (bytes : List ℕ) (e : Error)
      → decode_icu_preferred abi c name bytes ≡ err e
      → IsAbiError abi bytes e
  unfolding decode_icu_preferred
  preferred-err c name bytes e h = elim (Result-cases (abi.icu_decode_if_available name bytes)) [
    | inr (_, r) ↦ icu_if_available name (ground arith)
    | inl (none, r) ↦ nls_page c (ground arith)
    | inl (some s, r) ↦ ground arith
  ]

  run_backend-err :
      (c : ℕ) (bytes : List ℕ) (o : Option CodepageBackend) (e : Error)
      → is_some o ≡ true
      → run_backend abi c bytes o ≡ err e
      → IsAbiError abi bytes e
  unfolding run_backend
  run_backend-err c bytes (some (icu_required name)) e i h = icu name h
  run_backend-err c bytes (some (icu_preferred name)) e i h = preferred-err c name bytes e h
  run_backend-err c bytes (some nls) e i h = nls_page c h
  run_backend-err c bytes none e i h = ground arith

  else-err :
      (t : Bool) (s : Text) (r : Result Error Text) (e : Error)
      → (if t then ok s else r) ≡ err e
      → (t ≡ false) × (r ≡ err e)
  else-err true s r e h = ground arith
  else-err false s r e h = (refl, h)

  decode_codepage-err :
      (c : ℕ) (bytes : List ℕ) (e : Error)
      → is_decoded c ≡ true
      → decode_codepage abi c bytes ≡ err e
      → IsAbiError abi bytes e
  unfolding decode_codepage
  decode_codepage-err c bytes e i h =
      let (n₁, h₁) = else-err (c == cp_x_user_defined) _ _ e h in
      let (n₂, h₂) = else-err (c == cp_replacement) _ _ e h₁ in
      let (n₃, h₃) = else-err (c == cp_utf16_le) _ _ e h₂ in
      let (n₄, h₄) = else-err (c == cp_utf16_be) _ _ e h₃ in
      let (n₅, h₅) = else-err (c == cp_iso_8859_16) _ _ e h₄ in
      run_backend-err c bytes (codepage_backend c) e (rest-true n₁ n₂ n₃ n₄ n₅ i) h₅

  decode_labelled-err :
      (bytes : List ℕ) (label : Text) (e : Error)
      → decode_labelled abi bytes label ≡ err e
      → IsAbiError abi bytes e
  unfolding decode_labelled
  decode_labelled-err bytes label e h = elim (Bool-cases (is_utf8_label label)) [
    | inl y ↦ ground arith
    | inr n ↦ elim (Option-cases (whatwg_label_to_codepage label)) [
      | inl none_found ↦ ground arith
      | inr (c, found) ↦
          decode_codepage-err c bytes e (codepage-is_decoded label c found n) (ground arith)
    ]
  ]

  -- `decode_body` fails only with an error of a platform decoder on the bytes after the byte-order
  -- mark: the branch for a code page without a decoder is never taken.
  pub decode_body-err :
      (bytes : List ℕ) (charset : Text) (e : Error)
      → decode_body abi bytes charset ≡ err e
      → IsAbiError abi (strip_bom bytes charset).0 e
  unfolding decode_body
  decode_body-err [] charset e h = ground arith
  decode_body-err (b ∷ bytes) charset e h = decode_labelled-err _ _ e h
