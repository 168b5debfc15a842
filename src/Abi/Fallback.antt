-- ===== src/Abi/Fallback.antt =====
-- src/abi/encoding.rs with src/encoding.rs: when the code page of the system decodes in place of ICU,
-- and what becomes of an open converter.
use wrest.Abi.Decode.{
  i32_max, icu_too_large, conversion_failed, cannot_open, decimal_i32, or_zero, Nls, IcuFunctions,
  opened, closed, is_status, is_failure, multi_byte_to_string, decode_with_icu, convert_with,
  icu_decode, icu_decode_if_available, platform,
}
use wrest.Encoding.Backend.{icu_preferred}
use wrest.Encoding.{run_backend}
use wrest.Error.{Error}
use wrest.Prelude.Result.{Result, ok, err, ◌>>=◌}
use wrest.Prelude.Text.{Text, codes}
use wrest.Util.{string_from_utf16}
use wrest.Prelude.{
  ℕ, ◌+◌, take, length, leb, Bool, true, false, List, [], ◌∷◌, Option, none, some, if◌then◌else◌,
  ◌≡◌, refl, arith, is_empty_list, ◌⊎◌, inl, inr, Bool-cases, Option-cases,
}

-- Whether ICU was loaded and has the converter.
abbrev pub has_converter : Option IcuFunctions → Text → Bool
has_converter none name = false
has_converter (some icu) name = elim (icu.ucnv_open name).1 [
  | none ↦ if is_status icu.u_file_access_error (icu.ucnv_open name).0 then false else true
  | some _ ↦ true
]

-- A text or an error, and never the answer that there is no converter.
abbrev Decides : Result Error (Option Text) → Type 0
Decides r = ((s : Text) × (r ≡ ok (some s))) ⊎ ((e : Error) × (r ≡ err e))

guarded-Decides :
    (too_large failed : Bool) (e f : Error) (r : Result Error Text)
    → Decides (if too_large then err e else if failed then err f else (r >>= λ s. ok (some s)))
guarded-Decides true _ e f r = inr (e, refl)
guarded-Decides false true e f r = inr (f, refl)
guarded-Decides false false e f (ok s) = inl (s, refl)
guarded-Decides false false e f (err failure) = inr (failure, refl)

convert_with-Decides :
    (icu : IcuFunctions) (cnv : ℕ) (name : Text) (data_bytes : List ℕ)
    → Decides (convert_with icu cnv name data_bytes)
unfolding convert_with
convert_with-Decides icu cnv name data_bytes =
    guarded-Decides (leb i32_max (length data_bytes))
      (is_failure (icu.ucnv_to_u_chars cnv (length data_bytes + 1) data_bytes).status)
      (icu_too_large (length data_bytes))
      (conversion_failed name (icu.ucnv_to_u_chars cnv (length data_bytes + 1) data_bytes).status)
      (let answer = icu.ucnv_to_u_chars cnv (length data_bytes + 1) data_bytes in
        string_from_utf16 (take (or_zero answer.written) answer.buf)
          (codes "ICU produced invalid UTF-16"))

checked-Decides :
    (failed : Bool) (e : Error) (r : Result Error (Option Text))
    → Decides r
    → Decides (if failed then err e else r)
checked-Decides true e r d = inr (e, refl)
checked-Decides false e r d = d

-- What an ICU that is loaded makes of the data, where it has the converter.
decode_with_icu-Decides :
    (icu : IcuFunctions) (name : Text) (data_bytes : List ℕ)
    → has_converter (some icu) name ≡ true
    → Decides (decode_with_icu icu name data_bytes).1
unfolding decode_with_icu
decode_with_icu-Decides icu name data_bytes has = elim (Option-cases (icu.ucnv_open name).1) [
  | inl n ↦ inr (cannot_open name (decimal_i32 (icu.ucnv_open name).0), ground arith)
  | inr (cnv, s) ↦
      rw (s, decode_with_icu)
        (checked-Decides (is_failure (icu.ucnv_open name).0)
          (cannot_open name (decimal_i32 (icu.ucnv_open name).0))
          (convert_with icu cnv name data_bytes) (convert_with-Decides icu cnv name data_bytes))
]

decode_with_icu-none :
    (icu : IcuFunctions) (name : Text) (data_bytes : List ℕ)
    → has_converter (some icu) name ≡ false
    → (decode_with_icu icu name data_bytes).1 ≡ ok none
unfolding decode_with_icu
decode_with_icu-none icu name data_bytes lacks = elim (Option-cases (icu.ucnv_open name).1) [
  | inl n ↦ ground arith
  | inr (cnv, s) ↦ ground arith
]

-- For a code page that prefers ICU, data is decoded as by the converter of ICU, its errors included; the
-- code page of the system decodes it only where ICU was not loaded or does not have the converter.
pub run_backend-fallback :
    (nls : Nls) (loaded : Option IcuFunctions) (codepage : ℕ) (name : Text) (data_bytes : List ℕ)
    → is_empty_list data_bytes ≡ false
    → run_backend (platform nls loaded) codepage data_bytes (some (icu_preferred name)) ≡ (
        if has_converter loaded name
        then icu_decode loaded name data_bytes
        else multi_byte_to_string nls codepage data_bytes)
unfolding run_backend wrest.Encoding.decode_icu_preferred platform icu_decode
    icu_decode_if_available decode_with_icu
run_backend-fallback nls none codepage name data_bytes nonempty = rw nonempty refl
run_backend-fallback nls (some icu) codepage name data_bytes nonempty =
    elim (Bool-cases (has_converter (some icu) name)) [
      | inr lacks ↦ rw (nonempty, lacks, decode_with_icu-none icu name data_bytes lacks) refl
      | inl has ↦ elim (decode_with_icu-Decides icu name data_bytes has) [
        | inl (s, went) ↦ rw (nonempty, has, went) refl
        | inr (e, failed) ↦ rw (nonempty, has, failed) refl
      ]
    ]

-- A converter that is opened is closed once, on every path.
decode_with_icu-closes :
    (icu : IcuFunctions) (name : Text) (data_bytes : List ℕ)
    → ((decode_with_icu icu name data_bytes).0 ≡ [])
      ⊎ ((cnv : ℕ) × ((decode_with_icu icu name data_bytes).0 ≡ opened cnv ∷ closed cnv ∷ []))
unfolding decode_with_icu
decode_with_icu-closes icu name data_bytes = elim (Option-cases (icu.ucnv_open name).1) [
  | inl n ↦ inl (rw (n, decode_with_icu) refl)
  | inr (cnv, s) ↦ inr (cnv, rw (s, decode_with_icu) refl)
]
