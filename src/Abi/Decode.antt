-- ===== src/Abi/Decode.antt =====
-- src/abi/encoding.rs: `MultiByteToWideChar` and the converters of the system's ICU. What the functions of
-- the operating system answer is a parameter; an answer has the buffer that was filled.
use wrest.Encoding.{Abi}
use wrest.Error.{Error, ErrorKind, message, with_kind}
use wrest.Prelude.Int.{ℤ, pos, negsuc}
use wrest.Prelude.Result.{Result, ok, err, ok_or, ◌>>=◌}
use wrest.Prelude.Text.{Text, codes, decimal}
use wrest.Prelude.{
  ℕ, zero, suc, ◌+◌, Bool, false, List, [], ◌∷◌, ◌++◌, Option, none, some, if◌then◌else◌, leb, ltb,
  ◌==◌, take, length, min, is_empty_list,
}
use wrest.Util.{string_from_utf16}

abbrev pub i32_max : ℕ
i32_max = 2147483647

abbrev pub decode_error : Text → Error
decode_error s = with_kind ErrorKind.decode (message s)

-- `{}` of an `i32`.
abbrev pub decimal_i32 : ℤ → Text
decimal_i32 (pos n) = decimal n
decimal_i32 (negsuc n) = codes "-" ++ decimal (suc n)

-- `usize::try_from` with the test for more than zero.
abbrev pub positive : ℤ → Option ℕ
positive (pos zero) = none
positive (pos (suc n)) = some (suc n)
positive (negsuc _) = none

-- `usize::try_from(n).unwrap_or(0)`
abbrev pub or_zero : ℤ → ℕ
or_zero (pos n) = n
or_zero (negsuc _) = 0

-- Whether a status of ICU is an error; warnings are negative.
abbrev pub is_failure : ℤ → Bool
is_failure (pos n) = ltb 0 n
is_failure (negsuc _) = false

abbrev pub is_status : ℕ → ℤ → Bool
is_status code (pos n) = n == code
is_status code (negsuc _) = false

-- `MultiByteToWideChar`, without a buffer and with one of the given number of units.
pub record Nls : Type 0 where
  pub query : ℕ → List ℕ → ℤ
  pub convert : ℕ → List ℕ → ℕ → ℤ × List ℕ

pub record Conversion : Type 0 where
  pub status : ℤ
  pub written : ℤ
  pub buf : List ℕ

-- The three exports of icu.dll, and the status for a converter that is not there. A converter is a
-- number that stands for its pointer, `none` for null.
pub record IcuFunctions : Type 0 where
  pub u_file_access_error : ℕ
  pub ucnv_open : Text → ℤ × Option ℕ
  pub ucnv_to_u_chars : ℕ → ℕ → List ℕ → Conversion

-- The calls that take or give back a converter.
pub data IcuCall : Type 0 where
  opened closed : ℕ → IcuCall

abbrev pub nls_failed : ℕ → Error
nls_failed codepage =
    decode_error (codes "MultiByteToWideChar failed for code page " ++ decimal codepage)

abbrev pub nls_too_large : ℕ → Error
nls_too_large n =
    decode_error
      (codes "input too large (" ++ (decimal n ++ codes " bytes) for MultiByteToWideChar"))

module _ (nls : Nls) where
  unfoldable pub multi_byte_to_string : ℕ → List ℕ → Result Error Text
  unfolding string_from_utf16
  multi_byte_to_string codepage data_bytes =
      let converted : Result Error Text = (do
        buf_cap ← ok_or (positive (nls.query codepage data_bytes)) (nls_failed codepage)
        let answer = nls.convert codepage data_bytes buf_cap
        written_n ← ok_or (positive answer.0) (nls_failed codepage)
        string_from_utf16 (take (min written_n buf_cap) answer.1)
            (codes "UTF-16 conversion failed")) in
      if is_empty_list data_bytes
      then ok []
      else if ltb i32_max (length data_bytes)
      then err (nls_too_large (length data_bytes))
      else converted

abbrev pub cannot_open : Text → Text → Error
cannot_open name code = decode_error (
    codes "ICU cannot open converter \""
    ++ (name ++ (codes "\" (error code " ++ (code ++ codes ")"))))

abbrev pub icu_too_large : ℕ → Error
icu_too_large n =
    decode_error (codes "input too large (" ++ (decimal n ++ codes " bytes) for ICU converter"))

abbrev pub conversion_failed : Text → ℤ → Error
conversion_failed name code = decode_error (
    codes "ICU conversion failed for \""
    ++ (name ++ (codes "\" (error code " ++ (decimal_i32 code ++ codes ")"))))

abbrev pub requires_icu : Text → Error
requires_icu name =
    decode_error (codes "charset \"" ++ (name ++ codes "\" requires icu.dll (Windows 10 1903+)"))

module _ (icu : IcuFunctions) where
  -- What an open converter makes of the data.
  unfoldable pub convert_with : ℕ → Text → List ℕ → Result Error (Option Text)
  unfolding string_from_utf16
  convert_with cnv name data_bytes =
      let answer = icu.ucnv_to_u_chars cnv (length data_bytes + 1) data_bytes in
      let decoded : Result Error (Option Text) = (do
        s ←
            string_from_utf16 (take (or_zero answer.written) answer.buf)
              (codes "ICU produced invalid UTF-16")
        ok (some s)) in
      if leb i32_max (length data_bytes)
      then err (icu_too_large (length data_bytes))
      else if is_failure answer.status
      then err (conversion_failed name answer.status)
      else decoded

  -- `decode_with_icu`, with the calls that open and close the converter.
  unfoldable pub decode_with_icu : Text → List ℕ → List IcuCall × Result Error (Option Text)
  unfolding convert_with
  decode_with_icu name data_bytes =
      let open_err = (icu.ucnv_open name).0 in
      let failed = cannot_open name (decimal_i32 open_err) in
      elim (icu.ucnv_open name).1 [
        | none ↦ ([], if is_status icu.u_file_access_error open_err then ok none else err failed)
        | some cnv ↦ (
          opened cnv ∷ closed cnv ∷ [],
          if is_failure open_err then err failed else convert_with cnv name data_bytes,
        )
      ]

-- At the table of functions that was loaded, if it was.
unfoldable pub icu_decode : Option IcuFunctions → Text → List ℕ → Result Error Text
unfolding decode_with_icu
icu_decode loaded name data_bytes =
    let decoded : Result Error Text = (do
      icu ← ok_or loaded (requires_icu name)
      found ← (decode_with_icu icu name data_bytes).1
      ok_or found (cannot_open name (decimal icu.u_file_access_error))) in
    if is_empty_list data_bytes then ok [] else decoded

unfoldable pub icu_decode_if_available :
    Option IcuFunctions → Text → List ℕ → Result Error (Option Text)
unfolding decode_with_icu
icu_decode_if_available loaded name data_bytes =
    let decoded : Result Error (Option Text) = elim loaded [
      | none ↦ ok none
      | some icu ↦ (decode_with_icu icu name data_bytes).1
    ] in
    if is_empty_list data_bytes then ok (some []) else decoded

-- The decoders that `decode_body` calls.
unfoldable pub platform : Nls → Option IcuFunctions → Abi
platform nls loaded = record {
  icu_decode = icu_decode loaded;
  icu_decode_if_available = icu_decode_if_available loaded;
  multi_byte_to_string = multi_byte_to_string nls;
}
