-- ===== src/Encoding.antt =====
-- src/encoding.rs: `decode_body`. The decoders of system ICU and of Win32 NLS (src/abi) are parameters.
pub mod Backend
pub mod Bom
pub mod Decoders
pub mod Labels
pub mod RoundTrip
pub mod Total
pub mod Utf8RoundTrip
pub mod Utf8
use wrest.Encoding.Backend.{CodepageBackend, icu_required, icu_preferred, nls, codepage_backend}
use wrest.Encoding.Decoders.{
  decode_x_user_defined, decode_iso_8859_16, decode_utf16, from_le_bytes, from_be_bytes,
  replacement_character,
}
use wrest.Encoding.Labels.{
  cp_x_user_defined, cp_replacement, cp_utf16_le, cp_utf16_be, cp_iso_8859_16, normalize_label,
  is_utf8_label, whatwg_label_to_codepage,
}
use wrest.Encoding.Utf8.{from_utf8, from_utf8_lossy}
use wrest.Error.{Error, ErrorKind, message, with_kind}
use wrest.Prelude.Result.{Result, ok, err, ◌>>=◌}
use wrest.Prelude.Text.{Text, codes, decimal}
use wrest.Prelude.{
  ℕ, Bool, List, [], ◌∷◌, ◌++◌, Option, none, some, if◌then◌else◌, ◌&&◌, ◌==◌, get_or, drop, leb,
  length,
}

-- The three decoders of the platform that `decode_body` calls.
pub record Abi : Type 0 where
  pub icu_decode : Text → List ℕ → Result Error Text
  pub icu_decode_if_available : Text → List ℕ → Result Error (Option Text)
  pub multi_byte_to_string : ℕ → List ℕ → Result Error Text

abbrev pub no_decoder : ℕ → Error
no_decoder codepage =
    with_kind ErrorKind.decode
      (message (codes "no charset decoder for code page " ++ decimal codepage))

-- The bytes without a byte-order mark, and the label that it gives or else the declared one.
unfoldable pub strip_bom : List ℕ → Text → List ℕ × Text
strip_bom bytes charset =
    if get_or bytes 0 0 == 0xEF && get_or bytes 1 0 == 0xBB && get_or bytes 2 0 == 0xBF
    then (drop 3 bytes, codes "utf-8")
    else if get_or bytes 0 0 == 0xFF && get_or bytes 1 0 == 0xFE
    then (drop 2 bytes, codes "utf-16le")
    else if get_or bytes 0 0 == 0xFE && get_or bytes 1 0 == 0xFF
    then (drop 2 bytes, codes "utf-16be")
    else (bytes, normalize_label charset)

-- `String::from_utf8`, with the lossy conversion where it fails.
unfoldable pub decode_utf8 : List ℕ → Text
decode_utf8 bytes = elim (from_utf8 bytes) [ some s ↦ s | none ↦ from_utf8_lossy bytes ]

module _ (abi : Abi) where
  open abi use {icu_decode, icu_decode_if_available, multi_byte_to_string}

  unfoldable pub decode_icu_preferred : ℕ → Text → List ℕ → Result Error Text
  decode_icu_preferred codepage icu_name bytes = do
    decoded ← icu_decode_if_available icu_name bytes
    elim decoded [ some s ↦ ok s | none ↦ multi_byte_to_string codepage bytes ]

  unfoldable pub run_backend : ℕ → List ℕ → Option CodepageBackend → Result Error Text
  unfolding decode_icu_preferred
  run_backend codepage bytes (some (icu_required name)) = icu_decode name bytes
  run_backend codepage bytes (some (icu_preferred name)) = decode_icu_preferred codepage name bytes
  run_backend codepage bytes (some nls) = multi_byte_to_string codepage bytes
  run_backend codepage bytes none = err (no_decoder codepage)

  unfoldable pub decode_codepage : ℕ → List ℕ → Result Error Text
  unfolding run_backend
  decode_codepage codepage bytes =
      if codepage == cp_x_user_defined
      then ok (decode_x_user_defined bytes)
      else if codepage == cp_replacement
      then ok (replacement_character ∷ [])
      else if codepage == cp_utf16_le
      then ok (decode_utf16 from_le_bytes bytes)
      else if codepage == cp_utf16_be
      then ok (decode_utf16 from_be_bytes bytes)
      else if codepage == cp_iso_8859_16
      then ok (decode_iso_8859_16 bytes)
      else run_backend codepage bytes (codepage_backend codepage)

  unfoldable pub decode_labelled : List ℕ → Text → Result Error Text
  unfolding decode_utf8 decode_codepage
  decode_labelled bytes label =
      if is_utf8_label label
      then ok (decode_utf8 bytes)
      else elim (whatwg_label_to_codepage label) [
        | none ↦ ok (decode_utf8 bytes)
        | some codepage ↦ decode_codepage codepage bytes
      ]

  unfoldable pub decode_body : List ℕ → Text → Result Error Text
  unfolding strip_bom decode_labelled
  decode_body [] charset = ok []
  decode_body (b ∷ bytes) charset =
      let stripped = strip_bom (b ∷ bytes) charset in decode_labelled stripped.0 stripped.1
