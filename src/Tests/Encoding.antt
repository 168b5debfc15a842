-- ===== src/Tests/Encoding.antt =====
-- Decoding at concrete inputs.
use wrest.Encoding.{Abi, decode_body, decode_utf8, strip_bom}
use wrest.Encoding.Decoders.{decode_utf16, from_le_bytes, from_be_bytes}
use wrest.Encoding.Labels.{whatwg_label_to_codepage}
use wrest.Encoding.RoundTrip.{decode_utf16-encode, encode_utf16, le_bytes, be_bytes}
use wrest.Encoding.Total.{IsAbiError, decode_body-err}
use wrest.Encoding.Utf8.{from_utf8}
use wrest.Encoding.Bom.{decode_body-bom}
use wrest.Encoding.Utf8RoundTrip.{encode_utf8}
use wrest.Error.{Error, ErrorKind, message, with_kind}
use wrest.Prelude.Result.{ok, err}
use wrest.Prelude.Text.{Text, codes}
use wrest.Prelude.{ℕ, List, [], ◌∷◌, Option, none, some, ◌≡◌, refl}

abbrev no_icu : Error
no_icu = with_kind ErrorKind.decode (message (codes "ICU is not available"))

-- A platform without ICU, whose NLS decoder gives every byte as a character.
abbrev old_windows : Abi
old_windows = record {
  icu_decode = λ name bytes. err no_icu;
  icu_decode_if_available = λ name bytes. ok none;
  multi_byte_to_string = λ page bytes. ok bytes;
}

label_alias : whatwg_label_to_codepage (codes "latin1") ≡ some 1252
unfolding whatwg_label_to_codepage wrest.Prelude.Text.text_eq
label_alias = refl

bom_wins :
    decode_body old_windows (0xFE ∷ 0xFF ∷ 0x20 ∷ 0xAC ∷ []) (codes "latin1") ≡ ok (0x20AC ∷ [])
unfolding decode_body decode_utf16 wrest.Encoding.Labels.is_utf8_label wrest.Prelude.Text.text_eq
    whatwg_label_to_codepage
bom_wins = refl

lossy_parts :
    decode_utf8 (0x41 ∷ 0xE2 ∷ 0x82 ∷ 0x41 ∷ 0xFF ∷ []) ≡ 0x41 ∷ 0xFFFD ∷ 0x41 ∷ 0xFFFD ∷ []
unfolding decode_utf8 from_utf8 wrest.Encoding.Utf8.from_utf8_lossy
lossy_parts = refl

nordic_fails : decode_body old_windows (0x41 ∷ []) (codes "ISO-8859-10 ") ≡ err no_icu
unfolding decode_body wrest.Encoding.Labels.is_utf8_label wrest.Prelude.Text.text_eq
    wrest.Encoding.Labels.normalize_label wrest.Prelude.Text.trim_end_matches
    wrest.Prelude.Text.trim_start_matches wrest.Prelude.Text.lower whatwg_label_to_codepage
    wrest.Encoding.Backend.codepage_backend
nordic_fails = refl

decode_body-err_example :
    IsAbiError old_windows (strip_bom (0x41 ∷ []) (codes "ISO-8859-10 ")).0 no_icu
decode_body-err_example =
    decode_body-err old_windows (0x41 ∷ []) (codes "ISO-8859-10 ") no_icu nordic_fails

-- `é€😀`
abbrev sample : Text
sample = 0xE9 ∷ 0x20AC ∷ 0x1F600 ∷ []

decode_utf16-encode_example :
    (decode_utf16 from_le_bytes (le_bytes (encode_utf16 sample)) ≡ sample)
    × (decode_utf16 from_be_bytes (be_bytes (encode_utf16 sample)) ≡ sample)
decode_utf16-encode_example = decode_utf16-encode sample (refl, (refl, (refl, tt)))

decode_body-bom_example :
    (decode_body old_windows (0xEF ∷ 0xBB ∷ 0xBF ∷ encode_utf8 sample) (codes "latin1") ≡ ok sample)
    × (decode_body old_windows (0xFF ∷ 0xFE ∷ le_bytes (encode_utf16 sample)) (codes "latin1")
        ≡ ok sample)
    × (decode_body old_windows (0xFE ∷ 0xFF ∷ be_bytes (encode_utf16 sample)) (codes "latin1")
        ≡ ok sample)
decode_body-bom_example =
    decode_body-bom old_windows sample (codes "latin1") (refl, (refl, (refl, tt)))
