-- ===== src/Encoding/Bom.antt =====
-- src/encoding.rs, `decode_body`: a byte-order mark overrides the declared charset.
use wrest.Encoding.Labels.{is_utf8_label, whatwg_label_to_codepage}
use wrest.Encoding.RoundTrip.{is_scalar, encode_utf16, le_bytes, be_bytes, decode_utf16-encode}
use wrest.Encoding.Utf8RoundTrip.{encode_utf8, decode_utf8-encode}
use wrest.Encoding.{Abi, decode_body, decode_labelled, decode_codepage}
use wrest.Prelude.Result.{ok}
use wrest.Prelude.Text.{Text, codes, text_eq}
use wrest.Prelude.{◌∷◌, ◌≡◌, refl, true, false, some, All}

utf8_is : is_utf8_label (codes "utf-8") ≡ true
unfolding is_utf8_label text_eq
utf8_is = refl

utf16le_is :
    (is_utf8_label (codes "utf-16le") ≡ false)
    × (whatwg_label_to_codepage (codes "utf-16le") ≡ some 1200)
unfolding is_utf8_label whatwg_label_to_codepage text_eq
utf16le_is = (refl, refl)

utf16be_is :
    (is_utf8_label (codes "utf-16be") ≡ false)
    × (whatwg_label_to_codepage (codes "utf-16be") ≡ some 1201)
unfolding is_utf8_label whatwg_label_to_codepage text_eq
utf16be_is = (refl, refl)

module _ (abi : Abi) where
  labelled-utf8 :
      (t : Text)
      → All (λ c. is_scalar c ≡ true) t
      → decode_labelled abi (encode_utf8 t) (codes "utf-8") ≡ ok t
  unfolding decode_labelled
  labelled-utf8 t s = rw (utf8_is, (decode_utf8-encode t s).1) refl

  labelled-utf16le :
      (t : Text)
      → All (λ c. is_scalar c ≡ true) t
      → decode_labelled abi (le_bytes (encode_utf16 t)) (codes "utf-16le") ≡ ok t
  unfolding decode_labelled decode_codepage
  labelled-utf16le t s = rw (utf16le_is.0, utf16le_is.1, (decode_utf16-encode t s).0) refl

  labelled-utf16be :
      (t : Text)
      → All (λ c. is_scalar c ≡ true) t
      → decode_labelled abi (be_bytes (encode_utf16 t)) (codes "utf-16be") ≡ ok t
  unfolding decode_labelled decode_codepage
  labelled-utf16be t s = rw (utf16be_is.0, utf16be_is.1, (decode_utf16-encode t s).1) refl

  -- Whatever charset is declared, a body that starts with the byte-order mark of UTF-8, UTF-16LE or
  -- UTF-16BE and goes on with a text of scalar values in that encoding decodes to the text, without the mark.
  pub decode_body-bom :
      (t : Text) (charset : Text)
      → All (λ c. is_scalar c ≡ true) t
      → (decode_body abi (0xEF ∷ 0xBB ∷ 0xBF ∷ encode_utf8 t) charset ≡ ok t)
        × (decode_body abi (0xFF ∷ 0xFE ∷ le_bytes (encode_utf16 t)) charset ≡ ok t)
        × (decode_body abi (0xFE ∷ 0xFF ∷ be_bytes (encode_utf16 t)) charset ≡ ok t)
  unfolding decode_body
  decode_body-bom t charset s = (labelled-utf8 t s, labelled-utf16le t s, labelled-utf16be t s)
