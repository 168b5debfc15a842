-- ===== src/Encoding/Decoders.antt =====
-- src/encoding.rs: the decoders that are written in Rust, and the standard library's conversions from
-- UTF-8 and UTF-16, which the sources use. A byte is a number below 256, a text a list of scalar values.

use wrest.Prelude.Text.{Text}
use wrest.Prelude.{
  ℕ, ◌+◌, ◌*◌, ◌-◌, Bool, true, false, ◌&&◌, ◌||◌, not, List, [], ◌∷◌, ◌++◌, if◌then◌else◌, map,
  leb, ltb, get_or,
}

abbrev pub replacement_character : ℕ
replacement_character = 0xFFFD

-- `0xF700 | b`, at a byte from 0x80 on, whose bits are not in 0xF700.
unfoldable pub x_user_defined_char : ℕ → ℕ
x_user_defined_char b = if ltb b 0x80 then b else 0xF700 + b

unfoldable pub decode_x_user_defined : List ℕ → Text
unfolding x_user_defined_char
decode_x_user_defined bytes = map x_user_defined_char bytes

abbrev pub iso_8859_16_high : List ℕ
iso_8859_16_high =
    0x0080 ∷ 0x0081 ∷ 0x0082 ∷ 0x0083 ∷ 0x0084 ∷ 0x0085 ∷ 0x0086 ∷ 0x0087 ∷ 0x0088 ∷ 0x0089 ∷ 0x008A
    ∷ 0x008B ∷ 0x008C ∷ 0x008D ∷ 0x008E ∷ 0x008F ∷ 0x0090 ∷ 0x0091 ∷ 0x0092 ∷ 0x0093 ∷ 0x0094
    ∷ 0x0095 ∷ 0x0096 ∷ 0x0097 ∷ 0x0098 ∷ 0x0099 ∷ 0x009A ∷ 0x009B ∷ 0x009C ∷ 0x009D ∷ 0x009E
    ∷ 0x009F ∷ 0x00A0 ∷ 0x0104 ∷ 0x0105 ∷ 0x0141 ∷ 0x20AC ∷ 0x201E ∷ 0x0160 ∷ 0x00A7 ∷ 0x0161
    ∷ 0x00A9 ∷ 0x0218 ∷ 0x00AB ∷ 0x0179 ∷ 0x00AD ∷ 0x017A ∷ 0x017B ∷ 0x00B0 ∷ 0x00B1 ∷ 0x010C
    ∷ 0x0142 ∷ 0x017D ∷ 0x201D ∷ 0x00B6 ∷ 0x00B7 ∷ 0x017E ∷ 0x010D ∷ 0x0219 ∷ 0x00BB ∷ 0x0152
    ∷ 0x0153 ∷ 0x0178 ∷ 0x017C ∷ 0x00C0 ∷ 0x00C1 ∷ 0x00C2 ∷ 0x0102 ∷ 0x00C4 ∷ 0x0106 ∷ 0x00C6
    ∷ 0x00C7 ∷ 0x00C8 ∷ 0x00C9 ∷ 0x00CA ∷ 0x00CB ∷ 0x00CC ∷ 0x00CD ∷ 0x00CE ∷ 0x00CF ∷ 0x0110
    ∷ 0x0143 ∷ 0x00D2 ∷ 0x00D3 ∷ 0x00D4 ∷ 0x0150 ∷ 0x00D6 ∷ 0x015A ∷ 0x0170 ∷ 0x00D9 ∷ 0x00DA
    ∷ 0x00DB ∷ 0x00DC ∷ 0x0118 ∷ 0x021A ∷ 0x00DF ∷ 0x00E0 ∷ 0x00E1 ∷ 0x00E2 ∷ 0x0103 ∷ 0x00E4
    ∷ 0x0107 ∷ 0x00E6 ∷ 0x00E7 ∷ 0x00E8 ∷ 0x00E9 ∷ 0x00EA ∷ 0x00EB ∷ 0x00EC ∷ 0x00ED ∷ 0x00EE
    ∷ 0x00EF ∷ 0x0111 ∷ 0x0144 ∷ 0x00F2 ∷ 0x00F3 ∷ 0x00F4 ∷ 0x0151 ∷ 0x00F6 ∷ 0x015B ∷ 0x0171
    ∷ 0x00F9 ∷ 0x00FA ∷ 0x00FB ∷ 0x00FC ∷ 0x0119 ∷ 0x021B ∷ 0x00FF ∷ []

-- `b & 0x7F` of a byte from 0x80 on is `b - 0x80`.
unfoldable pub iso_8859_16_char : ℕ → ℕ
iso_8859_16_char b =
    if ltb b 0x80 then b else get_or iso_8859_16_high (b - 0x80) replacement_character

unfoldable pub decode_iso_8859_16 : List ℕ → Text
unfolding iso_8859_16_char
decode_iso_8859_16 bytes = map iso_8859_16_char bytes

-- `data.as_chunks::<2>()`, each pair made a word: the words and whether a byte is left.
unfoldable pub words : (ℕ → ℕ → ℕ) → List ℕ → List ℕ × Bool
words from_bytes [] = ([], false)
words from_bytes (a ∷ []) = ([], true)
words from_bytes (a ∷ b ∷ rest) = let r = words from_bytes rest in (from_bytes a b ∷ r.0, r.1)

abbrev pub from_le_bytes : ℕ → ℕ → ℕ
from_le_bytes a b = a + 256 * b

abbrev pub from_be_bytes : ℕ → ℕ → ℕ
from_be_bytes a b = 256 * a + b

abbrev pub is_high_surrogate : ℕ → Bool
is_high_surrogate w = leb 0xD800 w && leb w 0xDBFF

abbrev pub is_low_surrogate : ℕ → Bool
is_low_surrogate w = leb 0xDC00 w && leb w 0xDFFF

abbrev pub from_surrogates : ℕ → ℕ → ℕ
from_surrogates high low = 0x10000 + 0x400 * (high - 0xD800) + (low - 0xDC00)

-- `String::from_utf16_lossy`: a surrogate without its partner gives one U+FFFD.
unfoldable pub from_utf16_lossy : List ℕ → Text
from_utf16_lossy [] = []
from_utf16_lossy (w ∷ []) =
    (if is_high_surrogate w || is_low_surrogate w then replacement_character else w) ∷ []
from_utf16_lossy (w ∷ v ∷ rest) =
    let paired = from_surrogates w v ∷ from_utf16_lossy rest in
    let later = from_utf16_lossy (v ∷ rest) in
    if is_high_surrogate w
    then (if is_low_surrogate v then paired else replacement_character ∷ later)
    else (if is_low_surrogate w then replacement_character ∷ later else w ∷ later)

unfoldable pub last_is_high : List ℕ → Bool
last_is_high [] = false
last_is_high (w ∷ []) = is_high_surrogate w
last_is_high (_ ∷ v ∷ rest) = last_is_high (v ∷ rest)

unfoldable pub decode_utf16 : (ℕ → ℕ → ℕ) → List ℕ → Text
unfolding words from_utf16_lossy last_is_high
decode_utf16 from_bytes bytes =
    let split = words from_bytes bytes in
    let result = from_utf16_lossy split.0 in
    if split.1 && not (last_is_high split.0) then result ++ (replacement_character ∷ []) else result
