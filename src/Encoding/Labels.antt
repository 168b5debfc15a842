-- ===== src/Encoding/Labels.antt =====
-- src/encoding.rs: `normalize_label`, `is_utf8_label` and the table of `whatwg_label_to_codepage`.
use wrest.Prelude.Text.{Text, codes, text_eq, to_ascii_lowercase, trim_matches}
use wrest.Prelude.{ℕ, Bool, ◌||◌, List, [], ◌∷◌, Option, none, some, if◌then◌else◌, any, ◌==◌}

abbrev pub cp_x_user_defined : ℕ
cp_x_user_defined = 0

-- `u32::MAX`
abbrev pub cp_replacement : ℕ
cp_replacement = 4294967295

abbrev pub cp_utf16_le : ℕ
cp_utf16_le = 1200

abbrev pub cp_utf16_be : ℕ
cp_utf16_be = 1201

abbrev pub cp_iso_8859_16 : ℕ
cp_iso_8859_16 = 28606

-- `char::is_ascii_whitespace`: tab, line feed, form feed, carriage return, space.
abbrev pub is_ascii_whitespace : ℕ → Bool
is_ascii_whitespace c = c == 9 || c == 10 || c == 12 || c == 13 || c == 32

unfoldable pub normalize_label : Text → Text
normalize_label label = to_ascii_lowercase (trim_matches is_ascii_whitespace label)

abbrev pub utf8_labels : List Text
utf8_labels =
    codes "utf-8"
    ∷ codes "utf8"
    ∷ codes "unicode-1-1-utf-8"
    ∷ codes "unicode11utf8"
    ∷ codes "unicode20utf8"
    ∷ codes "x-unicode20utf8"
    ∷ []

-- `matches!` of a list of literals.
unfoldable pub is_one_of : List Text → Text → Bool
is_one_of labels label = any (λ l. text_eq label l) labels

unfoldable pub is_utf8_label : Text → Bool
unfolding is_one_of
is_utf8_label label = is_one_of utf8_labels label

-- The arms of the `match`, in order: the labels and the code page.
abbrev pub arms : List (List Text × ℕ)
arms =
    (
      codes "unicode-1-1-utf-8"
          ∷ codes "unicode11utf8"
          ∷ codes "unicode20utf8"
          ∷ codes "utf-8"
          ∷ codes "utf8"
          ∷ codes "x-unicode20utf8"
          ∷ [],
      65001,
    )
    ∷ (codes "866" ∷ codes "cp866" ∷ codes "csibm866" ∷ codes "ibm866" ∷ [], 866)
    ∷ (
      codes "csisolatin2"
          ∷ codes "iso-8859-2"
          ∷ codes "iso-ir-101"
          ∷ codes "iso8859-2"
          ∷ codes "iso88592"
          ∷ codes "iso_8859-2"
          ∷ codes "iso_8859-2:1987"
          ∷ codes "l2"
          ∷ codes "latin2"
          ∷ [],
      28592,
    )
    ∷ (
      codes "csisolatin3"
          ∷ codes "iso-8859-3"
          ∷ codes "iso-ir-109"
          ∷ codes "iso8859-3"
          ∷ codes "iso88593"
          ∷ codes "iso_8859-3"
          ∷ codes "iso_8859-3:1988"
          ∷ codes "l3"
          ∷ codes "latin3"
          ∷ [],
      28593,
    )
    ∷ (
      codes "csisolatin4"
          ∷ codes "iso-8859-4"
          ∷ codes "iso-ir-110"
          ∷ codes "iso8859-4"
          ∷ codes "iso88594"
          ∷ codes "iso_8859-4"
          ∷ codes "iso_8859-4:1988"
          ∷ codes "l4"
          ∷ codes "latin4"
          ∷ [],
      28594,
    )
    ∷ (
      codes "csisolatincyrillic"
          ∷ codes "cyrillic"
          ∷ codes "iso-8859-5"
          ∷ codes "iso-ir-144"
          ∷ codes "iso8859-5"
          ∷ codes "iso88595"
          ∷ codes "iso_8859-5"
          ∷ codes "iso_8859-5:1988"
          ∷ [],
      28595,
    )
    ∷ (
      codes "arabic"
          ∷ codes "asmo-708"
          ∷ codes "csiso88596e"
          ∷ codes "csiso88596i"
          ∷ codes "csisolatinarabic"
          ∷ codes "ecma-114"
          ∷ codes "iso-8859-6"
          ∷ codes "iso-8859-6-e"
          ∷ codes "iso-8859-6-i"
          ∷ codes "iso-ir-127"
          ∷ codes "iso8859-6"
          ∷ codes "iso88596"
          ∷ codes "iso_8859-6"
          ∷ codes "iso_8859-6:1987"
          ∷ [],
      28596,
    )
    ∷ (
      codes "csisolatingreek"
          ∷ codes "ecma-118"
          ∷ codes "elot_928"
          ∷ codes "greek"
          ∷ codes "greek8"
          ∷ codes "iso-8859-7"
          ∷ codes "iso-ir-126"
          ∷ codes "iso8859-7"
          ∷ codes "iso88597"
          ∷ codes "iso_8859-7"
          ∷ codes "iso_8859-7:1987"
          ∷ codes "sun_eu_greek"
          ∷ [],
      28597,
    )
    ∷ (
      codes "csiso88598e"
          ∷ codes "csisolatinhebrew"
          ∷ codes "hebrew"
          ∷ codes "iso-8859-8"
          ∷ codes "iso-8859-8-e"
          ∷ codes "iso-ir-138"
          ∷ codes "iso8859-8"
          ∷ codes "iso88598"
          ∷ codes "iso_8859-8"
          ∷ codes "iso_8859-8:1988"
          ∷ codes "visual"
          ∷ [],
      28598,
    )
    ∷ (codes "csiso88598i" ∷ codes "iso-8859-8-i" ∷ codes "logical" ∷ [], 38598)
    ∷ (
      codes "csisolatin6"
          ∷ codes "iso-8859-10"
          ∷ codes "iso-ir-157"
          ∷ codes "iso8859-10"
          ∷ codes "iso885910"
          ∷ codes "l6"
          ∷ codes "latin6"
          ∷ [],
      28600,
    )
    ∷ (codes "iso-8859-13" ∷ codes "iso8859-13" ∷ codes "iso885913" ∷ [], 28603)
    ∷ (codes "iso-8859-14" ∷ codes "iso8859-14" ∷ codes "iso885914" ∷ [], 28604)
    ∷ (
      codes "csisolatin9"
          ∷ codes "iso-8859-15"
          ∷ codes "iso8859-15"
          ∷ codes "iso885915"
          ∷ codes "iso_8859-15"
          ∷ codes "l9"
          ∷ [],
      28605,
    )
    ∷ (codes "iso-8859-16" ∷ [], 28606)
    ∷ (codes "cskoi8r" ∷ codes "koi" ∷ codes "koi8" ∷ codes "koi8-r" ∷ codes "koi8_r" ∷ [], 20866)
    ∷ (codes "koi8-ru" ∷ codes "koi8-u" ∷ [], 21866)
    ∷ (codes "csmacintosh" ∷ codes "mac" ∷ codes "macintosh" ∷ codes "x-mac-roman" ∷ [], 10000)
    ∷ (
      codes "dos-874"
          ∷ codes "iso-8859-11"
          ∷ codes "iso8859-11"
          ∷ codes "iso885911"
          ∷ codes "tis-620"
          ∷ codes "windows-874"
          ∷ [],
      874,
    )
    ∷ (codes "cp1250" ∷ codes "windows-1250" ∷ codes "x-cp1250" ∷ [], 1250)
    ∷ (codes "cp1251" ∷ codes "windows-1251" ∷ codes "x-cp1251" ∷ [], 1251)
    ∷ (
      codes "ansi_x3.4-1968"
          ∷ codes "ascii"
          ∷ codes "cp1252"
          ∷ codes "cp819"
          ∷ codes "csisolatin1"
          ∷ codes "ibm819"
          ∷ codes "iso-8859-1"
          ∷ codes "iso-ir-100"
          ∷ codes "iso8859-1"
          ∷ codes "iso88591"
          ∷ codes "iso_8859-1"
          ∷ codes "iso_8859-1:1987"
          ∷ codes "l1"
          ∷ codes "latin1"
          ∷ codes "us-ascii"
          ∷ codes "windows-1252"
          ∷ codes "x-cp1252"
          ∷ [],
      1252,
    )
    ∷ (codes "cp1253" ∷ codes "windows-1253" ∷ codes "x-cp1253" ∷ [], 1253)
    ∷ (
      codes "cp1254"
          ∷ codes "csisolatin5"
          ∷ codes "iso-8859-9"
          ∷ codes "iso-ir-148"
          ∷ codes "iso8859-9"
          ∷ codes "iso88599"
          ∷ codes "iso_8859-9"
          ∷ codes "iso_8859-9:1989"
          ∷ codes "l5"
          ∷ codes "latin5"
          ∷ codes "windows-1254"
          ∷ codes "x-cp1254"
          ∷ [],
      1254,
    )
    ∷ (codes "cp1255" ∷ codes "windows-1255" ∷ codes "x-cp1255" ∷ [], 1255)
    ∷ (codes "cp1256" ∷ codes "windows-1256" ∷ codes "x-cp1256" ∷ [], 1256)
    ∷ (codes "cp1257" ∷ codes "windows-1257" ∷ codes "x-cp1257" ∷ [], 1257)
    ∷ (codes "cp1258" ∷ codes "windows-1258" ∷ codes "x-cp1258" ∷ [], 1258)
    ∷ (codes "x-mac-cyrillic" ∷ codes "x-mac-ukrainian" ∷ [], 10017)
    ∷ (
      codes "chinese"
          ∷ codes "csgb2312"
          ∷ codes "csiso58gb231280"
          ∷ codes "gb2312"
          ∷ codes "gb_2312"
          ∷ codes "gb_2312-80"
          ∷ codes "gbk"
          ∷ codes "iso-ir-58"
          ∷ codes "x-gbk"
          ∷ [],
      936,
    )
    ∷ (codes "gb18030" ∷ [], 54936)
    ∷ (
      codes "big5" ∷ codes "big5-hkscs" ∷ codes "cn-big5" ∷ codes "csbig5" ∷ codes "x-x-big5" ∷ [],
      950,
    )
    ∷ (codes "cseucpkdfmtjapanese" ∷ codes "euc-jp" ∷ codes "x-euc-jp" ∷ [], 51932)
    ∷ (codes "csiso2022jp" ∷ codes "iso-2022-jp" ∷ [], 50220)
    ∷ (
      codes "csshiftjis"
          ∷ codes "ms932"
          ∷ codes "ms_kanji"
          ∷ codes "shift-jis"
          ∷ codes "shift_jis"
          ∷ codes "sjis"
          ∷ codes "windows-31j"
          ∷ codes "x-sjis"
          ∷ [],
      932,
    )
    ∷ (
      codes "cseuckr"
          ∷ codes "csksc56011987"
          ∷ codes "euc-kr"
          ∷ codes "iso-ir-149"
          ∷ codes "korean"
          ∷ codes "ks_c_5601-1987"
          ∷ codes "ks_c_5601-1989"
          ∷ codes "ksc5601"
          ∷ codes "ksc_5601"
          ∷ codes "windows-949"
          ∷ [],
      51949,
    )
    ∷ (codes "unicodefffe" ∷ codes "utf-16be" ∷ [], cp_utf16_be)
    ∷ (
      codes "csunicode"
          ∷ codes "iso-10646-ucs-2"
          ∷ codes "ucs-2"
          ∷ codes "unicode"
          ∷ codes "unicodefeff"
          ∷ codes "utf-16"
          ∷ codes "utf-16le"
          ∷ [],
      cp_utf16_le,
    )
    ∷ (codes "x-user-defined" ∷ [], cp_x_user_defined)
    ∷ (
      codes "csiso2022kr"
          ∷ codes "hz-gb-2312"
          ∷ codes "iso-2022-cn"
          ∷ codes "iso-2022-cn-ext"
          ∷ codes "iso-2022-kr"
          ∷ codes "replacement"
          ∷ [],
      cp_replacement,
    )
    ∷ []

unfoldable pub first_arm : List (List Text × ℕ) → Text → Option ℕ
unfolding is_one_of
first_arm [] label = none
first_arm ((labels, codepage) ∷ rest) label =
    let later = first_arm rest label in if is_one_of labels label then some codepage else later

unfoldable pub whatwg_label_to_codepage : Text → Option ℕ
unfolding first_arm
whatwg_label_to_codepage label = first_arm arms label
