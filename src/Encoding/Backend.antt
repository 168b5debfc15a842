-- ===== src/Encoding/Backend.antt =====
-- src/encoding.rs: `codepage_backend`, the decoder that a code page is given to.
use wrest.Prelude.Text.{Text, codes}
use wrest.Prelude.{ℕ, List, [], ◌∷◌, Option, none, some, if◌then◌else◌, ◌==◌}

pub data CodepageBackend : Type 0 where
  icu_required icu_preferred : Text → CodepageBackend
  nls : CodepageBackend

-- The arms of the `match`, in order.
abbrev pub backends : List (ℕ × CodepageBackend)
backends =
    (28600, icu_required (codes "ISO-8859-10"))
    ∷ (28604, icu_required (codes "ISO-8859-14"))
    ∷ (51932, icu_required (codes "EUC-JP"))
    ∷ (28593, icu_preferred (codes "ISO-8859-3"))
    ∷ (28596, icu_preferred (codes "ISO-8859-6"))
    ∷ (28597, icu_preferred (codes "ISO-8859-7"))
    ∷ (28598, icu_preferred (codes "ISO-8859-8"))
    ∷ (38598, icu_preferred (codes "ISO-8859-8"))
    ∷ (10000, icu_preferred (codes "macintosh"))
    ∷ (1253, icu_preferred (codes "windows-1253"))
    ∷ (1257, icu_preferred (codes "windows-1257"))
    ∷ (10017, icu_preferred (codes "x-mac-cyrillic"))
    ∷ (936, icu_preferred (codes "gb18030"))
    ∷ (54936, icu_preferred (codes "gb18030"))
    ∷ (950, icu_preferred (codes "Big5-HKSCS"))
    ∷ (51949, icu_preferred (codes "windows-949"))
    ∷ (866, nls)
    ∷ (28592, nls)
    ∷ (28594, nls)
    ∷ (28595, nls)
    ∷ (28603, nls)
    ∷ (28605, nls)
    ∷ (20866, nls)
    ∷ (21866, nls)
    ∷ (874, icu_preferred (codes "ibm-1162"))
    ∷ (1250, nls)
    ∷ (1251, nls)
    ∷ (1252, nls)
    ∷ (1254, nls)
    ∷ (1255, nls)
    ∷ (1256, nls)
    ∷ (1258, nls)
    ∷ (50220, icu_preferred (codes "ISO-2022-JP"))
    ∷ (932, nls)
    ∷ []

unfoldable pub first_backend : List (ℕ × CodepageBackend) → ℕ → Option CodepageBackend
first_backend [] codepage = none
first_backend ((page, backend) ∷ rest) codepage =
    let later = first_backend rest codepage in if codepage == page then some backend else later

unfoldable pub codepage_backend : ℕ → Option CodepageBackend
unfolding first_backend
codepage_backend codepage = first_backend backends codepage
