-- ===== src/Util.antt =====
-- src/util.rs: the wide strings that WinHTTP passes. A pointer is `none` when it is null, and else the
-- units from where it points on.
use wrest.Encoding.Decoders.{from_utf16_lossy, is_high_surrogate, is_low_surrogate, from_surrogates}
use wrest.Error.{Error, ErrorKind, context, foreign, message, with_kind}
use wrest.Prelude.Result.{Result, ok_or}
use wrest.Prelude.Text.{Text, codes}
use mathlib.Core.Option
use wrest.Prelude.{ℕ, suc, ◌||◌, List, [], ◌∷◌, Option, none, some, if◌then◌else◌, ◌==◌, take}
mod Wide

-- `String::from_utf16`: nothing where a surrogate has no partner.
unfoldable pub from_utf16 : List ℕ → Option Text
from_utf16 [] = some []
from_utf16 (w ∷ []) = if is_high_surrogate w || is_low_surrogate w then none else some (w ∷ [])
from_utf16 (w ∷ v ∷ rest) =
    let paired = Option.map (λ (t : Text). from_surrogates w v ∷ t) (from_utf16 rest) in
    let later = Option.map (λ (t : Text). w ∷ t) (from_utf16 (v ∷ rest)) in
    if is_high_surrogate w
    then (if is_low_surrogate v then paired else none)
    else (if is_low_surrogate w then none else later)

-- `wcslen`, on units that end in a NUL or with the memory that can be read.
unfoldable pub wcslen : List ℕ → ℕ
wcslen [] = 0
wcslen (w ∷ ws) = let rest = wcslen ws in if w == 0 then 0 else suc rest

-- `strip_suffix(&[0]).unwrap_or(slice)`
unfoldable pub strip_nul : List ℕ → List ℕ
strip_nul [] = []
strip_nul (w ∷ []) = if w == 0 then [] else w ∷ []
strip_nul (w ∷ v ∷ ws) = w ∷ strip_nul (v ∷ ws)

unfoldable pub wide_slice : Option (List ℕ) → Option ℕ → List ℕ
unfolding strip_nul wcslen
wide_slice none char_count = []
wide_slice (some memory) (some char_count) = strip_nul (take char_count memory)
wide_slice (some memory) none = strip_nul (take (wcslen memory) memory)

unfoldable pub wide_to_string : Option (List ℕ) → Option ℕ → Result Error Text
unfolding wide_slice from_utf16
wide_to_string ptr char_count = ok_or (from_utf16 (wide_slice ptr char_count)) (
    with_kind ErrorKind.request
      (message (codes "WinHTTP returned invalid UTF-16 in callback string")))

unfoldable pub wide_to_string_lossy : Option (List ℕ) → Option ℕ → Text
unfolding wide_slice from_utf16_lossy
wide_to_string_lossy ptr char_count = from_utf16_lossy (wide_slice ptr char_count)

unfoldable pub string_from_utf16 : List ℕ → Text → Result Error Text
unfolding from_utf16
string_from_utf16 buf name =
    ok_or (from_utf16 buf) (with_kind ErrorKind.decode (context name foreign))
