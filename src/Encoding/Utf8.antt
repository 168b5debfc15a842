-- ===== src/Encoding/Utf8.antt =====
-- The standard library's `String::from_utf8` and `String::from_utf8_lossy`, which src/encoding.rs calls:
-- a decoder of well-formed UTF-8 that reports each maximal ill-formed part once.
use wrest.Prelude.Text.{Text}
use wrest.Prelude.{
  ℕ, zero, suc, ◌+◌, ◌*◌, ◌-◌, ◌&&◌, List, [], ◌∷◌, ◌++◌, Option, none, some, if◌then◌else◌, leb,
  ltb, map, unwrap_or, ◌==◌,
}

-- Between characters, or the continuation bytes still missing after the next one, the bits so far, and
-- the bounds of the next byte.
pub data Need : Type 0 where
  ready : Need
  more : ℕ → ℕ → ℕ → ℕ → Need

-- A first byte: what it gives, and what must follow.
unfoldable pub lead : ℕ → List (Option ℕ) × Need
lead b =
    if ltb b 0x80
    then (some b ∷ [], ready)
    else if ltb b 0xC2
    then (none ∷ [], ready)
    else if ltb b 0xE0
    then ([], more 0 (b - 0xC0) 0x80 0xBF)
    else if b == 0xE0
    then ([], more 1 0 0xA0 0xBF)
    else if b == 0xED
    then ([], more 1 13 0x80 0x9F)
    else if ltb b 0xF0
    then ([], more 1 (b - 0xE0) 0x80 0xBF)
    else if b == 0xF0
    then ([], more 2 0 0x90 0xBF)
    else if ltb b 0xF4
    then ([], more 2 (b - 0xF0) 0x80 0xBF)
    else if b == 0xF4
    then ([], more 2 4 0x80 0x8F)
    else (none ∷ [], ready)

-- A continuation byte.
unfoldable pub continue_with : ℕ → ℕ → ℕ → List (Option ℕ) × Need
continue_with zero bits b = (some (64 * bits + (b - 0x80)) ∷ [], ready)
continue_with (suc k) bits b = ([], more k (64 * bits + (b - 0x80)) 0x80 0xBF)

-- The next byte; one that does not fit ends the part before it, and starts anew.
unfoldable pub feed : Need → ℕ → List (Option ℕ) × Need
unfolding lead continue_with
feed ready b = lead b
feed (more k bits low high) b =
    if leb low b && leb b high then continue_with k bits b else (none ∷ (lead b).0, (lead b).1)

-- The characters in order, with `none` for each ill-formed part.
unfoldable pub scan : Need → List ℕ → List (Option ℕ)
unfolding feed
scan ready [] = []
scan (more _ _ _ _) [] = none ∷ []
scan need (b ∷ rest) = (feed need b).0 ++ scan (feed need b).1 rest

unfoldable pub collect : List (Option ℕ) → Option Text
collect [] = some []
collect (none ∷ _) = none
collect (some c ∷ rest) = elim (collect rest) [ none ↦ none | some t ↦ some (c ∷ t) ]

unfoldable pub from_utf8 : List ℕ → Option Text
unfolding scan collect
from_utf8 bytes = collect (scan ready bytes)

unfoldable pub from_utf8_lossy : List ℕ → Text
unfolding scan
from_utf8_lossy bytes = map (λ c. unwrap_or c 0xFFFD) (scan ready bytes)
