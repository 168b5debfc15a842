-- ===== src/Proxy/Entries.antt =====
-- src/proxy.rs: reading back a list of NO_PROXY entries.
use mathlib.Core.List.{append-nil}
use wrest.Prelude.Text.{
  Text, codes, text_eq, is_empty, is_whitespace, to_ascii_lowercase, trim, trim_start_matches,
  trim_end_matches, strip_prefix, split, contains,
}
use wrest.Prelude.{
  ℕ, Bool, true, sym, ◌==◌, false, ◌++◌, not, List, [], ◌∷◌, ◌≡◌, refl, ap, ◌∙◌, arith, map, filter,
  All,
}
use wrest.Proxy.{NoProxyPattern, wildcard, exact, domain_suffix, pattern_of, parse_no_proxy}

pub split-no_sep : (sep : ℕ) (s : Text) → contains sep s ≡ false → split sep s ≡ s ∷ []
unfolding split contains
split-no_sep sep [] h = refl
split-no_sep sep (c ∷ s) h = ground (arith, split-no_sep sep s)

pub split-append :
    (sep : ℕ) (s rest : Text)
    → contains sep s ≡ false
    → split sep (s ++ sep ∷ rest) ≡ s ∷ split sep rest
unfolding split contains
split-append sep [] rest h = ground arith
split-append sep (c ∷ s) rest h = ground (arith, split-append sep s rest)

-- Entries joined by commas.
abbrev pub join : List Text → Text
join [] = []
join (e ∷ []) = e
join (e ∷ f ∷ es) = e ++ b',' ∷ join (f ∷ es)

-- What a NO_PROXY list says: every host, the hosts at and below a name with a dot before it, those at and
-- below a name `left.right`, or one name.
pub data Entry : Type 0 where
  any_host : Entry
  below : Text → Entry
  dotted : Text → Text → Entry
  single : Text → Entry

abbrev pub render : Entry → Text
render any_host = codes "*"
render (below name) = b'.' ∷ name
render (dotted left right) = left ++ b'.' ∷ right
render (single name) = name

abbrev pub denotes : Entry → NoProxyPattern
denotes any_host = wildcard
denotes (below name) = domain_suffix (to_ascii_lowercase name)
denotes (dotted left right) = domain_suffix (to_ascii_lowercase (left ++ b'.' ∷ right))
denotes (single name) = exact (to_ascii_lowercase name)

-- A name of the last kind has no dot and is not the star; the left of a dotted one is not empty, and does
-- not start with a dot.
abbrev pub IsNamed : Entry → Type 0
IsNamed any_host = Unit {0}
IsNamed (below name) = Unit {0}
IsNamed (dotted [] right) = ⊥
IsNamed (dotted (c ∷ left) right) = (b'.' == c) ≡ false
IsNamed (single name) = (contains b'.' name ≡ false) × (text_eq name (codes "*") ≡ false)

contains-middle : (c : ℕ) (s t : Text) → contains c (s ++ c ∷ t) ≡ true
unfolding contains
contains-middle c [] t = ground arith
contains-middle c (d ∷ s) t = ground (arith, contains-middle c s t)

pattern_of-render : (e : Entry) → IsNamed e → pattern_of (render e) ≡ denotes e
unfolding pattern_of text_eq strip_prefix contains
pattern_of-render any_host n = refl
pattern_of-render (below name) n = refl
pattern_of-render (dotted [] right) n = elim n [ ]
pattern_of-render (dotted (c ∷ []) right) n = ground (arith, n)
pattern_of-render (dotted (c ∷ d ∷ left) right) n =
    ground (arith, n, contains-middle b'.' left right)
pattern_of-render (single []) n = refl
pattern_of-render (single (c ∷ name)) (no_dot, no_star) = ground (arith, no_dot, no_star)

module _ (p : ℕ → Bool) where
  trim_start-pad :
      (pad : Text) (s : Text)
      → All (λ c. p c ≡ true) pad
      → trim_start_matches p (pad ++ s) ≡ trim_start_matches p s
  unfolding trim_start_matches
  trim_start-pad [] s h = refl
  trim_start-pad (c ∷ pad) s h = rw h.0 (trim_start-pad pad s h.1)

  trim_end-blank : (pad : Text) → All (λ c. p c ≡ true) pad → trim_end_matches p pad ≡ []
  unfolding trim_end_matches
  trim_end-blank [] h = refl
  trim_end-blank (c ∷ pad) h = rw (h.0, trim_end-blank pad h.1) refl

  trim_end-pad :
      (s pad : Text)
      → All (λ c. p c ≡ true) pad
      → trim_end_matches p (s ++ pad) ≡ trim_end_matches p s
  unfolding trim_end_matches
  trim_end-pad [] pad h = trim_end-blank pad h
  trim_end-pad (c ∷ s) pad h = rw (trim_end-pad s pad h) refl

-- A piece between two commas: white space, or an entry with white space around it.
pub data Piece : Type 0 where
  blank : Text → Piece
  padded : Text → Entry → Text → Piece

abbrev pub text_of : Piece → Text
text_of (blank pad) = pad
text_of (padded left e right) = left ++ (render e ++ right)

abbrev pub entries : List Piece → List Entry
entries [] = []
entries (blank _ ∷ pieces) = entries pieces
entries (padded _ e _ ∷ pieces) = e ∷ entries pieces

abbrev pub IsBlank : Text → Type 0
IsBlank pad = All (λ c. is_whitespace c ≡ true) pad

-- A text that does not start or end with white space.
abbrev pub IsTrimmed : Text → Type 0
IsTrimmed [] = ⊥
IsTrimmed (c ∷ s) = (is_whitespace c ≡ false) × (trim_end_matches is_whitespace (c ∷ s) ≡ c ∷ s)

abbrev pub IsPiece : Piece → Type 0
IsPiece (blank pad) = IsBlank pad × (contains b',' pad ≡ false)
IsPiece (padded left e right) =
    IsBlank left
    × IsBlank right
    × IsNamed e
    × IsTrimmed (render e)
    × (contains b',' (left ++ (render e ++ right)) ≡ false)

no_comma : (p : Piece) → IsPiece p → contains b',' (text_of p) ≡ false
no_comma (blank pad) h = h.1
no_comma (padded left e right) (_, _, _, _, h) = h

trim-blank : (pad : Text) → IsBlank pad → trim pad ≡ []
unfolding trim_end_matches trim_start_matches
trim-blank pad h = ap (trim_end_matches is_whitespace) (
    ap (trim_start_matches is_whitespace) (sym (append-nil pad))
    ∙ trim_start-pad is_whitespace pad [] h)

trim-padded :
    (left core right : Text)
    → IsBlank left
    → IsBlank right
    → IsTrimmed core
    → trim (left ++ (core ++ right)) ≡ core
unfolding trim_start_matches
trim-padded left [] right l r core_is = elim core_is [ ]
trim-padded left (c ∷ s) right l r (starts, ends) =
    rw (trim_start-pad is_whitespace left (c ∷ s ++ right) l, starts)
      (trim_end-pad is_whitespace (c ∷ s) right r ∙ ends)

-- The text of a piece without its white space.
abbrev core_of : Piece → Text
core_of (blank _) = []
core_of (padded _ e _) = render e

trim-text_of : (p : Piece) → IsPiece p → trim (text_of p) ≡ core_of p
trim-text_of (blank pad) h = trim-blank pad h.0
trim-text_of (padded left e right) (l, r, _, t, _) = trim-padded left (render e) right l r t

trimmed-nonempty : (s : Text) → IsTrimmed s → is_empty s ≡ false
trimmed-nonempty [] t = elim t [ ]
trimmed-nonempty (c ∷ s) t = refl

split-join :
    (p : Piece) (ps : List Piece)
    → All IsPiece (p ∷ ps)
    → split b',' (join (map text_of (p ∷ ps))) ≡ map text_of (p ∷ ps)
split-join p [] h = split-no_sep b',' (text_of p) (no_comma p h.0)
split-join p (q ∷ ps) h =
    split-append b',' (text_of p) (join (map text_of (q ∷ ps))) (no_comma p h.0)
    ∙ ap (◌∷◌ (text_of p)) (split-join q ps h.1)

patterns-entries :
    (ps : List Piece)
    → All IsPiece ps
    → map pattern_of (filter (λ s. not (is_empty s)) (map trim (map text_of ps)))
      ≡ map denotes (entries ps)
patterns-entries [] h = refl
patterns-entries (blank pad ∷ ps) h = rw (trim-text_of (blank pad) h.0) (patterns-entries ps h.1)
patterns-entries (padded left e right ∷ ps) (h, hs) =
    let (_, _, named, trimmed, _) = h in
    rw
      (
        trim-text_of (padded left e right) h,
        trimmed-nonempty (render e) trimmed,
        pattern_of-render e named,
      )
      (ap (◌∷◌ (denotes e)) (patterns-entries ps hs))

-- A NO_PROXY value whose pieces between commas are entries, with white space around them or none, or only
-- white space or nothing at all, is read as the patterns that its entries denote, in order. An entry is
-- `*`, a dot and a name, a name `left.right` whose left is not empty and does not start with a dot, or a
-- name other than `*` without a dot; it has no comma, and neither starts nor ends with white space.
pub parse_no_proxy-join :
    (ps : List Piece)
    → All IsPiece ps
    → parse_no_proxy (join (map text_of ps)) ≡ map denotes (entries ps)
unfolding parse_no_proxy split trim_end_matches trim_start_matches
parse_no_proxy-join [] h = refl
parse_no_proxy-join (p ∷ ps) h =
    ap (λ parts. map pattern_of (filter (λ s. not (is_empty s)) (map trim parts)))
      (split-join p ps h)
    ∙ patterns-entries (p ∷ ps) h
