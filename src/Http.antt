-- ===== src/Http.antt =====
-- What the sources use of the crate `http`: header maps with their documented laws, and the checks of
-- names and values. A header name is lower-case text, a value its octets.
use wrest.Prelude.Text.{Text, text_eq}
use wrest.Prelude.{
  ℕ, Bool, List, [], ◌∷◌, ◌++◌, Option, none, some, ◌≡◌, if◌then◌else◌, not, filter, map,
  is_empty_list,
}

pub record HeaderMapLib : Type 1 where
  pub HeaderMap : Type 0
  pub empty : HeaderMap
  pub append : HeaderMap → Text → List ℕ → HeaderMap
  pub insert : HeaderMap → Text → List ℕ → HeaderMap
  -- the values of a name, in order
  pub get_all : HeaderMap → Text → List (List ℕ)
  -- all entries, the values of one name in order
  pub iter : HeaderMap → List (Text × List ℕ)
  pub get_all-empty : (n : Text) → get_all empty n ≡ []
  pub get_all-append :
      (h : HeaderMap) (m : Text) (v : List ℕ) (n : Text)
      → get_all (append h m v) n ≡ (if text_eq n m then get_all h n ++ (v ∷ []) else get_all h n)
  pub get_all-insert :
      (h : HeaderMap) (m : Text) (v : List ℕ) (n : Text)
      → get_all (insert h m v) n ≡ (if text_eq n m then v ∷ [] else get_all h n)
  pub iter-get_all :
      (h : HeaderMap) (n : Text)
      → map (λ (e : Text × List ℕ). e.1) (filter (λ (e : Text × List ℕ). text_eq n e.0) (iter h))
        ≡ get_all h n
  -- `HeaderName::from_bytes`, which gives the lower-case name, and `HeaderValue::from_bytes`
  pub name_from_bytes : List ℕ → Option Text
  pub value_from_bytes : List ℕ → Option (List ℕ)
  -- `HeaderValue::to_str`
  pub to_str : List ℕ → Option Text

-- `HeaderMap::get` and `HeaderMap::contains_key`
abbrev pub head? : List (List ℕ) → Option (List ℕ)
head? [] = none
head? (v ∷ _) = some v

abbrev pub get : (lib : HeaderMapLib) → lib.HeaderMap → Text → Option (List ℕ)
get lib h n = head? (lib.get_all h n)

abbrev pub contains_key : (lib : HeaderMapLib) → lib.HeaderMap → Text → Bool
contains_key lib h n = not (is_empty_list (lib.get_all h n))
