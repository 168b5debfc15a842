-- ===== src/WinHttp/Reply/Headers.antt =====
-- src/winhttp.rs: what `parse_raw_headers` makes of a block of lines.
use mathlib.Core.List.{append-nil, append_assoc}
use wrest.Encoding.Utf8RoundTrip.{encode_utf8}
use wrest.Http.{HeaderMapLib}
use wrest.Prelude.Text.{
  Text, codes, is_empty, split, split_once, split_cons, starts_with, text_eq, trim, contains,
  trim_start_matches, is_whitespace,
}
use wrest.Prelude.{
  ℕ, true, false, List, [], ◌∷◌, ◌++◌, map, none, some, if◌then◌else◌, ◌==◌, ◌≡◌, refl, sym, ◌∙◌,
  ap, arith, Bool-cases, Option-cases, inl, inr, All, ◌⊎◌,
}
use wrest.WinHttp.Reply.{
  lines, strip_cr, finish_lines, header_of_line, append_lines, parse_raw_headers,
}

-- The block of lines that has a status line and some headers, as a server sends it.
abbrev pub crlf : Text
crlf = 13 ∷ 10 ∷ []

abbrev pub header_line : Text × Text → Text
header_line (name, value) = name ++ (codes ": " ++ value)

abbrev pub header_block : List Text → Text
header_block [] = crlf
header_block (line ∷ rest) = line ++ (crlf ++ header_block rest)

line-split :
    (line rest : Text)
    → contains 10 line ≡ false
    → split 10 (line ++ (13 ∷ 10 ∷ rest)) ≡ (line ++ (13 ∷ [])) ∷ split 10 rest
unfolding split contains
line-split [] rest plain = refl
line-split (c ∷ line) rest plain =
    let other : (c == 10) ≡ false = ground arith in
    let ih = line-split line rest (ground arith) in rw other (ap (λ ps. split_cons c ps) ih)

strip_cr-snoc : (line : Text) → strip_cr (line ++ (13 ∷ [])) ≡ line
unfolding strip_cr
strip_cr-snoc [] = refl
strip_cr-snoc (c ∷ []) = ground arith
strip_cr-snoc (c ∷ d ∷ line) = let ih = strip_cr-snoc (d ∷ line) in ground (arith, ih)

split-is_cons : (s : Text) → (p : Text) × (ps : List Text) × (split 10 s ≡ p ∷ ps)
unfolding split
split-is_cons [] = ([], [], refl)
split-is_cons (c ∷ s) = elim (Bool-cases (c == 10)) [
  | inl e ↦ ([], split 10 s, rw e refl)
  | inr e ↦ let (p, ps, ih) = split-is_cons s in (c ∷ p, ps, rw e (ap (λ qs. split_cons c qs) ih))
]

finish_lines-split :
    (p s : Text) → finish_lines (p ∷ split 10 s) ≡ strip_cr p ∷ finish_lines (split 10 s)
finish_lines-split p s = let (q, qs, e) = split-is_cons s in rw e refl

lines-cons :
    (line rest : Text)
    → contains 10 line ≡ false
    → lines (line ++ (13 ∷ 10 ∷ rest)) ≡ line ∷ lines rest
unfolding lines
lines-cons line rest plain =
    ap finish_lines (line-split line rest plain)
    ∙ finish_lines-split (line ++ (13 ∷ [])) rest
    ∙ ap (λ l. l ∷ finish_lines (split 10 rest)) (strip_cr-snoc line)

lines-crlf : lines crlf ≡ [] ∷ []
unfolding lines split strip_cr
lines-crlf = refl

lines-header_block :
    (ls : List Text)
    → All (λ l. contains 10 l ≡ false) ls
    → lines (header_block ls) ≡ ls ++ ([] ∷ [])
lines-header_block [] plain = lines-crlf
lines-header_block (l ∷ ls) (here, there) =
    lines-cons l (header_block ls) here ∙ ap (λ t. l ∷ t) (lines-header_block ls there)

is_empty-append : (name : Text) (rest : Text) → is_empty (name ++ (b':' ∷ rest)) ≡ false
is_empty-append [] rest = refl
is_empty-append (c ∷ name) rest = refl

trim_space : (value : Text) → trim (32 ∷ value) ≡ trim value
unfolding trim_start_matches is_whitespace
trim_space value = refl

module _ (http : HeaderMapLib) where
  -- A name and a value as a server writes them: they are accepted as they stand, and the name of the field
  -- ends at its colon.
  pub record IsField (entry : Text × Text) (n : Text) (v : List ℕ) : Type 0 where
    pub no_colon : contains b':' entry.0 ≡ false
    pub trimmed_name : trim entry.0 ≡ entry.0
    pub trimmed_value : trim entry.1 ≡ entry.1
    pub is_name : http.name_from_bytes (encode_utf8 entry.0) ≡ some n
    pub is_value : http.value_from_bytes (encode_utf8 entry.1) ≡ some v
    pub one_line : contains 10 (header_line entry) ≡ false
    pub no_status : starts_with (codes "HTTP/") (header_line entry) ≡ false

  split_once-field :
      (name rest : Text)
      → contains b':' name ≡ false
      → split_once b':' (name ++ (b':' ∷ rest)) ≡ some (name, rest)
  unfolding split_once contains
  split_once-field [] rest plain = refl
  split_once-field (c ∷ name) rest plain =
      let ih = split_once-field name rest (ground arith) in ground (arith, ih)

  header_of_line-field :
      (entry : Text × Text) (n : Text) (v : List ℕ)
      → IsField entry n v
      → header_of_line http (header_line entry) ≡ some (n, v)
  unfolding header_of_line
  header_of_line-field entry n v is =
      let e : split_once b':' (header_line entry) ≡ some (entry.0, 32 ∷ entry.1) =
        split_once-field entry.0 (32 ∷ entry.1) is.no_colon in
      let some_text : is_empty (header_line entry) ≡ false =
        is_empty-append entry.0 (32 ∷ entry.1) in
      let name : http.name_from_bytes (encode_utf8 (trim entry.0)) ≡ some n =
        ap (λ t. http.name_from_bytes (encode_utf8 t)) is.trimmed_name ∙ is.is_name in
      let value : http.value_from_bytes (encode_utf8 (trim (32 ∷ entry.1))) ≡ some v =
        ap (λ t. http.value_from_bytes (encode_utf8 t)) (trim_space entry.1 ∙ is.trimmed_value)
        ∙ is.is_value in
      ground (arith, e, some_text, is.no_status, name, value)

  status_skipped :
      (status : Text)
      → starts_with (codes "HTTP/") status ≡ true
      → header_of_line http status ≡ none
  unfolding header_of_line
  status_skipped status is_status = ground arith

  -- The values of a name among some lines, in order.
  abbrev values_of : Text → List Text → List (List ℕ)
  values_of n [] = []
  values_of n (line ∷ ls) =
      let rest = values_of n ls in
      elim (header_of_line http line) [
        | none ↦ rest
        | some (m, v) ↦ if text_eq n m then v ∷ rest else rest
      ]

  values_of-none :
      (n line : Text) (ls : List Text)
      → header_of_line http line ≡ none
      → values_of n (line ∷ ls) ≡ values_of n ls
  values_of-none n line ls e = rw (e, values_of) refl

  values_of-some :
      (n line m : Text) (v : List ℕ) (ls : List Text)
      → header_of_line http line ≡ some (m, v)
      → values_of n (line ∷ ls) ≡ (if text_eq n m then v ∷ values_of n ls else values_of n ls)
  values_of-some n line m v ls e = rw (e, values_of) refl

  get_all-append_lines :
      (ls : List Text) (h : http.HeaderMap) (n : Text)
      → http.get_all (append_lines http h ls) n ≡ http.get_all h n ++ values_of n ls
  unfolding append_lines
  get_all-append_lines [] h n = sym (append-nil (http.get_all h n))
  get_all-append_lines (line ∷ ls) h n = elim (Option-cases (header_of_line http line)) [
    | inl e ↦
        rw (e, append_lines)
          (get_all-append_lines ls h n
            ∙ ap (λ vs. http.get_all h n ++ vs) (sym (values_of-none n line ls e)))
    | inr ((m, v), e) ↦
        rw (e, append_lines)
          (get_all-append_lines ls (http.append h m v) n
            ∙ by_name m v (Bool-cases (text_eq n m))
            ∙ ap (λ vs. http.get_all h n ++ vs) (sym (values_of-some n line m v ls e)))
  ]
    where
      by_name :
          (m : Text) (v : List ℕ)
          → ((text_eq n m ≡ true) ⊎ (text_eq n m ≡ false))
          → http.get_all (http.append h m v) n ++ values_of n ls
            ≡ http.get_all h n ++ (if text_eq n m then v ∷ values_of n ls else values_of n ls)
      by_name m v (inl same) =
          rw (http.get_all-append h m v n)
            (rw same (append_assoc (http.get_all h n) (v ∷ []) (values_of n ls)))
      by_name m v (inr other) = rw (http.get_all-append h m v n) (rw other refl)

  -- Some fields with what they stand for.
  pub data Fields : List (Text × Text) → List (Text × List ℕ) → Type 0 where
    no_field : Fields [] []
    field :
        {entry : Text × Text} {entries : List (Text × Text)} {n : Text} {v : List ℕ}
        {parsed : List (Text × List ℕ)}
        → IsField entry n v
        → Fields entries parsed
        → Fields (entry ∷ entries) ((n, v) ∷ parsed)

  abbrev pub values : Text → List (Text × List ℕ) → List (List ℕ)
  values n [] = []
  values n ((m, v) ∷ parsed) = let rest = values n parsed in if text_eq n m then v ∷ rest else rest

  header_of_line-end : header_of_line http [] ≡ none
  unfolding header_of_line
  header_of_line-end = refl

  values_of-Fields :
      {entries : List (Text × Text)} {parsed : List (Text × List ℕ)} (n : Text)
      → Fields entries parsed
      → values_of n (map header_line entries ++ ([] ∷ [])) ≡ values n parsed
  values_of-Fields n no_field = values_of-none n [] [] header_of_line-end
  values_of-Fields n (field {entry} {n = m} {v = v} is rest) =
      values_of-some n (header_line entry) m v _ (header_of_line-field entry m v is)
      ∙ ap (λ vs. if text_eq n m then v ∷ vs else vs) (values_of-Fields n rest)

  Fields-one_line :
      {entries : List (Text × Text)} {parsed : List (Text × List ℕ)}
      → Fields entries parsed
      → All (λ l. contains 10 l ≡ false) (map header_line entries)
  Fields-one_line no_field = tt
  Fields-one_line (field is rest) = (is.one_line, Fields-one_line rest)

  -- Parsing the block that a server sends, a status line and then its fields, gives back for every name
  -- the values of its fields, in order and none lost. The condition is that the names and values are
  -- ones that the header map takes, without surrounding white space.
  pub parse_raw_headers-header_block :
      (status : Text) {entries : List (Text × Text)} {parsed : List (Text × List ℕ)}
      → contains 10 status ≡ false
      → starts_with (codes "HTTP/") status ≡ true
      → Fields entries parsed
      → (n : Text)
      → http.get_all (parse_raw_headers http (header_block (status ∷ map header_line entries))) n
        ≡ values n parsed
  unfolding parse_raw_headers
  parse_raw_headers-header_block status {entries} {parsed} plain is_status fields n =
      ap (λ ls. http.get_all (append_lines http http.empty ls) n)
        (lines-header_block (status ∷ map header_line entries) (plain, Fields-one_line fields))
      ∙ get_all-append_lines (status ∷ (map header_line entries ++ ([] ∷ []))) http.empty n
      ∙ ap (λ vs. vs ++ values_of n (status ∷ (map header_line entries ++ ([] ∷ []))))
          (http.get_all-empty n)
      ∙ values_of-none n status _ (status_skipped status is_status)
      ∙ values_of-Fields n fields
