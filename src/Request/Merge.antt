-- ===== src/Request/Merge.antt =====
-- src/request.rs, `build`: which values the merge of default and per-request headers gives a name.
use wrest.Error.{Error}
use wrest.Http.{HeaderMapLib, contains_key}
use wrest.Prelude.Result.{ok, ok_or, ok-injective, >>=-eq-ok}
use wrest.Prelude.Text.{Text, codes, text_eq, text_eq_iff, to_ascii_lowercase}
use wrest.Prelude.{
  ℕ, false, List, [], ◌∷◌, ◌++◌, Option, none, some, map, filter, ◌≡◌, refl, sym, ap, ◌∙◌, arith,
  not, if◌then◌else◌, Bool-cases, Option-cases, inl, inr,
}
use wrest.Request.{
  narrow_latin1, append_all, add_defaults, add_per_request, is_per_request, http_error, add_accept,
  add_userinfo, basic_credentials, build, Request, RequestBuilder,
}
use wrest.Url.Edit.{take_decoded_userinfo}

append_nil : {A : Type 0} (xs : List A) → xs ++ [] ≡ xs
append_nil [] = refl
append_nil (x ∷ xs) = ap (◌∷◌ x) (append_nil xs)

append_assoc : {A : Type 0} (xs ys zs : List A) → (xs ++ ys) ++ zs ≡ xs ++ (ys ++ zs)
append_assoc [] ys zs = refl
append_assoc (x ∷ xs) ys zs = ap (◌∷◌ x) (append_assoc xs ys zs)

-- The values that a list of entries has for a name.
abbrev named : List (Text × List ℕ) → Text → List (List ℕ)
named es n = map (λ (e : Text × List ℕ). e.1) (filter (λ (e : Text × List ℕ). text_eq n e.0) es)

named-cons :
    (k : Text) (v : List ℕ) (es : List (Text × List ℕ)) (n : Text)
    → (if text_eq n k then v ∷ named es n else named es n) ≡ named ((k, v) ∷ es) n
named-cons k v es n = elim (Bool-cases (text_eq n k)) [
  | inl same ↦ rw same refl
  | inr other ↦ rw other refl
]

kept :
    (hs : List (Text × Text)) (es : List (Text × List ℕ)) (n : Text)
    → named (filter (λ (e : Text × List ℕ). not (is_per_request hs e.0)) es) n
      ≡ (if is_per_request hs n then [] else named es n)
kept hs [] n = ground arith
kept hs ((k, v) ∷ es) n = elim (Bool-cases (text_eq n k)) [
  | inl same ↦ ground (arith, same, ap (is_per_request hs) ((text_eq_iff n k).0 same), kept hs es n)
  | inr other ↦ ground (arith, other, kept hs es n)
]

module _ (http : HeaderMapLib) where
  open http use {HeaderMap, get_all}

  append_step :
      (h : HeaderMap) (k : Text) (v : List ℕ) (n : Text) (rest : List (List ℕ))
      → get_all (http.append h k v) n ++ rest
        ≡ get_all h n ++ (if text_eq n k then v ∷ rest else rest)
  append_step h k v n rest = elim (Bool-cases (text_eq n k)) [
    | inl same ↦ rw (http.get_all-append h k v n, same) (append_assoc (get_all h n) (v ∷ []) rest)
    | inr other ↦ rw (http.get_all-append h k v n, other) refl
  ]

  get_all-append_all :
      (h : HeaderMap) (es : List (Text × List ℕ)) (n : Text)
      → get_all (append_all http h es) n ≡ get_all h n ++ named es n
  unfolding append_all
  get_all-append_all h [] n = sym (append_nil _)
  get_all-append_all h ((k, v) ∷ es) n =
      get_all-append_all (http.append h k v) es n
      ∙ (append_step h k v n (named es n) ∙ ap (λ x. get_all h n ++ x) (named-cons k v es n))

  -- The default headers that are kept.
  get_all-add_defaults :
      (d : HeaderMap) (hs : List (Text × Text)) (n : Text)
      → get_all (add_defaults http d hs) n ≡ (if is_per_request hs n then [] else get_all d n)
  unfolding add_defaults
  get_all-add_defaults d hs n =
      get_all-append_all http.empty _ n
      ∙ (ap
            (λ x.
              x
              ++ named (filter (λ (e : Text × List ℕ). not (is_per_request hs e.0)) (http.iter d))
                  n)
            (http.get_all-empty n)
          ∙ (kept hs (http.iter d) n
              ∙ ap (λ x. if is_per_request hs n then [] else x) (http.iter-get_all d n)))

  -- The values that the per-request headers have for a name.
  unfoldable pub own_values : List (Text × Text) → Text → List (List ℕ)
  own_values [] n = []
  own_values ((name, value) ∷ hs) n =
      let rest = own_values hs n in
      if text_eq n (to_ascii_lowercase name)
      then elim (http.value_from_bytes (narrow_latin1 value)) [ none ↦ rest | some v ↦ v ∷ rest ]
      else rest

  own_values-none :
      (hs : List (Text × Text)) (n : Text) → is_per_request hs n ≡ false → own_values hs n ≡ []
  unfolding own_values is_per_request
  own_values-none [] n h = refl
  own_values-none ((name, value) ∷ hs) n h = ground (arith, own_values-none hs n)

  ok_or-ok : {A : Type 0} (o : Option A) (e : Error) (a : A) → ok_or o e ≡ ok a → o ≡ some a
  ok_or-ok none e a h = cc
  ok_or-ok (some b) e a h = ground arith

  chosen :
      (d : HeaderMap) (hs : List (Text × Text)) (n : Text)
      → (if is_per_request hs n then [] else get_all d n) ++ own_values hs n
        ≡ (if is_per_request hs n then own_values hs n else get_all d n)
  chosen d hs n = elim (Bool-cases (is_per_request hs n)) [
    | inl per ↦ rw per refl
    | inr default ↦ rw (default, own_values-none hs n default) (append_nil _)
  ]

  own-step :
      (name value : Text) (hs : List (Text × Text)) (n k : Text) (v : List ℕ)
      → k ≡ to_ascii_lowercase name
      → http.value_from_bytes (narrow_latin1 value) ≡ some v
      → (if text_eq n k then v ∷ own_values hs n else own_values hs n)
        ≡ own_values ((name, value) ∷ hs) n
  unfolding own_values
  own-step name value hs n k v k_is v_is = rw (v_is, own_values) (rw k_is refl)

  accept-others :
      (h : HeaderMap) (n : Text)
      → text_eq n (codes "accept") ≡ false
      → get_all (add_accept http h) n ≡ get_all h n
  unfolding add_accept
  accept-others h n other = elim (Bool-cases (contains_key http h (codes "accept"))) [
    | inl has ↦ rw (has, add_accept) refl
    | inr lacks ↦
        rw (lacks, add_accept)
          (rw (http.get_all-insert h (codes "accept") (codes "*/*") n, other) refl)
  ]

  userinfo-others :
      (encode_base64 : List ℕ → Text) (h : HeaderMap) (info : Option (List ℕ × Option (List ℕ)))
      (n : Text)
      → text_eq n (codes "authorization") ≡ false
      → get_all (add_userinfo http encode_base64 h info) n ≡ get_all h n
  unfolding add_userinfo
  userinfo-others encode_base64 h none n other = refl
  userinfo-others encode_base64 h (some (username, password)) n other =
      elim (Bool-cases (contains_key http h (codes "authorization"))) [
        | inl has ↦ rw (has, add_userinfo) refl
        | inr lacks ↦
            elim (Option-cases
              (http.value_from_bytes (basic_credentials http encode_base64 username password))) [
                | inl e ↦ rw (lacks, e, add_userinfo) refl
                | inr (v, e) ↦
                    rw (lacks, e, add_userinfo)
                      (rw (http.get_all-insert h (codes "authorization") v n, other) refl)
              ]
      ]

  module _
      (lower_names : (text : Text) (name : Text)
        → http.name_from_bytes text ≡ some name
        → name ≡ to_ascii_lowercase text) where
    get_all-add_per_request :
        (hs : List (Text × Text)) (h h' : HeaderMap) (n : Text)
        → add_per_request http h hs ≡ ok h'
        → get_all h' n ≡ get_all h n ++ own_values hs n
    unfolding add_per_request own_values
    get_all-add_per_request [] h h' n e =
        ap (λ x. get_all x n) (sym (ok-injective h h' e)) ∙ sym (append_nil _)
    get_all-add_per_request ((name, value) ∷ hs) h h' n e =
        let (k, e₁, r₁) = >>=-eq-ok (ok_or (http.name_from_bytes name) http_error) _ e in
        let (v, e₂, r₂) =
          >>=-eq-ok (ok_or (http.value_from_bytes (narrow_latin1 value)) http_error) _ r₁ in
        let k_is = lower_names name k (ok_or-ok _ _ k e₁) in
        let v_is = ok_or-ok _ _ v e₂ in
        get_all-add_per_request hs (http.append h k v) h' n r₂
        ∙ (append_step h k v n (own_values hs n)
            ∙ ap (λ x. get_all h n ++ x) (own-step name value hs n k v k_is v_is))

    merged-get_all :
        (d : HeaderMap) (hs : List (Text × Text)) (h' : HeaderMap) (n : Text)
        → add_per_request http (add_defaults http d hs) hs ≡ ok h'
        → get_all h' n ≡ (if is_per_request hs n then own_values hs n else get_all d n)
    merged-get_all d hs h' n e =
        get_all-add_per_request hs (add_defaults http d hs) h' n e
        ∙ (ap (λ x. x ++ own_values hs n) (get_all-add_defaults d hs n) ∙ chosen d hs n)

    -- A built request has, for each header name but Accept and Authorization, the values that the
    -- builder was given, in order, or where it was given none the default values of the client.
    pub build-get_all :
        (encode_base64 : List ℕ → Text) (decode : Text → List ℕ)
        (method_from_bytes : Text → Option Text) (b : RequestBuilder HeaderMap)
        (r : Request HeaderMap) (n : Text)
        → text_eq n (codes "accept") ≡ false
        → text_eq n (codes "authorization") ≡ false
        → build http encode_base64 decode method_from_bytes b ≡ ok r
        → get_all r.headers n ≡ (
            if is_per_request b.headers n
            then own_values b.headers n
            else get_all b.default_headers n)
    unfolding build
    build-get_all encode_base64 decode method_from_bytes b r n no_accept no_auth e =
        let (url, e₁, r₁) = >>=-eq-ok b.url _ e in
        let (merged, e₂, r₂) =
          >>=-eq-ok (add_per_request http (add_defaults http b.default_headers b.headers) b.headers)
            _ r₁ in
        let (method, e₃, r₃) = >>=-eq-ok (ok_or (method_from_bytes b.method) http_error) _ r₂ in
        ap (λ (x : Request HeaderMap). get_all x.headers n) (sym (ok-injective _ r r₃))
        ∙ (userinfo-others encode_base64 (add_accept http merged)
              (take_decoded_userinfo decode url).1 n no_auth
            ∙ (accept-others merged n no_accept
                ∙ merged-get_all b.default_headers b.headers merged n e₂))
