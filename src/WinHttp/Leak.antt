-- ===== src/WinHttp/Leak.antt =====
-- src/winhttp.rs: what the redirects of a request can carry to a new origin.
use mathlib.Core.Path.{subst}
use wrest.Error.{Error}
use wrest.Prelude.Result.{Result, ok, err, Result-cases}
use wrest.Prelude.Text.{Text, text_eq, text_eq_iff}
use wrest.Prelude.{
  Bool, true, false, List, [], ◌∷◌, Option, none, some, ◌≡◌, refl, sym, ap, ◌∙◌, arith, All,
  Bool-cases, inl, inr, any,
}
use wrest.Url.Types.{Url}
use wrest.WinHttp.Redirect.{
  Origin, from_url, same_origin, RequestState, is_aborted, abort_from_callback, strip_all,
  sensitive_headers_on_cross_origin, finish_strip, on_redirect, on_redirects,
}

same_origin-eq : (a b : Origin) → same_origin a b ≡ true → a ≡ b
unfolding same_origin
same_origin-eq a b h =
    ground (arith, (text_eq_iff a.scheme b.scheme).0, (text_eq_iff a.host b.host).0)

-- A redirect to a URL of the origin.
abbrev pub GoesTo : Origin → Result Error Url → Type 0
GoesTo o (ok url) = o ≡ from_url url
GoesTo o (err _) = ⊥

both_ways : {b : Bool} → b ≡ true → b ≡ false → ⊥
both_ways h k = ground arith

module _ {Handle : Type 0} (remove_header : Handle → Text → Result Error Handle)
    (carries : Handle → Text → Bool)
    (removes : (h : Handle) (n : Text) (h' : Handle)
      → remove_header h n ≡ ok h'
      → carries h' n ≡ false)
    (adds_none : (h : Handle) (n : Text) (h' : Handle) (m : Text)
      → remove_header h n ≡ ok h'
      → carries h m ≡ false
      → carries h' m ≡ false) where
  strip_all-absent :
      (names : List Text) (h : Handle) (m : Text)
      → carries h m ≡ false
      → carries (strip_all remove_header names h).0 m ≡ false
  unfolding strip_all
  strip_all-absent [] h m c = c
  strip_all-absent (n ∷ names) h m c = elim (Result-cases (remove_header h n)) [
    | inl (h', e) ↦ rw (e, strip_all) (strip_all-absent names h' m (adds_none h n h' m e c))
    | inr (_, e) ↦ rw (e, strip_all) c
  ]

  strip_all-ok :
      (names : List Text) {n : Text} {h h' : Handle}
      → remove_header h n ≡ ok h'
      → strip_all remove_header (n ∷ names) h ≡ strip_all remove_header names h'
  unfolding strip_all
  strip_all-ok names e = rw (e, strip_all) refl

  strip_all-err :
      (names : List Text) {n : Text} {h : Handle} {e : Error}
      → remove_header h n ≡ err e
      → strip_all remove_header (n ∷ names) h ≡ (h, some (n, e))
  unfolding strip_all
  strip_all-err names e = rw (e, strip_all) refl

  -- Where every removal succeeds, none of the names is left.
  strip_all-removes :
      (names : List Text) (h : Handle)
      → (strip_all remove_header names h).1 ≡ none
      → All (λ n. carries (strip_all remove_header names h).0 n ≡ false) names
  strip_all-removes [] h e = tt
  strip_all-removes (n ∷ names) h e = elim (Result-cases (remove_header h n)) [
    | inl (h', r) ↦
        subst (λ (x : Handle × Option (Text × Error)). All (λ m. carries x.0 m ≡ false) (n ∷ names))
          (sym (strip_all-ok names r))
          (
            strip_all-absent names h' n (removes h n h' r),
            strip_all-removes names h' (sym (ap (λ x. x.1) (strip_all-ok names r)) ∙ e),
          )
    | inr (_, r) ↦ cc (sym (ap (λ x. x.1) (strip_all-err names r)) ∙ e)
  ]

  abort-aborted :
      (state : RequestState) (reason : Error)
      → is_aborted (abort_from_callback state reason).callback_abort ≡ true
  unfolding abort_from_callback is_aborted
  abort-aborted state reason = ground arith

  -- The three ends of a redirect: the same origin, a stripped request at a new one, or an abort.
  data Ended (state : RequestState) (h : Handle) (t : Result Error Url) (r : RequestState × Handle)
      : Type 0 where
    stays :
        (url : Url)
        → t ≡ ok url
        → state.current_origin ≡ from_url url
        → r ≡ (state, h)
        → Ended state h t r
    strips :
        r.0.callback_abort ≡ state.callback_abort
        → All (λ n. carries r.1 n ≡ false) sensitive_headers_on_cross_origin
        → Ended state h t r
    aborts : is_aborted r.0.callback_abort ≡ true → Ended state h t r

  finish-Ended :
      (state : RequestState) (h : Handle) (url : Url) (r : Handle × Option (Text × Error))
      → (r.1 ≡ none → All (λ n. carries r.0 n ≡ false) sensitive_headers_on_cross_origin)
      → Ended state h (ok url) (finish_strip remove_header state url r)
  unfolding finish_strip
  finish-Ended state h url (h', none) gone = strips refl (gone refl)
  finish-Ended state h url (h', some (n, e)) gone = aborts (abort-aborted state _)

  on_redirect-Ended :
      (state : RequestState) (h : Handle) (t : Result Error Url)
      → Ended state h t (on_redirect remove_header state h t)
  unfolding on_redirect
  on_redirect-Ended state h (err reason) = aborts (abort-aborted state reason)
  on_redirect-Ended state h (ok url) =
      elim (Bool-cases (same_origin state.current_origin (from_url url))) [
        | inl same ↦ stays url refl (same_origin-eq _ _ same) (rw (same, on_redirect) refl)
        | inr other ↦
            rw (other, on_redirect)
              (finish-Ended state h url _ (strip_all-removes sensitive_headers_on_cross_origin h))
      ]

  -- An abort is kept, and no redirect adds a header.
  finish-keeps :
      (state : RequestState) (url : Url) (r : Handle × Option (Text × Error))
      → is_aborted state.callback_abort ≡ true
      → is_aborted (finish_strip remove_header state url r).0.callback_abort ≡ true
  unfolding finish_strip
  finish-keeps state url (h', none) a = a
  finish-keeps state url (h', some (n, e)) a = abort-aborted state _

  finish-handle :
      (state : RequestState) (url : Url) (r : Handle × Option (Text × Error))
      → (finish_strip remove_header state url r).1 ≡ r.0
  unfolding finish_strip
  finish-handle state url (h', none) = refl
  finish-handle state url (h', some (n, e)) = refl

  on_redirect-aborted :
      (state : RequestState) (h : Handle) (t : Result Error Url)
      → is_aborted state.callback_abort ≡ true
      → is_aborted (on_redirect remove_header state h t).0.callback_abort ≡ true
  unfolding on_redirect
  on_redirect-aborted state h (err reason) a = abort-aborted state reason
  on_redirect-aborted state h (ok url) a =
      elim (Bool-cases (same_origin state.current_origin (from_url url))) [
        | inl same ↦ rw (same, on_redirect) a
        | inr other ↦ rw (other, on_redirect) (finish-keeps state url _ a)
      ]

  on_redirect-absent :
      (state : RequestState) (h : Handle) (t : Result Error Url) (m : Text)
      → carries h m ≡ false
      → carries (on_redirect remove_header state h t).1 m ≡ false
  unfolding on_redirect
  on_redirect-absent state h (err reason) m c = c
  on_redirect-absent state h (ok url) m c =
      elim (Bool-cases (same_origin state.current_origin (from_url url))) [
        | inl same ↦ rw (same, on_redirect) c
        | inr other ↦
            rw (other, on_redirect)
              (rw
                (finish-handle state url
                  (strip_all remove_header sensitive_headers_on_cross_origin h))
                (strip_all-absent sensitive_headers_on_cross_origin h m c))
      ]

  on_redirects-aborted :
      (ts : List (Result Error Url)) (state : RequestState) (h : Handle)
      → is_aborted state.callback_abort ≡ true
      → is_aborted (on_redirects remove_header state h ts).0.callback_abort ≡ true
  unfolding on_redirects
  on_redirects-aborted [] state h a = a
  on_redirects-aborted (t ∷ ts) state h a =
      on_redirects-aborted ts _ _ (on_redirect-aborted state h t a)

  on_redirects-absent :
      (ts : List (Result Error Url)) (state : RequestState) (h : Handle) (m : Text)
      → carries h m ≡ false
      → carries (on_redirects remove_header state h ts).1 m ≡ false
  unfolding on_redirects
  on_redirects-absent [] state h m c = c
  on_redirects-absent (t ∷ ts) state h m c =
      on_redirects-absent ts _ _ m (on_redirect-absent state h t m c)

  All-at :
      (p : Text → Type 0) (names : List Text) (n : Text)
      → All p names
      → any (λ m. text_eq n m) names ≡ true
      → p n
  All-at p [] n a e = absurd (ground arith)
  All-at p (m ∷ names) n a e = elim (Bool-cases (text_eq n m)) [
    | inl same ↦ subst p (sym ((text_eq_iff n m).0 same)) a.0
    | inr other ↦ All-at p names n a.1 (ground arith)
  ]

  stays-next :
      {state : RequestState} {h : Handle} {r : RequestState × Handle} (ts : List (Result Error Url))
      → r ≡ (state, h)
      → on_redirects remove_header r.0 r.1 ts ≡ on_redirects remove_header state h ts
  stays-next ts e = rw e refl

  -- However a request is redirected: while it is not aborted and its handle still carries one of the
  -- sensitive headers, every redirect so far was to a URL of the origin that the request had at first.
  pub no_leak :
      (ts : List (Result Error Url)) (state : RequestState) (h : Handle) (n : Text)
      → any (λ m. text_eq n m) sensitive_headers_on_cross_origin ≡ true
      → is_aborted (on_redirects remove_header state h ts).0.callback_abort ≡ false
      → carries (on_redirects remove_header state h ts).1 n ≡ true
      → All (GoesTo state.current_origin) ts
  unfolding on_redirects
  no_leak [] state h n s a c = tt
  no_leak (t ∷ ts) state h n s a c = elim (on_redirect-Ended state h t) [
    | stays url e same r ↦ (
      subst (GoesTo state.current_origin) (sym e) same,
      no_leak ts state h n s (sym (ap (λ x. is_aborted x.0.callback_abort) (stays-next ts r)) ∙ a)
          (sym (ap (λ x. carries x.1 n) (stays-next ts r)) ∙ c),
    )
    | strips _ gone ↦ absurd (
        both_ways c (
          on_redirects-absent ts _ _ n (
            All-at (λ x. carries (on_redirect remove_header state h t).1 x ≡ false)
              sensitive_headers_on_cross_origin n gone s)))
    | aborts b ↦ absurd (both_ways (on_redirects-aborted ts _ _ b) a)
  ]
