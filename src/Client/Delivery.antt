-- ===== src/Client/Delivery.antt =====
-- src/client.rs, `execute_inner`: when an attempt hands a response to the caller, and why it fails.
use mathlib.Core.Path.{subst}
use wrest.Body.{Body}
use wrest.Client.Deadline.{InTime, TooLate, Won, Lost, race-cases, InTime-exclusive}
use wrest.Client.Downgrade.{IsDowngrade, translate-IsDowngrade, IsDowngrade-translate}
use wrest.Client.Inner.{
  Limits, Encounter, translate_blocked_https_downgrade, execute_inner, race, expired,
  refuse_downgrade, scheme_error, timeout_error, downgrade_error,
}
use wrest.Error.{Error}
use wrest.Http.{HeaderMapLib}
use wrest.Prelude.Result.{Result, ok, err, ◌>>=◌, >>=-eq-ok, Result-cases}
use wrest.Prelude.{
  ℕ, true, false, ◌||◌, ◌⊎◌, inl, inr, not, Option, arith, ◌≡◌, ◌↔◌, Option-cases, Bool-cases, refl,
  if◌then◌else◌, ◌∙◌, sym, ap,
}
use wrest.Response.Types.{RawResponse, Response, from_raw}
use wrest.Url.Parse.{UriLib}
use wrest.Url.Types.{Url}

module _ (http : HeaderMapLib) (uri : UriLib) (limits : Limits) (url : Url) (deadline : Option ℕ)
    (e : Encounter http.HeaderMap) (body : Option Body) where
  pub record Delivered (r : Response http.HeaderMap) : Type 0 where
    pub raw : RawResponse http.HeaderMap
    pub replied : e.reply body ≡ ok raw
    pub response_is : r ≡ from_raw raw deadline
    pub scheme_allowed : (not limits.https_only || url.is_https) ≡ true
    pub in_time : InTime deadline e
    pub not_downgraded : (limits.redirect_follows ≡ false) ⊎ (IsDowngrade http uri raw → ⊥)

  -- The reasons for which an attempt fails.
  pub data Refused : Error → Type 0 where
    scheme : limits.https_only ≡ true → url.is_https ≡ false → Refused (scheme_error url)
    late : TooLate deadline e → Refused (timeout_error url)
    failed : {x : Error} → e.reply body ≡ err x → Refused x
    downgraded :
        (raw : RawResponse http.HeaderMap)
        → e.reply body ≡ ok raw
        → limits.redirect_follows ≡ true
        → IsDowngrade http uri raw
        → Refused (downgrade_error raw.url)

  refuse_downgrade-ok :
      (raw : RawResponse http.HeaderMap) (r : Response http.HeaderMap)
      → refuse_downgrade http uri limits.redirect_follows deadline raw ≡ ok r
      → (r ≡ from_raw raw deadline)
        × ((limits.redirect_follows ≡ false) ⊎ (IsDowngrade http uri raw → ⊥))
  unfolding refuse_downgrade
  refuse_downgrade-ok raw r h =
      elim (Option-cases (translate_blocked_https_downgrade http uri raw)) [
        | inl kept ↦ (
          ground (arith, h, kept),
          inr (λ d. absurd (ground (arith, kept, IsDowngrade-translate http uri raw d))),
        )
        | inr (x, found) ↦ (ground (arith, h, found), inl (ground (arith, h, found)))
      ]

  ok-refuse_downgrade :
      (raw : RawResponse http.HeaderMap)
      → (limits.redirect_follows ≡ false) ⊎ (IsDowngrade http uri raw → ⊥)
      → refuse_downgrade http uri limits.redirect_follows deadline raw ≡ ok (from_raw raw deadline)
  unfolding refuse_downgrade
  ok-refuse_downgrade raw h = elim (Option-cases (translate_blocked_https_downgrade http uri raw)) [
    | inl kept ↦ rw (kept, refuse_downgrade) refl
    | inr (x, found) ↦ elim h [
      | inl none_followed ↦ ground (arith, found, none_followed)
      | inr not_one ↦ absurd (not_one (translate-IsDowngrade http uri raw x found).1)
    ]
  ]

  err-refuse_downgrade :
      (raw : RawResponse http.HeaderMap) (x : Error)
      → e.reply body ≡ ok raw
      → refuse_downgrade http uri limits.redirect_follows deadline raw ≡ err x
      → Refused x
  unfolding refuse_downgrade
  err-refuse_downgrade raw x replied h =
      elim (Option-cases (translate_blocked_https_downgrade http uri raw)) [
        | inl kept ↦ absurd (ground (arith, h, kept))
        | inr (y, found) ↦
            let (y_is, one) = translate-IsDowngrade http uri raw y found in
            let x_is : downgrade_error raw.url ≡ x = ground (arith, h, found, y_is) in
            subst (λ (z : Error). Refused z) x_is
              (downgraded raw replied (ground (arith, h, found)) one)
      ]

  -- The chain after the check of the scheme.
  abbrev Chain : Result Error (Response http.HeaderMap)
  Chain =
      if expired http uri deadline e.start
      then err (timeout_error url)
      else (race http uri url deadline e body
          >>= refuse_downgrade http uri limits.redirect_follows deadline)

  execute_inner-Chain :
      (not limits.https_only || url.is_https) ≡ true
      → execute_inner http uri limits url deadline e body ≡ Chain
  unfolding execute_inner
  execute_inner-Chain allowed = ground (arith, allowed)

  Won-Chain :
      Won http uri url e body deadline
      → Chain ≡ (e.reply body >>= refuse_downgrade http uri limits.redirect_follows deadline)
  Won-Chain (_, fresh, raced) = rw (fresh, raced) refl

  Lost-Chain : Lost http uri url e body deadline → Chain ≡ err (timeout_error url)
  Lost-Chain (_, inl expired_is) = rw expired_is refl
  Lost-Chain (_, inr (fresh, raced)) = rw (fresh, raced) refl

  forbidden :
      (not limits.https_only || url.is_https) ≡ false
      → execute_inner http uri limits url deadline e body ≡ err (scheme_error url)
  unfolding execute_inner
  forbidden h = ground (arith, h)

  execute_inner-Delivered :
      (r : Response http.HeaderMap)
      → execute_inner http uri limits url deadline e body ≡ ok r
      → Delivered r
  execute_inner-Delivered r h = elim (Bool-cases (not limits.https_only || url.is_https)) [
    | inr denied ↦ absurd (ground (arith, sym (forbidden denied) ∙ h))
    | inl allowed ↦
        let chain = sym (execute_inner-Chain allowed) ∙ h in
        elim (race-cases http uri url e body deadline) [
          | inr lost ↦ absurd (ground (arith, sym (Lost-Chain lost) ∙ chain))
          | inl won ↦
              let (raw, replied, kept) = >>=-eq-ok (e.reply body) _ (sym (Won-Chain won) ∙ chain) in
              let (response_is, not_downgraded) = refuse_downgrade-ok raw r kept in
              record {
                raw = raw;
                replied = replied;
                response_is = response_is;
                scheme_allowed = allowed;
                in_time = won.0;
                not_downgraded = not_downgraded;
              }
        ]
  ]

  Delivered-execute_inner :
      (r : Response http.HeaderMap)
      → Delivered r
      → execute_inner http uri limits url deadline e body ≡ ok r
  Delivered-execute_inner r d = elim (race-cases http uri url e body deadline) [
    | inr lost ↦ absurd (InTime-exclusive http uri url e body deadline d.in_time lost.0)
    | inl won ↦
        execute_inner-Chain d.scheme_allowed
        ∙ Won-Chain won
        ∙ ap
            (λ (x : Result Error (RawResponse http.HeaderMap)).
              x >>= refuse_downgrade http uri limits.redirect_follows deadline)
            d.replied
        ∙ ok-refuse_downgrade d.raw d.not_downgraded
        ∙ ap (λ (x : Response http.HeaderMap). ok x) (sym d.response_is)
  ]

  -- An attempt hands over a response exactly when the scheme policy allows its URL, it started before its
  -- deadline, no poll found its timer fired before the reply, the reply is that response, and the client
  -- follows no redirects or the reply is not a redirection from https to a `Location` without https. A
  -- reply after the deadline is handed over when the timer has not been found fired.
  pub execute_inner-ok_iff :
      (r : Response http.HeaderMap)
      → (execute_inner http uri limits url deadline e body ≡ ok r) ↔ Delivered r
  execute_inner-ok_iff r = (execute_inner-Delivered r, Delivered-execute_inner r)

  reply-Refused :
      (x : Error)
      → (e.reply body >>= refuse_downgrade http uri limits.redirect_follows deadline) ≡ err x
      → Refused x
  reply-Refused x h = elim (Result-cases (e.reply body)) [
    | inl (raw, replied) ↦ err-refuse_downgrade raw x replied (
        ap
          (λ (y : Result Error (RawResponse http.HeaderMap)).
            y >>= refuse_downgrade http uri limits.redirect_follows deadline)
          (sym replied)
        ∙ h)
    | inr (y, found) ↦ failed (ground (arith, h, found))
  ]

  -- An attempt fails only for one of four reasons, each with its error: the client is restricted to https
  -- and the URL is not https; the attempt started at its deadline or later, or a poll found its timer fired
  -- before the reply; the transport failed, with this error; or the client follows redirects and the reply
  -- is a redirection from https to a `Location` without https.
  pub execute_inner-Refused :
      (x : Error) → execute_inner http uri limits url deadline e body ≡ err x → Refused x
  execute_inner-Refused x h = elim (Bool-cases (not limits.https_only || url.is_https)) [
    | inr denied ↦
        let x_is : scheme_error url ≡ x = ground (arith, sym (forbidden denied) ∙ h) in
        subst (λ (z : Error). Refused z) x_is
          (scheme (ground (arith, denied)) (ground (arith, denied)))
    | inl allowed ↦
        let chain = sym (execute_inner-Chain allowed) ∙ h in
        elim (race-cases http uri url e body deadline) [
          | inl won ↦ reply-Refused x (sym (Won-Chain won) ∙ chain)
          | inr lost ↦
              let x_is : timeout_error url ≡ x = ground (arith, sym (Lost-Chain lost) ∙ chain) in
              subst (λ (z : Error). Refused z) x_is (late lost.0)
        ]
  ]
