-- ===== src/Client/Deadline.antt =====
-- src/client.rs, `execute_inner`: the race of the transport with the timer of the deadline.
use wrest.Body.{Body}
use wrest.Client.Inner.{Encounter, race, expired, timeout_error}
use wrest.Http.{HeaderMapLib}
use wrest.Prelude.Result.{err}
use wrest.Prelude.{
  ℕ, ◌≤◌, ◌<◌, true, false, ◌⊎◌, inl, inr, Option, none, some, arith, ◌≡◌, Option-cases, Bool-cases,
  refl, leb,
}
use wrest.Url.Parse.{UriLib}
use wrest.Url.Types.{Url}

-- The attempt started before the deadline, and no poll found the timer fired before the reply.
abbrev pub InTime : {H : Type 0} → Option ℕ → Encounter H → Type 0
InTime none e = Unit {0}
InTime (some deadline) e = (e.start < deadline) × ((t : ℕ) → e.fired ≡ some t → e.reply_time ≤ t)

-- The attempt started at the deadline or after it, or a poll found the timer fired before the reply.
abbrev pub TooLate : {H : Type 0} → Option ℕ → Encounter H → Type 0
TooLate none e = ⊥
TooLate (some deadline) e =
    (deadline ≤ e.start) ⊎ ((t : ℕ) × (e.fired ≡ some t) × (t < e.reply_time))

-- The two ways in which the race with the timer goes.
module _ (http : HeaderMapLib) (uri : UriLib) (url : Url) (e : Encounter http.HeaderMap)
    (body : Option Body) where
  abbrev pub Won : Option ℕ → Type 0
  Won d =
      InTime d e
      × (expired http uri d e.start ≡ false)
      × (race http uri url d e body ≡ e.reply body)

  abbrev pub Lost : Option ℕ → Type 0
  Lost d =
      TooLate d e
      × ((expired http uri d e.start ≡ true)
          ⊎ ((expired http uri d e.start ≡ false)
              × (race http uri url d e body ≡ err (timeout_error url))))

  pub race-cases : (d : Option ℕ) → Won d ⊎ Lost d
  unfolding race expired
  race-cases none = inl (tt, refl, refl)
  race-cases (some d) = elim (Bool-cases (leb d e.start)) [
    | inl late ↦ inr (inl (ground arith), inl (ground arith))
    | inr early ↦ elim (Option-cases e.fired) [
      | inl never ↦ inl (
        (ground arith, λ t h. absurd (ground (arith, never, h))),
        ground arith,
        ground (arith, never),
      )
      | inr (t, fired) ↦ elim (Bool-cases (leb e.reply_time t)) [
        | inl won ↦ inl (
          (ground arith, λ t' h. ground (arith, fired, h, won)),
          ground arith,
          ground (arith, fired, won),
        )
        | inr lost ↦
            inr (inr (t, fired, ground arith), inr (ground arith, ground (arith, fired, lost)))
      ]
    ]
  ]

  pub InTime-exclusive : (d : Option ℕ) → InTime d e → TooLate d e → ⊥
  InTime-exclusive none i l = l
  InTime-exclusive (some d) (early, first) (inl late) = omega arith
  InTime-exclusive (some d) (early, first) (inr (t, fired, later)) = omega (arith, first t fired)
