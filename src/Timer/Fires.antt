-- ===== src/Timer/Fires.antt =====
-- src/timer.rs: when a delay is ready.
use mathlib.Core.List.{append-nil, append_assoc}
use mathlib.Core.Path.{subst}
use wrest.Callback.Events.{IsArmed, poll-listen, resolution, after_events-append}
use wrest.Callback.{
  OneshotLib, CompletionSignal, new_signal, listen, signal, poll, Poll, pending, ready, Event,
  signals, SignalCancelled, after_event, after_events, listens,
}
use wrest.Prelude.Result.{Result}
use wrest.Prelude.{
  ℕ, Bool, true, false, List, [], ◌∷◌, ◌++◌, if◌then◌else◌, ◌≡◌, refl, sym, ◌∙◌, ap, arith,
}
use wrest.Timer.{
  Delay, new_delay, timer_callback, poll_delay, Step, fires, polled, after_step, after_steps,
}

module _ (lib : OneshotLib (Unit {0})) where
  abbrev pub has_fired : List (Step lib) → Bool
  has_fired [] = false
  has_fired (fires ∷ es) = true
  has_fired (polled ∷ es) = has_fired es

  abbrev signalled : List (Step lib) → List (Event lib)
  signalled [] = []
  signalled (fires ∷ es) = signals tt ∷ signalled es
  signalled (polled ∷ es) = signalled es

  poll_delay-signal : (d : Delay lib) → (poll_delay lib d).0.signal ≡ d.signal
  unfolding poll_delay
  poll_delay-signal d = ground arith

  poll_delay-listener : (d : Delay lib) → (poll_delay lib d).0.listener ≡ d.listener
  unfolding poll_delay
  poll_delay-listener d = ground arith

  abbrev is_ready : {A : Type 0} → Poll A → Bool
  is_ready pending = false
  is_ready (ready _) = true

  -- A delay whose signal has seen some events since it was listened to.
  record Seen (s : CompletionSignal lib) (rx : ℕ) (es : List (Event lib)) (d : Delay lib)
      : Type 0 where
    listener : d.listener ≡ rx
    signal : d.signal ≡ after_events lib s es
    fired : d.fired ≡ true → is_ready (resolution lib es) ≡ true

  is_ready-append :
      (a b : List (Event lib))
      → is_ready (resolution lib a) ≡ true
      → is_ready (resolution lib (a ++ b)) ≡ true
  is_ready-append [] b h = cc
  is_ready-append (signals v ∷ a) b h = refl
  is_ready-append (listens ∷ a) b h = refl

  module _ (s0 : CompletionSignal lib) (armed : IsArmed lib s0) where
    poll-Seen :
        (es : List (Event lib)) (d : Delay lib)
        → Seen (listen lib s0).0 (listen lib s0).1 es d
        → poll lib d.signal d.listener ≡ resolution lib es
    poll-Seen es d seen = rw (seen.signal, seen.listener) (poll-listen lib s0 es armed)

    fires-Seen :
        (es : List (Event lib)) (d : Delay lib)
        → Seen (listen lib s0).0 (listen lib s0).1 es d
        → Seen
            (listen lib s0).0
            (listen lib s0).1
            (es ++ (signals tt ∷ []))
            (timer_callback lib false d)
    unfolding timer_callback after_events after_event
    fires-Seen es d seen = record {
      listener = seen.listener;
      signal =
          ap (λ (t : CompletionSignal lib). signal lib t tt) seen.signal
          ∙ after_events-append lib (listen lib s0).0 es (signals tt ∷ []);
      fired = λ h. is_ready-append es (signals tt ∷ []) (seen.fired h);
    }

    fired_by_poll :
        (es : List (Event lib)) (d : Delay lib)
        → Seen (listen lib s0).0 (listen lib s0).1 es d
        → (poll_delay lib d).0.fired ≡ true
        → is_ready (resolution lib es) ≡ true
    unfolding poll_delay
    fired_by_poll es d seen h = ground (arith, poll-Seen es d seen, seen.fired)

    polled-Seen :
        (es : List (Event lib)) (d : Delay lib)
        → Seen (listen lib s0).0 (listen lib s0).1 es d
        → Seen (listen lib s0).0 (listen lib s0).1 es (poll_delay lib d).0
    polled-Seen es d seen = record {
      listener = poll_delay-listener d ∙ seen.listener;
      signal = poll_delay-signal d ∙ seen.signal;
      fired = fired_by_poll es d seen;
    }

    steps-Seen :
        (steps : List (Step lib)) (es : List (Event lib)) (d : Delay lib)
        → Seen (listen lib s0).0 (listen lib s0).1 es d
        → Seen (listen lib s0).0 (listen lib s0).1 (es ++ signalled steps) (after_steps lib d steps)
    unfolding after_steps after_step
    steps-Seen [] es d seen =
        subst (λ (h : List (Event lib)). Seen (listen lib s0).0 (listen lib s0).1 h d)
          (sym (append-nil es)) seen
    steps-Seen (fires ∷ steps) es d seen =
        subst
          (λ (h : List (Event lib)).
            Seen (listen lib s0).0 (listen lib s0).1 h
              (after_steps lib (timer_callback lib false d) steps))
          (append_assoc es (signals tt ∷ []) (signalled steps))
          (steps-Seen steps (es ++ (signals tt ∷ [])) (timer_callback lib false d)
            (fires-Seen es d seen))
    steps-Seen (polled ∷ steps) es d seen =
        steps-Seen steps es (poll_delay lib d).0 (polled-Seen es d seen)

  is_ready-signalled :
      (steps : List (Step lib)) → is_ready (resolution lib (signalled steps)) ≡ has_fired steps
  is_ready-signalled [] = refl
  is_ready-signalled (fires ∷ steps) = refl
  is_ready-signalled (polled ∷ steps) = is_ready-signalled steps

  new_delay-Seen :
      (channels : lib.Channels) (creates : Bool) (dur : ℕ)
      → let s = listen lib (new_signal lib channels) in
        Seen s.0 s.1 [] (new_delay lib creates channels dur)
  unfolding new_delay after_events
  new_delay-Seen channels true dur = record { listener = refl; signal = refl; fired = λ h. cc }
  new_delay-Seen channels false dur = record { listener = refl; signal = refl; fired = λ h. cc }

  poll_delay-by_poll :
      (d : Delay lib) (b : Bool)
      → (d.fired ≡ true → b ≡ true)
      → is_ready (poll lib d.signal d.listener) ≡ b
      → (poll_delay lib d).1 ≡ (if b then ready tt else pending)
  unfolding poll_delay
  poll_delay-by_poll d b fired polls = ground arith

  -- However often a delay is polled and its callback runs, a poll finds it ready when the callback has
  -- run before, and pending otherwise; that its timer could not be created does not make it ready.
  pub poll-after_steps :
      (creates : Bool) (channels : lib.Channels) (dur : ℕ) (steps : List (Step lib))
      → (poll_delay lib (after_steps lib (new_delay lib creates channels dur) steps)).1
        ≡ (if has_fired steps then ready tt else pending)
  poll-after_steps creates channels dur steps =
      let d = after_steps lib (new_delay lib creates channels dur) steps in
      let s0 = new_signal lib channels in
      let seen =
        steps-Seen s0 tt steps [] (new_delay lib creates channels dur)
          (new_delay-Seen channels creates dur) in
      let is = is_ready-signalled steps in
      poll_delay-by_poll d (has_fired steps) (λ h. sym is ∙ seen.fired h)
        (ap (λ (p : Poll (Result SignalCancelled (Unit {0}))). is_ready p)
            (poll-Seen s0 tt (signalled steps) d seen)
          ∙ is)
