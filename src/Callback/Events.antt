-- ===== src/Callback/Events.antt =====
-- src/callback.rs: what a future of a completion signal resolves to.
use wrest.Callback.{
  OneshotLib, Status, unmade, waiting, cancelled, sent, if_waiting, SignalCancelled,
  signal_cancelled, Poll, pending, ready, CompletionSignal, listen, signal, poll, Event, signals,
  listens, after_event, after_events, Started, await_win32, from_cancelled, drop_old,
}
use wrest.Prelude.Result.{Result, ok, err}
use wrest.Prelude.{
  ℕ, Bool, true, false, List, [], ◌∷◌, ◌++◌, Option, none, some, ◌≡◌, refl, ◌∙◌, if◌then◌else◌,
  ◌==◌, ==_iff, arith, Bool-cases, inl, inr, ap, Option-cases,
}

module _ {T : Type 0} (lib : OneshotLib T) where
  -- The installed sender is one whose receiver still waits.
  abbrev pub WaitsAt : lib.Channels → Option ℕ → Type 0
  WaitsAt c none = Unit {0}
  WaitsAt c (some tx) = lib.status c tx ≡ waiting

  abbrev pub IsArmed : CompletionSignal lib → Type 0
  IsArmed s = WaitsAt s.channels s.sender

  -- What the first of some events resolves a future with.
  abbrev pub resolution : List (Event lib) → Poll (Result SignalCancelled T)
  resolution [] = pending
  resolution (signals v ∷ _) = ready (ok v)
  resolution (listens ∷ _) = ready (err signal_cancelled)

  abbrev is_made : Status T → Bool
  is_made unmade = false
  is_made _ = true

  abbrev is_settled : Status T → Bool
  is_settled cancelled = true
  is_settled (sent _) = true
  is_settled _ = false

  -- A channel that was made is not the next one.
  not_new :
      (c : lib.Channels) (n : ℕ)
      → is_made (lib.status c n) ≡ true
      → (n == (lib.channel c).1) ≡ false
  not_new c n made = elim (Bool-cases (n == (lib.channel c).1)) [
    | inr other ↦ other
    | inl same ↦
        let e = (==_iff n (lib.channel c).1).0 same in
        cc (made, ap (λ (m : ℕ). is_made (lib.status c m)) e, lib.channel-unmade c)
  ]

  -- After a listen a channel that was made is as before, unless it is the one that was replaced.
  status-drop_old :
      (c : lib.Channels) (tx n : ℕ)
      → is_made (lib.status c n) ≡ true
      → lib.status (drop_old lib (lib.channel c).0 (some tx)) n
        ≡ (if n == tx then if_waiting (lib.status c n) cancelled else lib.status c n)
  status-drop_old c tx n made = ground (
    arith,
    not_new c n made,
    lib.status-channel c n,
    lib.status-drop_sender (lib.channel c).0 tx n,
  )

  status-new :
      (c : lib.Channels) (o : Option ℕ)
      → WaitsAt c o
      → lib.status (drop_old lib (lib.channel c).0 o) (lib.channel c).1 ≡ waiting
  status-new c none armed = ground (arith, lib.status-channel c (lib.channel c).1)
  status-new c (some tx) armed = ground (
    arith,
    not_new c tx (ap is_made armed),
    lib.status-channel c (lib.channel c).1,
    lib.status-drop_sender (lib.channel c).0 tx (lib.channel c).1,
  )

  listen-IsArmed : (s : CompletionSignal lib) → IsArmed s → IsArmed (listen lib s).0
  unfolding listen
  listen-IsArmed s armed = status-new s.channels s.sender armed

  settled_made : (st : Status T) → is_settled st ≡ true → is_made st ≡ true
  settled_made cancelled settled = refl
  settled_made (sent v) settled = refl
  settled_made unmade settled = settled
  settled_made waiting settled = refl

  settled-if_waiting : (st new : Status T) → is_settled st ≡ true → if_waiting st new ≡ st
  settled-if_waiting cancelled new settled = refl
  settled-if_waiting (sent v) new settled = refl
  settled-if_waiting unmade new settled = refl
  settled-if_waiting waiting new settled = cc

  settled_listen :
      (c : lib.Channels) (o : Option ℕ) (rx : ℕ)
      → is_settled (lib.status c rx) ≡ true
      → lib.status (drop_old lib (lib.channel c).0 o) rx ≡ lib.status c rx
  settled_listen c none rx settled =
      ground (arith, not_new c rx (settled_made _ settled), lib.status-channel c rx)
  settled_listen c (some tx) rx settled = ground (
    arith,
    status-drop_old c tx rx (settled_made _ settled),
    settled-if_waiting (lib.status c rx) cancelled settled,
  )

  settled_send :
      (c : lib.Channels) (tx : ℕ) (v : T) (rx : ℕ)
      → is_settled (lib.status c rx) ≡ true
      → lib.status (lib.send c tx v) rx ≡ lib.status c rx
  settled_send c tx v rx settled =
      ground
        (arith, lib.status-send c tx v rx, settled-if_waiting (lib.status c rx) (sent v) settled)

  settled_stays :
      (s : CompletionSignal lib) (e : Event lib) (rx : ℕ)
      → is_settled (lib.status s.channels rx) ≡ true
      → lib.status (after_event lib s e).channels rx ≡ lib.status s.channels rx
  unfolding after_event listen signal
  settled_stays s (signals v) rx settled = elim (Option-cases s.sender) [
    | inl e ↦ rw e refl
    | inr (tx, e) ↦ rw e (settled_send s.channels tx v rx settled)
  ]
  settled_stays s listens rx settled = settled_listen s.channels s.sender rx settled

  settled_for_good :
      (s : CompletionSignal lib) (es : List (Event lib)) (rx : ℕ)
      → is_settled (lib.status s.channels rx) ≡ true
      → lib.status (after_events lib s es).channels rx ≡ lib.status s.channels rx
  unfolding after_events
  settled_for_good s [] rx settled = refl
  settled_for_good s (e ∷ es) rx settled =
      let stays = settled_stays s e rx settled in
      settled_for_good (after_event lib s e) es rx (ap is_settled stays ∙ settled) ∙ stays

  signal-IsArmed :
      (c : lib.Channels) (o : Option ℕ) (v : T)
      → IsArmed (signal lib (record { channels = c; sender = o }) v)
  unfolding signal
  signal-IsArmed c none v = tt
  signal-IsArmed c (some tx) v = tt

  event-IsArmed :
      (s : CompletionSignal lib) (e : Event lib) → IsArmed s → IsArmed (after_event lib s e)
  unfolding after_event
  event-IsArmed s (signals v) armed = signal-IsArmed s.channels s.sender v
  event-IsArmed s listens armed = listen-IsArmed s armed

  -- The status that the first of some events leaves the channel of the installed sender in.
  abbrev settles : List (Event lib) → Status T
  settles [] = waiting
  settles (signals v ∷ _) = sent v
  settles (listens ∷ _) = cancelled

  after_event-settles :
      (s : CompletionSignal lib) (rx : ℕ) (e : Event lib) (es : List (Event lib))
      → s.sender ≡ some rx
      → lib.status s.channels rx ≡ waiting
      → lib.status (after_event lib s e).channels rx ≡ settles (e ∷ es)
  unfolding after_event listen signal
  after_event-settles s rx (signals v) es installed waits =
      rw installed (ground (arith, lib.status-send s.channels rx v rx))
  after_event-settles s rx listens es installed waits =
      rw installed (ground (arith, status-drop_old s.channels rx rx (ap is_made waits)))

  events-IsArmed :
      (s : CompletionSignal lib) (es : List (Event lib))
      → IsArmed s
      → IsArmed (after_events lib s es)
  unfolding after_events
  events-IsArmed s [] armed = armed
  events-IsArmed s (e ∷ es) armed =
      events-IsArmed (after_event lib s e) es (event-IsArmed s e armed)

  settles-is_settled :
      (e : Event lib) (es : List (Event lib)) → is_settled (settles (e ∷ es)) ≡ true
  settles-is_settled (signals v) es = refl
  settles-is_settled listens es = refl

  status-after_events :
      (s : CompletionSignal lib) (rx : ℕ) (es : List (Event lib))
      → s.sender ≡ some rx
      → lib.status s.channels rx ≡ waiting
      → lib.status (after_events lib s es).channels rx ≡ settles es
  unfolding after_events
  status-after_events s rx [] installed waits = waits
  status-after_events s rx (e ∷ es) installed waits =
      let first = after_event-settles s rx e es installed waits in
      settled_for_good (after_event lib s e) es rx (ap is_settled first ∙ settles-is_settled e es)
      ∙ first

  poll_status :
      (s : CompletionSignal lib) (rx : ℕ) (es : List (Event lib))
      → lib.status s.channels rx ≡ settles es
      → poll lib s rx ≡ resolution es
  unfolding poll
  poll_status s rx [] e = rw (e, poll) refl
  poll_status s rx (signals v ∷ es) e = rw (e, poll) refl
  poll_status s rx (listens ∷ es) e = rw (e, poll) refl

  -- A future that `listen` returned is resolved by the first thing that happens to the signal: with the
  -- value that a callback signals, or as cancelled when another operation listens. Until then it is
  -- pending, and what happens later does not change what it was resolved with.
  pub poll-listen :
      (s : CompletionSignal lib) (es : List (Event lib))
      → IsArmed s
      → poll lib (after_events lib (listen lib s).0 es) (listen lib s).1 ≡ resolution es
  unfolding listen
  poll-listen s es armed =
      poll_status (after_events lib (listen lib s).0 es) (listen lib s).1 es
        (status-after_events (listen lib s).0 (listen lib s).1 es refl (listen-IsArmed s armed))

  -- What `await_win32` answers: the error of a start that failed, or else the first thing that happened
  -- since it listened, before or after the start returned.
  abbrev pub answer :
      {E : Type 0} → (SignalCancelled → E) → Started lib E → List (Event lib) → Poll (Result E T)
  answer from start later = elim start.result [
    | err e ↦ ready (err e)
    | ok _ ↦ from_cancelled lib from (resolution (start.meanwhile ++ later))
  ]

  pub after_events-append :
      (s : CompletionSignal lib) (a b : List (Event lib))
      → after_events lib (after_events lib s a) b ≡ after_events lib s (a ++ b)
  unfolding after_events
  after_events-append s [] b = refl
  after_events-append s (e ∷ a) b = after_events-append (after_event lib s e) a b

  answers_at :
      {E : Type 0} (from : SignalCancelled → E) (s : CompletionSignal lib)
      (result : Result E (Unit {0})) (meanwhile later : List (Event lib))
      → IsArmed s
      → let start : Started lib E = record { result = result; meanwhile = meanwhile } in
        ((await_win32 lib from s start later).1 ≡ answer from start later)
        × IsArmed (await_win32 lib from s start later).0
  unfolding await_win32
  answers_at from s (err e) meanwhile later armed =
      (refl, events-IsArmed _ later (events-IsArmed _ meanwhile (listen-IsArmed s armed)))
  answers_at from s (ok _) meanwhile later armed = (
    ap (λ p. from_cancelled lib from p)
        (ap (λ (t : CompletionSignal lib). poll lib t (listen lib s).1)
            (after_events-append (listen lib s).0 meanwhile later)
          ∙ poll-listen s (meanwhile ++ later) armed),
    events-IsArmed _ later (events-IsArmed _ meanwhile (listen-IsArmed s armed)),
  )

  -- Whatever operations are awaited one after the other on one signal, and however each ends, the
  -- next `await_win32` returns the error of a start that failed at once, and otherwise resolves with the
  -- first thing that happens after it listened, also when that is before the start returns. The signal
  -- is left fit for the next operation.
  pub await_win32-answers :
      {E : Type 0} (from : SignalCancelled → E) (s : CompletionSignal lib) (start : Started lib E)
      (later : List (Event lib))
      → IsArmed s
      → ((await_win32 lib from s start later).1 ≡ answer from start later)
        × IsArmed (await_win32 lib from s start later).0
  await_win32-answers from s start later armed =
      answers_at from s start.result start.meanwhile later armed
