-- ===== src/Callback.antt =====
-- src/callback.rs: the signal that bridges a callback to a future. The one-shot channels of the crate
-- `futures-channel` are a parameter: the state of all channels, what each receiver would be told, and the
-- documented effect of making a channel, sending on it, and dropping its sender. A receiver that was
-- dropped is told nothing, so its channel is treated like one whose receiver nobody polls. The mutex
-- around the sender makes each operation one step.
pub mod Context
pub mod Events
use wrest.Prelude.Result.{Result, ok, err}
use wrest.Prelude.{ℕ, List, [], ◌∷◌, Option, none, some, ◌≡◌, if◌then◌else◌, ◌==◌}

-- What a receiver is told of its channel: nothing yet, the value, or that the sender is gone. `unmade`
-- is a number that no channel has.
pub data Status (T : Type 0) : Type 0 where
  unmade waiting cancelled : Status T
  sent : T → Status T

module _ {T : Type 0} where
  -- Only a channel that waits changes.
  abbrev pub if_waiting : Status T → Status T → Status T
  if_waiting waiting next = next
  if_waiting unmade next = unmade
  if_waiting cancelled next = cancelled
  if_waiting (sent v) next = sent v

-- `futures_channel::oneshot`
pub record OneshotLib (T : Type 0) : Type 1 where
  pub Channels : Type 0
  pub status : Channels → ℕ → Status T
  pub channel : Channels → Channels × ℕ
  pub send : Channels → ℕ → T → Channels
  pub drop_sender : Channels → ℕ → Channels
  pub channel-unmade : (c : Channels) → status c (channel c).1 ≡ unmade
  pub status-channel :
      (c : Channels) (n : ℕ)
      → status (channel c).0 n ≡ (if n == (channel c).1 then waiting else status c n)
  pub status-send :
      (c : Channels) (m : ℕ) (v : T) (n : ℕ)
      → status (send c m v) n ≡ (if n == m then if_waiting (status c n) (sent v) else status c n)
  pub status-drop_sender :
      (c : Channels) (m n : ℕ)
      → status (drop_sender c m) n
        ≡ (if n == m then if_waiting (status c n) cancelled else status c n)

pub data SignalCancelled : Type 0 where
  signal_cancelled : SignalCancelled

pub data Poll (A : Type 0) : Type 0 where
  pending : Poll A
  ready : A → Poll A

module _ {T : Type 0} (lib : OneshotLib T) where
  -- A `CompletionSignal` with the channels: the sender that is installed.
  pub record CompletionSignal : Type 0 where
    pub channels : lib.Channels
    pub sender : Option ℕ

  abbrev pub new_signal : lib.Channels → CompletionSignal
  new_signal c = record { channels = c; sender = none }

  abbrev pub drop_old : lib.Channels → Option ℕ → lib.Channels
  drop_old c none = c
  drop_old c (some tx) = lib.drop_sender c tx

  -- The future is the number of its channel. The replaced sender is dropped.
  unfoldable pub listen : CompletionSignal → CompletionSignal × ℕ
  listen s =
      let made = lib.channel s.channels in
      (record { channels = drop_old made.0 s.sender; sender = some made.1 }, made.1)

  unfoldable pub signal : CompletionSignal → T → CompletionSignal
  signal s value = elim s.sender [
    | none ↦ s
    | some tx ↦ record { channels = lib.send s.channels tx value; sender = none }
  ]

  -- `CompletionFuture::poll`
  unfoldable pub poll : CompletionSignal → ℕ → Poll (Result SignalCancelled T)
  poll s rx = elim (lib.status s.channels rx) [
    | unmade ↦ pending
    | waiting ↦ pending
    | cancelled ↦ ready (err signal_cancelled)
    | sent v ↦ ready (ok v)
  ]

  -- What happens to a signal while a future waits: a callback signals, or another operation listens.
  pub data Event : Type 0 where
    signals : T → Event
    listens : Event

  unfoldable pub after_event : CompletionSignal → Event → CompletionSignal
  unfolding listen signal
  after_event s (signals v) = signal s v
  after_event s listens = (listen s).0

  unfoldable pub after_events : CompletionSignal → List Event → CompletionSignal
  after_events s [] = s
  after_events s (e ∷ es) = after_events (after_event s e) es

  -- A `Win32` operation that was started: what it returns, with what happens before it returns.
  pub record Started (E : Type 0) : Type 0 where
    pub result : Result E (Unit {0})
    pub meanwhile : List Event

  abbrev pub from_cancelled :
      {E : Type 0} → (SignalCancelled → E) → Poll (Result SignalCancelled T) → Poll (Result E T)
  from_cancelled from pending = pending
  from_cancelled from (ready (ok v)) = ready (ok v)
  from_cancelled from (ready (err e)) = ready (err (from e))

  -- `await_win32`: what it is resolved with after the events that follow the start, and the signal then.
  unfoldable pub await_win32 :
      {E : Type 0}
      → (SignalCancelled → E)
      → CompletionSignal
      → Started E
      → List Event
      → CompletionSignal × Poll (Result E T)
  unfolding listen after_events
  await_win32 from s start later =
      let (s', rx) = listen s in
      let s'' = after_events (after_events s' start.meanwhile) later in
      elim start.result [
        | err e ↦ (s'', ready (err e))
        | ok _ ↦ (s'', from_cancelled from (poll s'' rx))
      ]
