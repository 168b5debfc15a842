-- ===== src/Timer.antt =====
-- src/timer.rs: the delay that a timeout is raced against. Whether `CreateThreadpoolTimer` succeeds is
-- an input, and the calls of the threadpool are recorded.
pub mod Fires
pub mod Teardown
use wrest.Callback.Context.{new_context, drop_context, drop_arc}
use wrest.Callback.{
  OneshotLib, CompletionSignal, new_signal, listen, signal, poll, Poll, pending, ready,
}
use wrest.Prelude.{
  ℕ, suc, Bool, true, false, List, [], ◌∷◌, ◌++◌, map, Option, none, some, if◌then◌else◌,
}
use wrest.Threadpool.{Call, set_relative, drop_timer}

module _ (lib : OneshotLib (Unit {0})) where
  -- A `Delay`: whether it has a timer and a context, the `TimerState` with its strong count, the
  -- listener, whether it fired, and the calls made for it.
  pub record Delay : Type 0 where
    pub timer : Bool
    pub callback_ctx : Bool
    pub signal : CompletionSignal lib
    pub strong : ℕ
    pub listener : ℕ
    pub fired : Bool
    pub calls : List Call

  -- `Delay::new`, at a duration in nanoseconds. The `Arc` of the state is made with one owner.
  unfoldable pub new_delay : Bool → lib.Channels → ℕ → Delay
  new_delay creates channels dur =
      let (s, listener) = listen lib (new_signal lib channels) in
      let strong = new_context 1 in
      if creates
      then record {
        timer = true;
        callback_ctx = true;
        signal = s;
        strong = strong;
        listener = listener;
        fired = false;
        calls = set_relative (some dur) ∷ [];
      }
      else record {
        timer = false;
        callback_ctx = false;
        signal = s;
        strong = drop_context strong;
        listener = listener;
        fired = false;
        calls = [];
      }

  -- `timer_callback`, at whether its context is null.
  unfoldable pub timer_callback : Bool → Delay → Delay
  timer_callback is_null d = if is_null then d else record d { signal = signal lib d.signal tt }

  -- `Delay::poll`
  unfoldable pub poll_delay : Delay → Delay × Poll (Unit {0})
  poll_delay d = if d.fired then (d, ready tt) else elim (poll lib d.signal d.listener) [
    | pending ↦ (d, pending)
    | ready _ ↦ (record d { fired = true }, ready tt)
  ]

  -- `Delay::drop`, with the drop of the fields that are left, of which `_state` is one.
  unfoldable pub drop_delay : Delay → Delay
  drop_delay d =
      if d.timer
      then record d {
        timer = false;
        callback_ctx = false;
        strong = drop_arc (drop_context d.strong);
        calls = d.calls ++ drop_timer;
      }
      else record d { strong = drop_arc d.strong }

  -- What happens to a delay: its callback runs, or it is polled.
  pub data Step : Type 0 where
    fires polled : Step

  unfoldable pub after_step : Delay → Step → Delay
  unfolding timer_callback poll_delay
  after_step d fires = timer_callback false d
  after_step d polled = (poll_delay d).0

  unfoldable pub after_steps : Delay → List Step → Delay
  after_steps d [] = d
  after_steps d (e ∷ es) = after_steps (after_step d e) es

-- What a teardown does in order: the calls of the timer's drop, and then the release of the context.
pub data Action : Type 0 where
  calls : Call → Action
  releases_context : Action

-- The order that `Delay::drop` keeps.
unfoldable pub teardown : List Action
unfolding drop_timer
teardown = map (λ (c : Call). calls c) drop_timer ++ (releases_context ∷ [])
