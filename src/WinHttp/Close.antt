-- ===== src/WinHttp/Close.antt =====
-- src/winhttp.rs: `RequestCloseState`, which lets a request handle be dropped only when WinHTTP is done
-- with it. Every operation holds the mutex for its whole body, so each is one step. The result of a
-- step is whether it wakes the thread that waits in `wait_closed_and_idle`.
use wrest.Prelude.{ℕ, suc, ◌-◌, Bool, true, false, ◌&&◌, ◌≡◌, refl, ap, arith, if◌then◌else◌, ◌==◌}

pub record RequestCloseState : Type 0 where
  pub closed : Bool
  pub active_callbacks : ℕ

abbrev pub new_close_state : RequestCloseState
new_close_state = record { closed = false; active_callbacks = 0 }

-- `enter_callback`. The counter is a `usize`; an overflow of it panics in the source.
unfoldable pub enter_callback : RequestCloseState → RequestCloseState × Bool
enter_callback s = (record s { active_callbacks = suc s.active_callbacks }, false)

-- `RequestCallbackGuard::drop`
unfoldable pub exit_callback : RequestCloseState → RequestCloseState × Bool
exit_callback s = if s.active_callbacks == 0 then (s, false) else (
  record s { active_callbacks = s.active_callbacks - 1 },
  s.closed && s.active_callbacks - 1 == 0,
)

unfoldable pub mark_final_callback_seen : RequestCloseState → RequestCloseState × Bool
mark_final_callback_seen s = (record s { closed = true }, s.active_callbacks == 0)

-- The condition that `wait_closed_and_idle` waits for.
unfoldable pub closed_and_idle : RequestCloseState → Bool
closed_and_idle s = s.closed && s.active_callbacks == 0

-- The steps of the callbacks of one request, and whether each wakes the waiter.
pub data Step : RequestCloseState → RequestCloseState → Bool → Type 0 where
  enters : (s : RequestCloseState) → Step s (enter_callback s).0 (enter_callback s).1
  exits : (s : RequestCloseState) → Step s (exit_callback s).0 (exit_callback s).1
  finishes :
      (s : RequestCloseState) → Step s (mark_final_callback_seen s).0 (mark_final_callback_seen s).1

-- From a state in which the waiter still waits, a step wakes it exactly when it leaves the state closed
-- and idle: no wake-up is lost and none is needless.
pub wakes_iff :
    {s t : RequestCloseState} {wakes : Bool}
    → Step s t wakes
    → closed_and_idle s ≡ false
    → wakes ≡ closed_and_idle t
unfolding enter_callback exit_callback mark_final_callback_seen closed_and_idle
wakes_iff (enters s) h = ground arith
wakes_iff (exits s) h = ground arith
wakes_iff (finishes s) h = ground arith

-- The states that the callbacks of a request lead to, with the number of callbacks that are running and
-- whether the final one has been seen. A guard is dropped once, by a callback that is running.
pub data Reached : RequestCloseState → ℕ → Bool → Type 0 where
  opened : Reached new_close_state 0 false
  entered :
      {s : RequestCloseState} {running : ℕ} {final : Bool}
      → Reached s running final
      → Reached (enter_callback s).0 (suc running) final
  exited :
      {s : RequestCloseState} {running : ℕ} {final : Bool}
      → Reached s (suc running) final
      → Reached (exit_callback s).0 running final
  final_seen :
      {s : RequestCloseState} {running : ℕ} {final : Bool}
      → Reached s running final
      → Reached (mark_final_callback_seen s).0 running true

Reached-counts :
    {s : RequestCloseState} {running : ℕ} {final : Bool}
    → Reached s running final
    → (s.active_callbacks ≡ running) × (s.closed ≡ final)
unfolding enter_callback exit_callback mark_final_callback_seen
Reached-counts opened = (refl, refl)
Reached-counts (entered r) = let (a, c) = Reached-counts r in (ap suc a, c)
Reached-counts (exited {s} r) = let (a, c) = Reached-counts r in ground arith
Reached-counts (final_seen r) = let (a, c) = Reached-counts r in (a, refl)

-- The waiter of a dropped request handle goes on exactly when the final callback has been seen and no
-- callback of the request is running.
pub closed_and_idle-Reached :
    {s : RequestCloseState} {running : ℕ} {final : Bool}
    → Reached s running final
    → closed_and_idle s ≡ (final && running == 0)
unfolding closed_and_idle
closed_and_idle-Reached r = let (a, c) = Reached-counts r in rw (a, c) refl
