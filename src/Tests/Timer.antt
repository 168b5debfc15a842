-- ===== src/Tests/Timer.antt =====
-- Delays at concrete inputs.
use wrest.Callback.{pending, ready}
use wrest.Prelude.{◌/◌, ◌<◌, true, [], ◌∷◌, ◌≡◌, refl, if◌then◌else◌, min, arith, inr}
use wrest.Tests.Callback.{status_lists}
use wrest.Threadpool.DueTime.{as_i64, negate, due_time_lem}
use wrest.Threadpool.{due_time, i64_max}
use wrest.Timer.Fires.{has_fired, poll-after_steps}
use wrest.Timer.Teardown.{World, begun, moved, starts, about_to_drop, running-IsAlive}
use wrest.Timer.{new_delay, poll_delay, fires, polled, after_steps}

-- 1.5 seconds.
due_time_lem_example :
    (as_i64 (due_time 1500000000) ≡ negate (min (1500000000 / 100) i64_max))
    × ((due_time 1500000000).dw_low_date_time < 4294967296)
    × ((due_time 1500000000).dw_high_date_time < 4294967296)
due_time_lem_example = due_time_lem 1500000000

poll-after_steps_example :
    (poll_delay (status_lists (Unit {0})) (
      after_steps
        (status_lists (Unit {0}))
        (new_delay (status_lists (Unit {0})) true [] 1000)
        (polled ∷ fires ∷ polled ∷ []))).1
    ≡ (if has_fired (status_lists (Unit {0})) (polled ∷ fires ∷ polled ∷ [])
        then ready tt
        else pending)
poll-after_steps_example =
    poll-after_steps (status_lists (Unit {0})) true [] 1000 (polled ∷ fires ∷ polled ∷ [])

abbrev one_running : World
one_running = record (about_to_drop 1 0) { queued = 0; running = 1 }

running-IsAlive_example : (one_running.context_alive ≡ true) × (one_running.open_timer ≡ true)
running-IsAlive_example =
    running-IsAlive 1 0 (moved begun (starts {w = about_to_drop 1 0} refl)) (inr (omega arith))
