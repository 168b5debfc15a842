-- ===== src/Timer/Teardown.antt =====
-- src/timer.rs and src/threadpool.rs: the drop of a delay against the callbacks of the threadpool. What
-- the system does is what it documents: a callback starts only while the timer is set or one is queued,
-- a wait returns when no callback is queued or running, having cancelled the queued ones, and no callback
-- starts after that unless the timer is set again.
use wrest.Prelude.{ℕ, suc, ◌<◌, Bool, true, false, List, [], ◌∷◌, none, some, ◌≡◌, refl, arith, ◌⊎◌}
use wrest.Threadpool.{
  FileTime, set_threadpool_timer, wait_for_threadpool_timer_callbacks, close_threadpool_timer,
  drop_timer, set_relative,
}
use wrest.Timer.{Action, calls, releases_context, teardown}

-- The timer of the system, what is left of the teardown, and whether the context is alive.
pub record World : Type 0 where
  pub is_set : Bool
  pub queued : ℕ
  pub running : ℕ
  pub open_timer : Bool
  pub context_alive : Bool
  pub left : List Action

-- The steps of the system and of the teardown, in any order.
pub data Moves : World → World → Type 0 where
  queues : {w : World} → w.is_set ≡ true → Moves w (record w { queued = suc w.queued })
  starts :
      {w : World} {n : ℕ}
      → w.queued ≡ suc n
      → Moves w (record w { queued = n; running = suc w.running })
  returns : {w : World} {n : ℕ} → w.running ≡ suc n → Moves w (record w { running = n })
  stops :
      {w : World} {rest : List Action}
      → w.left ≡ calls (set_threadpool_timer none) ∷ rest
      → Moves w (record w { is_set = false; left = rest })
  sets :
      {w : World} {due : FileTime} {rest : List Action}
      → w.left ≡ calls (set_threadpool_timer (some due)) ∷ rest
      → Moves w (record w { is_set = true; left = rest })
  waited :
      {w : World} {rest : List Action}
      → w.left ≡ calls wait_for_threadpool_timer_callbacks ∷ rest
      → w.running ≡ 0
      → Moves w (record w { queued = 0; left = rest })
  closes :
      {w : World} {rest : List Action}
      → w.left ≡ calls close_threadpool_timer ∷ rest
      → Moves w (record w { open_timer = false; left = rest })
  releases :
      {w : World} {rest : List Action}
      → w.left ≡ releases_context ∷ rest
      → Moves w (record w { context_alive = false; left = rest })

pub data Reached (start : World) : World → Type 0 where
  begun : Reached start start
  moved : {v w : World} → Reached start v → Moves v w → Reached start w

-- A delay that is about to be dropped: its timer is set, with any number of callbacks queued or running.
abbrev pub about_to_drop : ℕ → ℕ → World
about_to_drop queued running = record {
  is_set = true;
  queued = queued;
  running = running;
  open_timer = true;
  context_alive = true;
  left = teardown;
}

-- Where the teardown is, by what is left of it.
data Progress : World → Type 0 where
  at_start :
      {w : World}
      → w.left
        ≡ calls (set_threadpool_timer none)
          ∷ calls wait_for_threadpool_timer_callbacks
          ∷ calls close_threadpool_timer
          ∷ releases_context
          ∷ []
      → w.open_timer ≡ true
      → w.context_alive ≡ true
      → Progress w
  stopped :
      {w : World}
      → w.left
        ≡ calls wait_for_threadpool_timer_callbacks
          ∷ calls close_threadpool_timer
          ∷ releases_context
          ∷ []
      → w.is_set ≡ false
      → w.open_timer ≡ true
      → w.context_alive ≡ true
      → Progress w
  drained :
      {w : World}
      → w.left ≡ calls close_threadpool_timer ∷ releases_context ∷ []
      → w.is_set ≡ false
      → w.queued ≡ 0
      → w.running ≡ 0
      → w.open_timer ≡ true
      → w.context_alive ≡ true
      → Progress w
  closed :
      {w : World}
      → w.left ≡ releases_context ∷ []
      → w.is_set ≡ false
      → w.queued ≡ 0
      → w.running ≡ 0
      → w.open_timer ≡ false
      → w.context_alive ≡ true
      → Progress w
  released :
      {w : World}
      → w.left ≡ []
      → w.is_set ≡ false
      → w.queued ≡ 0
      → w.running ≡ 0
      → w.open_timer ≡ false
      → Progress w

Moves-Progress : {v w : World} → Moves v w → Progress v → Progress w
Moves-Progress (queues h) (at_start l o c) = at_start l o c
Moves-Progress (queues h) (stopped l s o c) = cc
Moves-Progress (queues h) (drained l s q r o c) = cc
Moves-Progress (queues h) (closed l s q r o c) = cc
Moves-Progress (queues h) (released l s q r o) = cc
Moves-Progress (starts h) (at_start l o c) = at_start l o c
Moves-Progress (starts h) (stopped l s o c) = stopped l s o c
Moves-Progress (starts h) (drained l s q r o c) = cc
Moves-Progress (starts h) (closed l s q r o c) = cc
Moves-Progress (starts h) (released l s q r o) = cc
Moves-Progress (returns h) (at_start l o c) = at_start l o c
Moves-Progress (returns h) (stopped l s o c) = stopped l s o c
Moves-Progress (returns h) (drained l s q r o c) = cc
Moves-Progress (returns h) (closed l s q r o c) = cc
Moves-Progress (returns h) (released l s q r o) = cc
Moves-Progress (stops h) (at_start l o c) = stopped (cc) refl o c
Moves-Progress (stops h) (stopped l s o c) = cc
Moves-Progress (stops h) (drained l s q r o c) = cc
Moves-Progress (stops h) (closed l s q r o c) = cc
Moves-Progress (stops h) (released l s q r o) = cc
Moves-Progress (sets h) (at_start l o c) = cc
Moves-Progress (sets h) (stopped l s o c) = cc
Moves-Progress (sets h) (drained l s q r o c) = cc
Moves-Progress (sets h) (closed l s q r o c) = cc
Moves-Progress (sets h) (released l s q r o) = cc
Moves-Progress (waited h k) (at_start l o c) = cc
Moves-Progress (waited h k) (stopped l s o c) = drained (cc) s refl k o c
Moves-Progress (waited h k) (drained l s q r o c) = cc
Moves-Progress (waited h k) (closed l s q r o c) = cc
Moves-Progress (waited h k) (released l s q r o) = cc
Moves-Progress (closes h) (at_start l o c) = cc
Moves-Progress (closes h) (stopped l s o c) = cc
Moves-Progress (closes h) (drained l s q r o c) = closed (cc) s q r refl c
Moves-Progress (closes h) (closed l s q r o c) = cc
Moves-Progress (closes h) (released l s q r o) = cc
Moves-Progress (releases h) (at_start l o c) = cc
Moves-Progress (releases h) (stopped l s o c) = cc
Moves-Progress (releases h) (drained l s q r o c) = cc
Moves-Progress (releases h) (closed l s q r o c) = released (cc) s q r o
Moves-Progress (releases h) (released l s q r o) = cc

Progress-Reached :
    (queued running : ℕ) {w : World} → Reached (about_to_drop queued running) w → Progress w
unfolding teardown drop_timer set_relative
Progress-Reached queued running begun = at_start refl refl refl
Progress-Reached queued running (moved r m) = Moves-Progress m (Progress-Reached queued running r)

-- In every interleaving of the drop of a delay with the callbacks of its timer, while a callback is
-- queued or running, the context that it borrows is alive and the timer is not closed.
pub running-IsAlive :
    (queued running : ℕ) {w : World}
    → Reached (about_to_drop queued running) w
    → ((0 < w.queued) ⊎ (0 < w.running))
    → (w.context_alive ≡ true) × (w.open_timer ≡ true)
running-IsAlive queued running r busy = by_progress busy (Progress-Reached queued running r)
  where
    by_progress :
        {w : World}
        → ((0 < w.queued) ⊎ (0 < w.running))
        → Progress w
        → (w.context_alive ≡ true) × (w.open_timer ≡ true)
    by_progress b (at_start l o c) = (c, o)
    by_progress b (stopped l s o c) = (c, o)
    by_progress b (drained l s q r o c) = (c, o)
    by_progress b (closed l s q r o c) = ground (arith, b, q, r)
    by_progress b (released l s q r o) = ground (arith, b, q, r)
