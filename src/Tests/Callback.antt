-- ===== src/Tests/Callback.antt =====
-- Completion signals, timers and the transport's callbacks at concrete inputs: channels as a list of
-- their statuses.
use wrest.Callback.Events.{await_win32-answers, IsArmed, answer}
use wrest.Callback.{
  OneshotLib, Status, unmade, waiting, cancelled, sent, if_waiting, SignalCancelled, new_signal,
  signals, listens, Started, await_win32,
}
use wrest.Prelude.Result.{ok}
use wrest.Prelude.{ℕ, zero, suc, List, [], ◌∷◌, ◌++◌, ◌≡◌, refl, arith, if◌then◌else◌, ◌==◌, length}

module _ {T : Type 0} where
  abbrev status_at : List (Status T) → ℕ → Status T
  status_at [] n = unmade
  status_at (s ∷ c) zero = s
  status_at (s ∷ c) (suc n) = status_at c n

  abbrev settle_at : List (Status T) → ℕ → Status T → List (Status T)
  settle_at [] m next = []
  settle_at (s ∷ c) zero next = if_waiting s next ∷ c
  settle_at (s ∷ c) (suc m) next = s ∷ settle_at c m next

  pub status_at-length : (c : List (Status T)) → status_at c (length c) ≡ unmade
  status_at-length [] = refl
  status_at-length (s ∷ c) = status_at-length c

  pub status_at-snoc :
      (c : List (Status T)) (n : ℕ)
      → status_at (c ++ (waiting ∷ [])) n ≡ (if n == length c then waiting else status_at c n)
  status_at-snoc [] zero = refl
  status_at-snoc [] (suc n) = ground arith
  status_at-snoc (s ∷ c) zero = ground arith
  status_at-snoc (s ∷ c) (suc n) = let ih = status_at-snoc c n in ground (arith, ih)

  pub status_at-settle_at :
      (c : List (Status T)) (m : ℕ) (next : Status T) (n : ℕ)
      → status_at (settle_at c m next) n
        ≡ (if n == m then if_waiting (status_at c n) next else status_at c n)
  status_at-settle_at [] m next n = ground arith
  status_at-settle_at (s ∷ c) zero next zero = ground arith
  status_at-settle_at (s ∷ c) zero next (suc n) = ground arith
  status_at-settle_at (s ∷ c) (suc m) next zero = ground arith
  status_at-settle_at (s ∷ c) (suc m) next (suc n) =
      let ih = status_at-settle_at c m next n in ground (arith, ih)

abbrev pub status_lists : (T : Type 0) → OneshotLib T
status_lists T = record {
  Channels = List (Status T);
  status = status_at;
  channel = λ c. (c ++ (waiting ∷ []), length c);
  send = λ c m v. settle_at c m (sent v);
  drop_sender = λ c m. settle_at c m cancelled;
  channel-unmade = status_at-length;
  status-channel = status_at-snoc;
  status-send = λ c m v n. status_at-settle_at c m (sent v) n;
  status-drop_sender = λ c m n. status_at-settle_at c m cancelled n;
}

-- An operation that starts, and is answered before another one listens.
abbrev fast : Started (status_lists ℕ) (Unit {0})
fast = record { result = ok tt; meanwhile = [] }

abbrev no_error : SignalCancelled → Unit {0}
no_error _ = tt

await_win32-answers_example :
    ((await_win32
        (status_lists ℕ)
        no_error
        (new_signal (status_lists ℕ) [])
        fast
        (signals 7 ∷ listens ∷ [])).1
      ≡ answer (status_lists ℕ) no_error fast (signals 7 ∷ listens ∷ []))
    × IsArmed
        (status_lists ℕ)
        (await_win32
          (status_lists ℕ)
          no_error
          (new_signal (status_lists ℕ) [])
          fast
          (signals 7 ∷ listens ∷ [])).0
await_win32-answers_example =
    await_win32-answers (status_lists ℕ) no_error (new_signal (status_lists ℕ) []) fast
      (signals 7 ∷ listens ∷ []) tt
