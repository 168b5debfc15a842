-- ===== src/Client/Execute.antt =====
-- src/client.rs: `Client::execute`, the deadline and the retry loop. `attempt n body` is the result of
-- the n-th call of `execute_inner`, counted from 1 as `attempt_no` is. The budget is shared by the
-- clones of a client; it is modelled for one request at a time. The clock readings of the budget's
-- operations are arguments.
use wrest.Body.{Body, try_clone}
use wrest.Error.{Error}
use wrest.Prelude.Result.{Result, ok, err}
use wrest.Prelude.Text.{Text}
use wrest.Prelude.{
  ℕ, zero, suc, ◌+◌, Bool, true, false, List, [], ◌∷◌, Option, none, some, if◌then◌else◌, leb, ◌==◌,
}
use wrest.Retry.Budget.{Budget}
use wrest.Retry.Policy.{Policy, Action, success, retryable, classify_result, deposit, can_withdraw}
use wrest.Url.Types.{Url}

-- The result, the bodies given to `execute_inner` in order, and the budget afterwards.
pub record Execution (R : Type 0) : Type 0 where
  pub result : Result Error R
  pub sent : List (Option Body)
  pub budget : Option Budget

-- `timeout.or(total_timeout)`
abbrev pub or_else : Option ℕ → Option ℕ → Option ℕ
or_else none d = d
or_else (some t) d = some t

-- `now.checked_add(timeout)`: no deadline where the sum is past the last `Instant`.
unfoldable pub deadline_from : ℕ → ℕ → Option ℕ → Option ℕ → Option ℕ
deadline_from last_instant now timeout total_timeout = elim (or_else timeout total_timeout) [
  | none ↦ none
  | some d ↦ if leb (now + d) last_instant then some (now + d) else none
]

abbrev pub is_retryable : Action → Bool
is_retryable success = false
is_retryable retryable = true

abbrev pub status_result : {R : Type 0} → (R → ℕ) → Result Error R → Result Error ℕ
status_result status_of (ok r) = ok (status_of r)
status_result status_of (err e) = err e

-- The body to send and whether a retry is possible, while retries remain.
unfoldable pub body_to_send : Option Body → Option Body × Bool
body_to_send none = (none, true)
body_to_send (some b) = elim (try_clone b) [ none ↦ (some b, false) | some c ↦ (some c, true) ]

module _ {R Uri : Type 0} (status_of : R → ℕ) (build_uri : Text → Text → Text → Option Uri)
    (policy : Policy Uri) (url : Url) (method : Text) (attempt : ℕ → Option Body → Result Error R)
    (clock : ℕ → ℕ) where
  -- Whether the result of an attempt is classified as retryable.
  unfoldable pub wants_retry : Result Error R → Bool
  wants_retry result =
      is_retryable
        (classify_result Uri build_uri policy url method (status_result status_of result))

  -- One attempt that is the last whatever its result.
  abbrev final_attempt : ℕ → Option Body → Option Budget → Execution R
  final_attempt n body budget = record {
    result = attempt n body;
    sent = body ∷ [];
    budget = budget;
  }

  abbrev before : Option Body → Execution R → Execution R
  before body e = record e { sent = body ∷ e.sent }

  -- The loop, by the retries that remain; `n` is `attempt_no`.
  unfoldable pub attempts : ℕ → ℕ → Option Body → Option Budget → Execution R
  unfolding wants_retry body_to_send
  attempts zero n body budget = final_attempt n body budget
  attempts (suc remaining) n body budget =
      let to_send = body_to_send body in
      let result = attempt n to_send.0 in
      let withdrawal = can_withdraw Uri budget (clock n) in
      let retried = before to_send.0 (attempts remaining (n + 1) body withdrawal.0) in
      let refused : Execution R = record {
        result = result;
        sent = to_send.0 ∷ [];
        budget = withdrawal.0;
      } in
      if to_send.1
      then (if wants_retry result
          then (if withdrawal.1 then retried else refused)
          else final_attempt n to_send.0 budget)
      else final_attempt n to_send.0 budget

  -- The guard deposits when the execution ends, on every path.
  unfoldable pub execute : Option Body → Option Budget → ℕ → Execution R
  unfolding attempts
  execute body budget end =
      let max = policy.max_retries_per_request in
      let e : Execution R =
        if max == 0 then final_attempt 1 body budget else attempts max 1 body budget in
      record e { budget = deposit Uri e.budget end }
