-- ===== src/Client/Defaults.antt =====
-- src/client.rs with src/retry.rs: the attempts of a client that sets no retry policy.
use mathlib.Core.Path.{subst}
use wrest.Body.{Body}
use wrest.Client.Attempts.{
  Execute, Attempts, execute-Ran, execute-attempts, attempts-Ran, body_to_send-same,
}
use wrest.Client.Execute.{Execution, body_to_send, wants_retry, attempts}
use wrest.Error.Classify.{HasReset, is_connection_reset_iff}
use wrest.Error.{Error, Source}
use wrest.Prelude.Result.{Result, ok, err}
use wrest.Prelude.Text.{Text}
use wrest.Prelude.{
  ℕ, suc, ◌+◌, ◌-◌, ◌≤◌, true, Option, some, ◌≡◌, refl, ◌∙◌, sym, ap, arith, length,
}
use wrest.Retry.Budget.{Budget, F32}
use wrest.Retry.Default.{default-retries, default-max}
use wrest.Retry.Policy.{Policy, default, into_policy, to_http_uri, can_withdraw}
use wrest.Url.Types.{Url}

-- A result that is an error with a connection reset on its chain of sources.
abbrev pub IsReset : {R : Type 0} → Result Error R → Type 0
IsReset {R} result =
    (x : Error) × (result ≡ err x) × ((s : Source) × (x.source ≡ some s) × HasReset s)

module _ {R Uri : Type 0} (status_of : R → ℕ) (build_uri : Text → Text → Text → Option Uri)
    (f : F32) (now : ℕ) (policy : Policy Uri) (url : Url) (method : Text)
    (attempt : ℕ → Option Body → Result Error R) (clock : ℕ → ℕ) {u : Uri}
    (u_is : to_http_uri Uri build_uri url ≡ some u)
    (made : into_policy Uri f (default Uri) now ≡ some policy) where
  abbrev Run : Option Body → Option Budget → ℕ → Execution R
  Run = Execute status_of build_uri policy url method attempt clock

  wants_retry-IsReset :
      (result : Result Error R)
      → wants_retry status_of build_uri policy url method attempt clock result ≡ true
      → IsReset result
  unfolding wants_retry
  wants_retry-IsReset (ok r) h =
      absurd
        (ground (arith, h, default-retries build_uri f now url method (ok (status_of r)) u_is made))
  wants_retry-IsReset (err x) h = (
    x,
    refl,
    (is_connection_reset_iff x).0
        (ground (arith, h, default-retries build_uri f now url method (err x) u_is made)),
  )

  IsReset-wants_retry :
      (result : Result Error R)
      → IsReset result
      → wants_retry status_of build_uri policy url method attempt clock result ≡ true
  unfolding wants_retry
  IsReset-wants_retry result (x, is, chain) =
      let reset = (is_connection_reset_iff x).1 chain in
      rw (is) (ground (arith, reset, default-retries build_uri f now url method (err x) u_is made))

  -- The first attempt is not the last where it may be retried.
  goes_on :
      (r : ℕ) (body : Option Body) (b : Option Budget)
      → (body_to_send body).1 ≡ true
      → wants_retry status_of build_uri policy url method attempt clock (attempt 1 body) ≡ true
      → (can_withdraw Uri b (clock 1)).1 ≡ true
      → 2
        ≤ length
            (Attempts status_of build_uri policy url method attempt clock (suc r) 1 body b).sent
  unfolding attempts
  goes_on r body b clones retry granted =
      let rest =
        attempts-Ran status_of build_uri policy url method attempt clock r 2 body
          (can_withdraw Uri b (clock 1)).0 in
      rw (body_to_send-same body, clones, retry, granted) (omega (arith, rest.attempts_pos))

  -- What the default policy makes of an execution.
  pub record RetriesResets (body : Option Body) (b : Option Budget) (e : Execution R) : Type 0 where
    pub some_attempt : 1 ≤ length e.sent
    pub at_most_three : length e.sent ≤ 3
    pub last_result : e.result ≡ attempt (length e.sent) body
    pub only_resets : (i : ℕ) → suc i ≤ length e.sent - 1 → IsReset (attempt (1 + i) body)
    pub first_reset :
        (body_to_send body).1 ≡ true
        → (can_withdraw Uri b (clock 1)).1 ≡ true
        → IsReset (attempt 1 body)
        → 2 ≤ length e.sent

  -- A client that sets no retry policy makes one to three attempts, and returns the result of the last.
  -- Each attempt before the last ended in a connection reset; and where the first one did, it is retried
  -- when the body can be cloned and the budget permits it. The condition is that the URL of the request
  -- converts to an `http::Uri`, which the classifier is given.
  pub execute-RetriesResets :
      (body : Option Body) (b : Option Budget) (end : ℕ) → RetriesResets body b (Run body b end)
  execute-RetriesResets body b end =
      let ran = execute-Ran status_of build_uri policy url method attempt clock body b end in
      let max = default-max f now made in
      record {
        some_attempt = ran.attempts_pos;
        at_most_three = omega (arith, ran.attempts_le, max);
        last_result = ran.last_result ∙ ap (λ k. attempt k body) (omega (arith, ran.attempts_pos));
        only_resets = λ i before. wants_retry-IsReset (attempt (1 + i) body) (ran.grounds i before);
        first_reset = λ clones granted reset.
            let retry = IsReset-wants_retry (attempt 1 body) reset in
            rw (execute-attempts status_of build_uri policy url method attempt clock body b end) (
              subst
                (λ (m : ℕ).
                  2
                  ≤ length
                      (Attempts status_of build_uri policy url method attempt clock m 1 body
                        b).sent)
                (sym max) (goes_on 1 body b clones retry granted));
      }
