-- ===== src/Client/Attempts.antt =====
-- src/client.rs, `Client::execute`: how many attempts are made, with which body, and on what ground.
use native.Mathlib.Nat.{add-zero}
use wrest.Body.{Body, try_clone, try_clone-eq}
use wrest.Client.Execute.{Execution, body_to_send, wants_retry, attempts, execute}
use wrest.Error.{Error}
use wrest.Prelude.Result.{Result}
use wrest.Prelude.Text.{Text}
use wrest.Prelude.{
  ℕ, zero, suc, ◌+◌, ◌-◌, ◌≤◌, Bool, true, false, [], ◌∷◌, Option, none, some, arith, ◌≡◌, refl, ap,
  Bool-cases, inl, inr, Option-cases, length, All, ◌==◌, ◌∙◌,
}
use wrest.Retry.Budget.{Budget}
use wrest.Retry.Policy.{Policy, can_withdraw, deposit}
use wrest.Url.Types.{Url}

move : (n i : ℕ) → n + suc i ≡ n + 1 + i
move n i = omega arith

-- A body is sent as it is, and can be sent again unless it cannot be cloned.
pub body_to_send-same : (body : Option Body) → (body_to_send body).0 ≡ body
unfolding body_to_send
body_to_send-same none = refl
body_to_send-same (some b) = elim (Option-cases (try_clone b)) [
  | inl e ↦ rw (e, body_to_send)
  | inr (c, e) ↦ rw (e, body_to_send) (ap some (try_clone-eq b e))
]

module _ {R Uri : Type 0} (status_of : R → ℕ) (build_uri : Text → Text → Text → Option Uri)
    (policy : Policy Uri) (url : Url) (method : Text) (attempt : ℕ → Option Body → Result Error R)
    (clock : ℕ → ℕ) where
  abbrev pub Attempts : ℕ → ℕ → Option Body → Option Budget → Execution R
  Attempts = attempts status_of build_uri policy url method attempt clock

  abbrev pub is_retried : ℕ → Option Body → Bool
  is_retried n body =
      wants_retry status_of build_uri policy url method attempt clock (attempt n body)

  -- What is known of the attempts from the n-th on: `k` of them, all with `body`, each but the last
  -- retryable, and the result that of the last.
  pub record Ran (n most : ℕ) (body : Option Body) (e : Execution R) : Type 0 where
    pub attempts_pos : 1 ≤ length e.sent
    pub attempts_le : length e.sent ≤ most
    pub same_body : All (λ b. b ≡ body) e.sent
    pub last_result : e.result ≡ attempt (n + length e.sent - 1) body
    pub grounds : (i : ℕ) → suc i ≤ length e.sent - 1 → is_retried (n + i) body ≡ true

  abbrev pub once : ℕ → Option Body → Option Budget → Execution R
  once n body b = record { result = attempt n body; sent = body ∷ []; budget = b }

  abbrev pub again : Option Body → Execution R → Execution R
  again body e = record { result = e.result; sent = body ∷ e.sent; budget = e.budget }

  -- The three ends of one round: the last attempt, a retry that the budget refuses, and a retry.
  pub data Round (r n : ℕ) (body : Option Body) (b : Option Budget) (e : Execution R) : Type 0 where
    last : e ≡ once n body b → Round r n body b e
    refused :
        (body_to_send body).1 ≡ true
        → is_retried n body ≡ true
        → (can_withdraw Uri b (clock n)).1 ≡ false
        → e ≡ once n body (can_withdraw Uri b (clock n)).0
        → Round r n body b e
    retried :
        (body_to_send body).1 ≡ true
        → is_retried n body ≡ true
        → (can_withdraw Uri b (clock n)).1 ≡ true
        → e ≡ again body (Attempts r (n + 1) body (can_withdraw Uri b (clock n)).0)
        → Round r n body b e

  pub round :
      (r n : ℕ) (body : Option Body) (b : Option Budget)
      → Round r n body b (Attempts (suc r) n body b)
  unfolding attempts
  round r n body b =
      let same = body_to_send-same body in
      elim (Bool-cases (body_to_send body).1) [
        | inr no_clone ↦ last (ground (arith, same))
        | inl clone ↦ elim (Bool-cases (is_retried n body)) [
          | inr fine ↦ last (ground (arith, same))
          | inl retry ↦ elim (Bool-cases (can_withdraw Uri b (clock n)).1) [
            | inr poor ↦ refused clone retry poor (ground (arith, same))
            | inl granted ↦ retried clone retry granted (ground (arith, same))
          ]
        ]
      ]

  once-Ran :
      (n most : ℕ) (body : Option Body) (b : Option Budget)
      → 1 ≤ most
      → Ran n most body (once n body b)
  once-Ran n most body b h = record {
    attempts_pos = omega arith;
    attempts_le = h;
    same_body = (refl, tt);
    last_result = ap (λ k. attempt k body) (omega arith);
    grounds = λ i k. absurd (omega arith);
  }

  again-Ran :
      (n most : ℕ) (body : Option Body) (e : Execution R)
      → is_retried n body ≡ true
      → Ran (n + 1) most body e
      → Ran n (suc most) body (again body e)
  again-Ran n most body e retry ran = record {
    attempts_pos = omega arith;
    attempts_le = omega (arith, ran.attempts_le);
    same_body = (refl, ran.same_body);
    last_result = ran.last_result ∙ ap (λ k. attempt k body) (omega (arith, ran.attempts_pos));
    grounds = λ i k. again-grounds n most body e retry ran i (omega arith);
  }
    where
      again-grounds :
          (n most : ℕ) (body : Option Body) (e : Execution R)
          → is_retried n body ≡ true
          → Ran (n + 1) most body e
          → (i : ℕ) → suc i ≤ length e.sent
          → is_retried (n + i) body ≡ true
      again-grounds n most body e retry ran zero k = rw (add-zero n) retry
      again-grounds n most body e retry ran (suc i) k = rw (move n i) (ran.grounds i (omega arith))

  Round-Ran :
      {r n : ℕ} {body : Option Body} {b : Option Budget} {e : Execution R}
      → Round r n body b e
      → ((b' : Option Budget) → Ran (n + 1) (suc r) body (Attempts r (n + 1) body b'))
      → Ran n (suc (suc r)) body e
  Round-Ran (last e) ih = rw e (once-Ran _ _ _ _ (omega arith))
  Round-Ran (refused _ _ _ e) ih = rw e (once-Ran _ _ _ _ (omega arith))
  Round-Ran (retried _ retry _ e) ih = rw e (again-Ran _ _ _ _ retry (ih _))

  pub attempts-Ran :
      (r n : ℕ) (body : Option Body) (b : Option Budget) → Ran n (suc r) body (Attempts r n body b)
  unfolding attempts
  attempts-Ran zero n body b = once-Ran n 1 body b (omega arith)
  attempts-Ran (suc r) n body b =
      Round-Ran (round r n body b) (λ b'. attempts-Ran r (n + 1) body b')

  abbrev pub Execute : Option Body → Option Budget → ℕ → Execution R
  Execute = execute status_of build_uri policy url method attempt clock

  -- The fast path does what the loop would do with no retry left.
  pub execute-attempts :
      (body : Option Body) (b : Option Budget) (end : ℕ)
      → Execute body b end ≡ record {
        result = (Attempts policy.max_retries_per_request 1 body b).result;
        sent = (Attempts policy.max_retries_per_request 1 body b).sent;
        budget = deposit Uri (Attempts policy.max_retries_per_request 1 body b).budget end;
      }
  unfolding execute attempts
  execute-attempts body b end = elim (Bool-cases (policy.max_retries_per_request == 0)) [
    | inl e ↦ ground arith
    | inr e ↦ rw e
  ]

  -- An execution makes at least one attempt and at most one more than the policy's retries, each with
  -- the body of the request. The result is that of the last, and each attempt before the last had a
  -- result that the policy classifies as retryable.
  pub execute-Ran :
      (body : Option Body) (b : Option Budget) (end : ℕ)
      → Ran 1 (suc policy.max_retries_per_request) body (Execute body b end)
  execute-Ran body b end =
      let ran = attempts-Ran policy.max_retries_per_request 1 body b in
      rw (execute-attempts body b end) (record {
        attempts_pos = ran.attempts_pos;
        attempts_le = ran.attempts_le;
        same_body = ran.same_body;
        last_result = ran.last_result;
        grounds = ran.grounds;
      })
