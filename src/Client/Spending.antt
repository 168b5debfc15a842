-- ===== src/Client/Spending.antt =====
-- src/client.rs, `Client::execute`: bodies that cannot be sent twice, and what an execution takes from
-- the retry budget.
use wrest.Body.{Body, try_clone}
use wrest.Client.Attempts.{
  Attempts, Execute, once, Round, last, refused, retried, round, execute-attempts,
}
use wrest.Client.Execute.{Execution, body_to_send, attempts}
use wrest.Error.{Error}
use wrest.Prelude.Result.{Result}
use wrest.Prelude.Text.{Text}
use wrest.Prelude.{
  ℕ, zero, suc, ◌+◌, Bool, true, false, List, [], ◌∷◌, ◌++◌, Option, none, some, arith, ◌≡◌, refl,
  sym, ap, ◌∙◌, if◌then◌else◌, length,
}
use wrest.Retry.Budget.Permits.{
  Call, deposit_at, withdraw_at, Tally, call, calls, fresh, count_permit,
}
use wrest.Retry.Budget.{Budget}
use wrest.Retry.Budget
use wrest.Retry.Policy.{Policy, can_withdraw, deposit}
use wrest.Url.Types.{Url}

no_clone : (b : Body) → try_clone b ≡ none → (body_to_send (some b)).1 ≡ false
unfolding body_to_send
no_clone b h = rw (h, body_to_send)

count_permit_lem :
    (t : Tally) (r : Budget × Bool)
    → ((count_permit t r).budget ≡ r.0)
      × ((count_permit t r).permits ≡ t.permits + (if r.1 then 1 else 0))
      × ((count_permit t r).deposits ≡ t.deposits)
count_permit_lem t (b, true) = (refl, omega arith, refl)
count_permit_lem t (b, false) = (refl, omega arith, refl)

calls-append : (t : Tally) (cs ds : List Call) → calls t (cs ++ ds) ≡ calls (calls t cs) ds
unfolding calls
calls-append t [] ds = refl
calls-append t (c ∷ cs) ds = calls-append (call t c) cs ds

deposit_last :
    (t : Tally) (end : ℕ)
    → calls t (deposit_at end ∷ [])
      ≡ record t { budget = Budget.deposit t.budget end; deposits = suc t.deposits }
unfolding calls call
deposit_last t end = refl

module _ {R Uri : Type 0} (status_of : R → ℕ) (build_uri : Text → Text → Text → Option Uri)
    (policy : Policy Uri) (url : Url) (method : Text) (attempt : ℕ → Option Body → Result Error R)
    (clock : ℕ → ℕ) where
  abbrev Loop : ℕ → ℕ → Option Body → Option Budget → Execution R
  Loop = Attempts status_of build_uri policy url method attempt clock

  Round-stream :
      {r n : ℕ} {b : Body} {budget : Option Budget} {e : Execution R}
      → try_clone b ≡ none
      → Round status_of build_uri policy url method attempt clock r n (some b) budget e
      → e.sent ≡ some b ∷ []
  Round-stream h (last e) = ap (λ x. x.sent) e
  Round-stream {b} h (refused clone _ _ _) = cc (no_clone b h)
  Round-stream {b} h (retried clone _ _ _) = cc (no_clone b h)

  loop-stream :
      (r n : ℕ) (b : Body) (budget : Option Budget)
      → try_clone b ≡ none
      → (Loop r n (some b) budget).sent ≡ some b ∷ []
  unfolding attempts
  loop-stream zero n b budget h = refl
  loop-stream (suc r) n b budget h =
      Round-stream h (round status_of build_uri policy url method attempt clock r n (some b) budget)

  -- A body that cannot be cloned, such as a stream, is given to exactly one attempt.
  pub execute-stream :
      (b : Body) (budget : Option Budget) (end : ℕ)
      → try_clone b ≡ none
      → (Execute status_of build_uri policy url method attempt clock (some b) budget end).sent
        ≡ some b ∷ []
  execute-stream b budget end h =
      rw (execute-attempts status_of build_uri policy url method attempt clock (some b) budget end)
        (loop-stream policy.max_retries_per_request 1 b budget h)

  -- The withdrawals that a run of attempts makes, and what they come to.
  record Spends (t : Tally) (e : Execution R) : Type 0 where
    withdrawals : List Call
    budget_is : e.budget ≡ some (calls t withdrawals).budget
    permits_is : (calls t withdrawals).permits + 1 ≡ t.permits + length e.sent
    deposits_is : (calls t withdrawals).deposits ≡ t.deposits

  once-Spends :
      (n : ℕ) (body : Option Body) (t : Tally)
      → Spends t (once status_of build_uri policy url method attempt clock n body (some t.budget))
  unfolding calls
  once-Spends n body t = record {
    withdrawals = [];
    budget_is = refl;
    permits_is = omega arith;
    deposits_is = refl;
  }

  Round-Spends :
      {r n : ℕ} {body : Option Body} {e : Execution R} (t : Tally)
      → Round status_of build_uri policy url method attempt clock r n body (some t.budget) e
      → ((t' : Tally) → Spends t' (Loop r (n + 1) body (some t'.budget)))
      → Spends t e
  unfolding calls call can_withdraw
  Round-Spends {n} t (last e) ih = rw e (once-Spends _ _ t)
  Round-Spends {n} t (refused _ _ poor e) ih =
      let (b, p, d) = count_permit_lem t (Budget.withdraw t.budget (clock n)) in
      rw e (record {
        withdrawals = withdraw_at (clock n) ∷ [];
        budget_is = ap some (sym b);
        permits_is = rw p (rw poor (omega arith));
        deposits_is = d;
      })
  Round-Spends {r} {n} {body} t (retried _ _ granted e) ih =
      let t' = count_permit t (Budget.withdraw t.budget (clock n)) in
      let (b, p, d) = count_permit_lem t (Budget.withdraw t.budget (clock n)) in
      let s : Spends t' (Loop r (n + 1) body (some (Budget.withdraw t.budget (clock n)).0)) =
        rw b at (ih t') in
      let p' : t'.permits ≡ t.permits + 1 = p ∙ rw granted in
      rw e (record {
        withdrawals = withdraw_at (clock n) ∷ s.withdrawals;
        budget_is = s.budget_is;
        permits_is = omega (arith, s.permits_is, p');
        deposits_is = s.deposits_is ∙ d;
      })

  loop-Spends :
      (r n : ℕ) (body : Option Body) (t : Tally) → Spends t (Loop r n body (some t.budget))
  unfolding attempts
  loop-Spends zero n body t = once-Spends n body t
  loop-Spends (suc r) n body t =
      Round-Spends t
        (round status_of build_uri policy url method attempt clock r n body (some t.budget))
        (λ t'. loop-Spends r (n + 1) body t')

  -- What an execution does to a budget: its calls, in order.
  pub record Accounts (b : Budget) (e : Execution R) : Type 0 where
    pub budget_calls : List Call
    pub budget_is : e.budget ≡ some (calls (fresh b) budget_calls).budget
    pub permits_is : (calls (fresh b) budget_calls).permits + 1 ≡ length e.sent
    pub deposits_is : (calls (fresh b) budget_calls).deposits ≡ 1

  -- An execution is a sequence of calls on the budget: one deposit, and a permitted withdrawal for each
  -- attempt after the first.
  pub execute-Accounts :
      (body : Option Body) (b : Budget) (end : ℕ)
      → Accounts b (Execute status_of build_uri policy url method attempt clock body (some b) end)
  unfolding deposit
  execute-Accounts body b end =
      let s = loop-Spends policy.max_retries_per_request 1 body (fresh b) in
      let joined =
        calls-append (fresh b) s.withdrawals (deposit_at end ∷ []) ∙ deposit_last _ end in
      rw (execute-attempts status_of build_uri policy url method attempt clock body (some b) end)
        (record {
          budget_calls = s.withdrawals ++ deposit_at end ∷ [];
          budget_is = rw (joined, s.budget_is);
          permits_is = rw joined (omega (arith, s.permits_is));
          deposits_is = rw joined (ap suc s.deposits_is);
        })
