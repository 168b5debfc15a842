-- ===== src/Retry/Policy.antt =====
-- src/retry.rs: `Builder`, `Policy`, and the classification of results. A method is its name. The
-- `http::Uri` builder is a parameter, since that crate decides which parts it accepts.
use mathlib.Core.Option
use wrest.Error.{Error, is_connection_reset}
use wrest.Prelude.Result.{Result, ok, err}
use wrest.Prelude.Text.{Text, codes, text_eq, decimal}
use wrest.Prelude.{ℕ, Bool, true, false, ◌&&◌, ◌++◌, ◌*◌, not, Option, none, some, if◌then◌else◌}
use wrest.Retry.Budget.{Budget, F32, nanos_per_sec}
use wrest.Retry.Budget
use wrest.Url.Types.{Url}

pub data Action : Type 0 where
  success retryable : Action

module _ (Uri : Type 0) where
  pub record ReqRep : Type 0 where
    pub uri : Uri
    pub method : Text
    pub result : Result Error ℕ

  -- `ReqRep::is_protocol_nack`
  unfoldable pub is_protocol_nack : ReqRep → Bool
  is_protocol_nack rr = elim rr.result [ ok _ ↦ false | err e ↦ is_connection_reset e ]

  pub record Policy : Type 0 where
    pub budget : Option Budget
    pub classify : Option (ReqRep → Action)
    pub max_retries_per_request : ℕ
    pub scope : Option (Url → Text → Bool)

  -- `Builder`, over the type of `f32`.
  pub record Builder (Float : Type 0) : Type 0 where
    pub budget : Option Float
    pub classify : Option (ReqRep → Action)
    pub max_retries_per_request : ℕ
    pub scope : Option (Url → Text → Bool)

  module _ {Float : Type 0} where
    -- `Builder::scoped`; `fifth` is the literal `0.2`.
    unfoldable pub scoped : Float → (Url → Text → Bool) → Builder Float
    scoped fifth scope = record {
      budget = some fifth;
      classify = none;
      max_retries_per_request = 2;
      scope = some scope;
    }

    unfoldable pub for_host : Float → Text → Builder Float
    unfolding scoped
    for_host fifth host = scoped fifth (λ url _. text_eq host url.host)

    unfoldable pub no_budget : Builder Float → Builder Float
    no_budget b = record b { budget = none }

    unfoldable pub never : Float → Builder Float
    unfolding scoped no_budget
    never fifth = no_budget (scoped fifth (λ _ _. false))

    unfoldable pub max_retries_per_request : Builder Float → ℕ → Builder Float
    max_retries_per_request b max = record b { max_retries_per_request = max }

    unfoldable pub classify_fn : Builder Float → (ReqRep → Action) → Builder Float
    classify_fn b func = record b { classify = some func }

    -- `Builder::default`
    unfoldable pub default : Builder Float
    unfolding is_protocol_nack
    default = record {
      budget = none;
      classify = some (λ rr. if is_protocol_nack rr then retryable else success);
      max_retries_per_request = 2;
      scope = none;
    }

  -- `Builder::max_extra_load`; `none` is a failed assertion.
  unfoldable pub max_extra_load : (f : F32) → Builder f.Float → f.Float → Option (Builder f.Float)
  max_extra_load f b extra =
      if f.le_f f.zero_f extra && f.le_f extra f.thousand_f
      then some (record b { budget = some extra })
      else none

  -- The budget of `into_policy`: ten seconds, at least ten retries a second.
  unfoldable pub into_budget : (f : F32) → Option f.Float → ℕ → Option (Option Budget)
  into_budget f none now = some none
  into_budget f (some p) now = Option.map some (Budget.new f (10 * nanos_per_sec) 10 p now)

  -- `Builder::into_policy`, at the clock reading `now`; `none` is a failed assertion of `Budget::new`.
  unfoldable pub into_policy : (f : F32) → Builder f.Float → ℕ → Option Policy
  unfolding into_budget
  into_policy f b now =
      Option.map
        (λ (budget : Option Budget). record {
          budget = budget;
          classify = b.classify;
          max_retries_per_request = b.max_retries_per_request;
          scope = b.scope;
        })
        (into_budget f b.budget now)

  -- `Url::to_http_uri`: scheme, authority, and path with query.
  module _ (build_uri : Text → Text → Text → Option Uri) where
    unfoldable pub to_http_uri : Url → Option Uri
    to_http_uri u =
        let authority =
          if u.explicit_port then u.host ++ (codes ":" ++ decimal u.port) else u.host in
        build_uri u.scheme authority u.path_and_query

    -- `ReqRep::new`
    unfoldable pub new_req_rep : Url → Text → Result Error ℕ → Option ReqRep
    unfolding to_http_uri
    new_req_rep url method result =
        Option.map (λ (u : Uri). record { uri = u; method = method; result = result })
          (to_http_uri url)

    unfoldable pub out_of_scope : Option (Url → Text → Bool) → Url → Text → Bool
    out_of_scope none url method = false
    out_of_scope (some scope) url method = not (scope url method)

    unfoldable pub run_classifier : Option (ReqRep → Action) → Option ReqRep → Action
    run_classifier none rr = success
    run_classifier (some classify) none = success
    run_classifier (some classify) (some rr) = classify rr

    -- `Policy::classify_result`; of a response only the status is read.
    unfoldable pub classify_result : Policy → Url → Text → Result Error ℕ → Action
    unfolding out_of_scope run_classifier new_req_rep
    classify_result p url method result =
        if out_of_scope p.scope url method
        then success
        else run_classifier p.classify (new_req_rep url method result)

  -- `Policy::deposit` and `Policy::can_withdraw`, on the budget that the policy shares.
  unfoldable pub deposit : Option Budget → ℕ → Option Budget
  deposit none now = none
  deposit (some b) now = some (Budget.deposit b now)

  unfoldable pub can_withdraw : Option Budget → ℕ → Option Budget × Bool
  can_withdraw none now = (none, true)
  can_withdraw (some b) now = let r = Budget.withdraw b now in (some r.0, r.1)
