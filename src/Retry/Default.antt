-- ===== src/Retry/Default.antt =====
-- src/retry.rs: what the policies that the builder makes retry.
use wrest.Error.{Error, is_connection_reset}
use wrest.Prelude.Result.{Result, ok, err}
use wrest.Prelude.Text.{Text, text_eq}
use wrest.Prelude.{
  ℕ, Bool, true, false, Option, some, ◌≡◌, refl, ap, arith, if◌then◌else◌, inl, inr, Option-cases,
  not, ◌∙◌,
}
use wrest.Retry.Budget.{F32}
use wrest.Retry.Policy.{
  Action, success, retryable, ReqRep, Policy, Builder, default, for_host, classify_fn, into_policy,
  classify_result, into_budget, out_of_scope, to_http_uri, new_req_rep, is_protocol_nack,
}
use wrest.Url.Types.{Url}

abbrev pub is_reset : Result Error ℕ → Bool
is_reset (ok _) = false
is_reset (err e) = is_connection_reset e

built :
    {Uri : Type 0} (f : F32) (b : Builder Uri f.Float) (now : ℕ) {p : Policy Uri}
    → into_policy Uri f b now ≡ some p
    → (p.scope ≡ b.scope) × (p.classify ≡ b.classify)
unfolding into_policy
built {Uri} f b now made = elim (Option-cases (into_budget Uri f b.budget now)) [
  | inl e ↦ absurd (ground (arith, made, e))
  | inr (o, e) ↦ ground (arith, made, e)
]

-- The number of retries of the default policy.
pub default-max :
    {Uri : Type 0} (f : F32) (now : ℕ) {p : Policy Uri}
    → into_policy Uri f (default Uri) now ≡ some p
    → p.max_retries_per_request ≡ 2
unfolding into_policy default
default-max {Uri} f now made = elim (Option-cases (into_budget Uri f (default Uri).budget now)) [
  | inl e ↦ absurd (ground (arith, made, e))
  | inr (o, e) ↦ ground (arith, made, e)
]

classified :
    {Uri : Type 0} (build_uri : Text → Text → Text → Option Uri) (p : Policy Uri) (url : Url)
    (method : Text) (result : Result Error ℕ) {scope : Option (Url → Text → Bool)}
    {func : ReqRep Uri → Action} {u : Uri}
    → p.scope ≡ scope
    → p.classify ≡ some func
    → to_http_uri Uri build_uri url ≡ some u
    → classify_result Uri build_uri p url method result ≡ (
        if out_of_scope Uri build_uri scope url method
        then success
        else func (record { uri = u; method = method; result = result }))
unfolding classify_result new_req_rep
classified build_uri p url method result s c u_is = rw (s, c, u_is) refl

nack-is_reset :
    {Uri : Type 0} (u : Uri) (method : Text) (result : Result Error ℕ)
    → is_protocol_nack Uri (record { uri = u; method = method; result = result }) ≡ is_reset result
unfolding is_protocol_nack
nack-is_reset u method (ok _) = refl
nack-is_reset u method (err e) = refl

swapped : {A : Type 0} (b : Bool) (x y : A) → (if not b then x else y) ≡ (if b then y else x)
swapped true x y = refl
swapped false x y = refl

module _ {Uri : Type 0} (build_uri : Text → Text → Text → Option Uri) (f : F32) (now : ℕ)
    (url : Url) (method : Text) (result : Result Error ℕ) {u : Uri}
    (u_is : to_http_uri Uri build_uri url ≡ some u) where
  -- The policy of a client that sets none takes exactly the connection resets as retryable.
  pub default-retries :
      {p : Policy Uri}
      → into_policy Uri f (default Uri) now ≡ some p
      → classify_result Uri build_uri p url method result
        ≡ (if is_reset result then retryable else success)
  unfolding default is_protocol_nack out_of_scope
  default-retries {p} made =
      let (s, c) = built f (default Uri) now made in
      classified build_uri p url method result s c u_is
      ∙ ap (λ b. if b then retryable else success) (nack-is_reset u method result)

  -- A policy for a host asks its classifier about the requests to that host, and takes every result
  -- of another host as a success.
  for_host-retries :
      (fifth : f.Float) (host : Text) (func : ReqRep Uri → Action) {p : Policy Uri}
      → into_policy Uri f (classify_fn Uri (for_host Uri fifth host) func) now ≡ some p
      → classify_result Uri build_uri p url method result ≡ (
          if text_eq host url.host
          then func (record { uri = u; method = method; result = result })
          else success)
  unfolding for_host classify_fn out_of_scope
  for_host-retries fifth host func {p} made =
      let (s, c) = built f (classify_fn Uri (for_host Uri fifth host) func) now made in
      classified build_uri p url method result s c u_is ∙ swapped (text_eq host url.host) success _
