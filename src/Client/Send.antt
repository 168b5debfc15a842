-- ===== src/Client/Send.antt =====
-- src/request.rs with src/client.rs: `RequestBuilder::send`, which is `build` and then
-- `Client::execute`. `attempt` is the transport at a built request.
use mathlib.Core.Path.{subst}
use wrest.Body.{Body}
use wrest.Client.Execute.{Execution, execute}
use wrest.Error.{Error}
use wrest.Http.{HeaderMapLib}
use wrest.Prelude.Result.{Result, ok, err, ok_or, >>=-eq-ok, ok-injective, Result-cases}
use wrest.Prelude.Text.{Text}
use wrest.Prelude.{ℕ, List, [], Option, none, ◌≡◌, refl, ap, arith, inl, inr}
use wrest.Request.{Request, RequestBuilder, build, add_defaults, add_per_request, http_error}
use wrest.Retry.Budget.{Budget}
use wrest.Retry.Policy.{Policy}
use wrest.Url.Edit.{take_decoded_userinfo}
use wrest.Url.Types.{Url}

module _ (http : HeaderMapLib) (encode_base64 : List ℕ → Text) (decode : Text → List ℕ)
    (method_from_bytes : Text → Option Text) where
  open http use {HeaderMap}

  abbrev built : RequestBuilder HeaderMap → Result Error (Request HeaderMap)
  built b = build http encode_base64 decode method_from_bytes b

  module _ {R Uri : Type 0} (status_of : R → ℕ) (build_uri : Text → Text → Text → Option Uri)
      (policy : Policy Uri) (clock : ℕ → ℕ) where
    -- `client.execute(request)`
    abbrev run :
        (Request HeaderMap → ℕ → Option Body → Result Error R)
        → Request HeaderMap
        → Option Budget
        → ℕ
        → Execution R
    run attempt r budget end =
        execute status_of build_uri policy r.url r.method (attempt r) clock r.body budget end

    unfoldable pub send :
        (Request HeaderMap → ℕ → Option Body → Result Error R)
        → RequestBuilder HeaderMap
        → Option Budget
        → ℕ
        → Execution R
    unfolding build execute
    send attempt b budget end = elim (built b) [
      | err e ↦ record { result = err e; sent = []; budget = budget }
      | ok r ↦ run attempt r budget end
    ]

  -- No user name and no password.
  abbrev pub HasNoUserinfo : Url → Type 0
  HasNoUserinfo u = (u.username ≡ []) × (u.password ≡ none)

  take_decoded_userinfo-HasNoUserinfo : (u : Url) → HasNoUserinfo (take_decoded_userinfo decode u).0
  unfolding take_decoded_userinfo
  take_decoded_userinfo-HasNoUserinfo u = (ground arith, ground arith)

  build-HasNoUserinfo :
      (b : RequestBuilder HeaderMap) (r : Request HeaderMap) → built b ≡ ok r → HasNoUserinfo r.url
  unfolding build
  build-HasNoUserinfo b r e =
      let (url, e₁, r₁) = >>=-eq-ok b.url _ e in
      let (merged, e₂, r₂) =
        >>=-eq-ok (add_per_request http (add_defaults http b.default_headers b.headers) b.headers) _
          r₁ in
      let (method, e₃, r₃) = >>=-eq-ok (ok_or (method_from_bytes b.method) http_error) _ r₂ in
      subst (λ (q : Request HeaderMap). HasNoUserinfo q.url) (ok-injective _ r r₃)
        (take_decoded_userinfo-HasNoUserinfo url)

  module _ {R Uri : Type 0} (status_of : R → ℕ) (build_uri : Text → Text → Text → Option Uri)
      (policy : Policy Uri) (clock : ℕ → ℕ) where
    -- Sending depends on the transport only at requests whose URL has no user name and no password:
    -- two transports that agree on these give the same result, bodies and budget.
    pub send-same :
        (attempt other : Request HeaderMap → ℕ → Option Body → Result Error R)
        (b : RequestBuilder HeaderMap) (budget : Option Budget) (end : ℕ)
        → ((r : Request HeaderMap) → HasNoUserinfo r.url → attempt r ≡ other r)
        → send status_of build_uri policy clock attempt b budget end
          ≡ send status_of build_uri policy clock other b budget end
    unfolding send
    send-same attempt other b budget end agree = elim (Result-cases (built b)) [
      | inr (e, failed) ↦ rw (failed, send) refl
      | inl (r, made) ↦
          rw (made, send)
            (ap
              (λ (a : ℕ → Option Body → Result Error R).
                execute status_of build_uri policy r.url r.method a clock r.body budget end)
              (agree r (build-HasNoUserinfo b r made)))
    ]
