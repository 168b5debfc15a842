-- ===== src/Tests/Send.antt =====
-- src/request.rs: sending a request whose URL was given with a user name and a password.
use wrest.Body.{Body}
use wrest.Client.Execute.{Execution}
use wrest.Client.Send.{send, send-same}
use wrest.Error.{Error}
use wrest.Prelude.Result.{Result, ok}
use wrest.Prelude.Text.{Text, is_empty}
use wrest.Prelude.{ℕ, Option, some, if◌then◌else◌, ◌≡◌, ap}
use wrest.Request.{Request}
use wrest.Tests.Client.{build_uri, policy, same}
use wrest.Tests.Request.{sample_builder, plain_base64, no_decoding, any_method}
use wrest.Tests.Retry.{sample_budget}
use wrest.Tests.Samples.{Entries, entry_headers}

-- A transport that would tell of a user name.
abbrev tells : Request Entries → ℕ → Option Body → Result Error ℕ
tells r n body = ok (if is_empty r.url.username then 200 else 500)

abbrev silent : Request Entries → ℕ → Option Body → Result Error ℕ
silent r n body = ok 200

abbrev sent : (Request Entries → ℕ → Option Body → Result Error ℕ) → Execution ℕ
sent attempt =
    send entry_headers plain_base64 no_decoding any_method same build_uri policy same attempt
      sample_builder (some sample_budget) 9

send-same_example : sent tells ≡ sent silent
send-same_example =
    send-same entry_headers plain_base64 no_decoding any_method same build_uri policy same tells
      silent sample_builder (some sample_budget) 9
      (λ r h.
        ap {B = ℕ → Option Body → Result Error ℕ}
          (λ (u : Text) (n : ℕ) (body : Option Body). ok (if is_empty u then 200 else 500)) h.0)
