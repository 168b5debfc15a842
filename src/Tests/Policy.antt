-- ===== src/Tests/Policy.antt =====
-- Retry policies at concrete inputs.
use wrest.Body.{Body}
use wrest.Client.Attempts.{Execute}
use wrest.Client.Defaults.{RetriesResets, execute-RetriesResets}
use wrest.Error.{
  Error, ErrorKind, Source, io_error, context, connection_reset, with_kind, is_connection_reset,
}
use wrest.Error.Classify.{HasReset, is_connection_reset_iff}
use wrest.Prelude.Result.{Result, ok, err}
use wrest.Prelude.Text.{Text, codes, text_eq}
use wrest.Prelude.{ℕ, true, ltb, ◌++◌, Option, some, none, ◌≡◌, refl, ◌↔◌, if◌then◌else◌}
use wrest.Retry.Policy.{
  Policy, Builder, ReqRep, Action, retryable, default, into_policy, classify_fn, for_host,
  to_http_uri,
}
use wrest.Tests.Retry.{sample_budget}
use wrest.Tests.Samples.{thousandths}
use wrest.Tests.Url.{sample_url}

abbrev to_uri : Text → Text → Text → Option Text
to_uri scheme authority path = some (scheme ++ (codes "://" ++ (authority ++ path)))

abbrev default_builder : Builder Text ℕ
default_builder = default Text

abbrev default_policy : Policy Text
default_policy = record {
  budget = none;
  classify = default_builder.classify;
  max_retries_per_request = 2;
  scope = none;
}

default_made : into_policy Text thousandths (default Text) 7 ≡ some default_policy
unfolding into_policy default
default_made = refl

abbrev reset_result : Result Error ℕ
reset_result = err (with_kind ErrorKind.request (io_error connection_reset none))

abbrev sample_uri : Text
sample_uri = codes "http://example.org:8080/a?x=1"

sample_uri_is : to_http_uri Text to_uri sample_url ≡ some sample_uri
unfolding to_http_uri wrest.Prelude.Text.decimal
sample_uri_is = refl

-- Two connection resets, then a response.
abbrev resets : ℕ → Option Body → Result Error ℕ
resets n body = if ltb n 3 then reset_result else ok 200

abbrev same : ℕ → ℕ
same n = n

execute-RetriesResets_example :
    RetriesResets same to_uri thousandths 7 default_policy sample_url
      (codes "GET")
      resets
      same
      sample_uri_is
      default_made
      none
      none
      (Execute same to_uri default_policy sample_url (codes "GET") resets same none none 9)
execute-RetriesResets_example =
    execute-RetriesResets same to_uri thousandths 7 default_policy sample_url (codes "GET") resets
      same sample_uri_is default_made none none 9

abbrev always : ReqRep Text → Action
always rr = retryable

abbrev host_policy : Policy Text
host_policy = record {
  budget = some sample_budget;
  classify = some always;
  max_retries_per_request = 2;
  scope = some (λ url method. text_eq (codes "example.org") url.host);
}

host_made :
    into_policy Text thousandths
      (classify_fn Text (for_host Text 200 (codes "example.org")) always)
      7
    ≡ some host_policy
unfolding into_policy classify_fn for_host wrest.Retry.Budget.new wrest.Prelude.Int.saturating_mul
host_made = refl

is_connection_reset_iff_example :
    (is_connection_reset
        (with_kind ErrorKind.request (context (codes "sending") (io_error connection_reset none)))
      ≡ true)
    ↔ ((s : Source) × (◌≡◌ {A = Option Source}
          (some (context (codes "sending") (io_error connection_reset none)))
          (some s))
        × HasReset s)
is_connection_reset_iff_example =
    is_connection_reset_iff
      (with_kind ErrorKind.request (context (codes "sending") (io_error connection_reset none)))
