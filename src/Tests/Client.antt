-- ===== src/Tests/Client.antt =====
-- An execution at concrete inputs: two connection resets, then a response.
use wrest.Body.{Body, bytes, stream, try_clone}
use wrest.Client.Attempts.{Ran, Execute, execute-Ran}
use wrest.Client.Delivery.{Delivered, Refused, execute_inner-ok_iff, execute_inner-Refused}
use wrest.Client.Execute.{Execution}
use wrest.Client.Inner.{
  translate_blocked_https_downgrade, timeout_error, Limits, Encounter, execute_inner,
}
use wrest.Client.Spending.{Accounts, execute-Accounts, execute-stream}
use wrest.Error.{Error, ErrorKind, io_error, connection_reset, with_kind}
use wrest.Prelude.Result.{Result, ok, err}
use wrest.Prelude.Text.{Text, codes}
use wrest.Prelude.{
  ℕ, ◌++◌, true, false, [], ◌∷◌, Option, some, none, ◌≡◌, arith, refl, if◌then◌else◌, ltb, inr, ◌↔◌,
}
use wrest.Response.Types.{RawResponse, http_11, from_raw}
use wrest.Retry.Policy.{Policy, Builder, default}
use wrest.Tests.Retry.{sample_budget}
use wrest.Tests.Samples.{Entries, entry_headers, one_iri}
use wrest.Tests.Url.{sample_url}

abbrev pub build_uri : Text → Text → Text → Option Text
build_uri scheme authority path = some (scheme ++ (codes "://" ++ (authority ++ path)))

abbrev reset_error : Error
reset_error = with_kind ErrorKind.request (io_error connection_reset none)

-- The default policy.
abbrev default_builder : Builder Text ℕ
default_builder = default Text

abbrev pub policy : Policy Text
policy = record {
  budget = none;
  classify = default_builder.classify;
  max_retries_per_request = 2;
  scope = none;
}

abbrev third_time : ℕ → Option Body → Result Error ℕ
third_time n body = if ltb n 3 then err reset_error else ok 200

abbrev get : Text
get = codes "GET"

abbrev payload : Option Body
payload = some (record { inner = bytes (1 ∷ 2 ∷ []) })

abbrev upload : Body
upload = record { inner = stream (ok (1 ∷ []) ∷ []) }

upload_is_once : try_clone upload ≡ none
unfolding try_clone
upload_is_once = refl

abbrev pub same : ℕ → ℕ
same n = n

abbrev run : Option Body → Execution ℕ
run body = Execute same build_uri policy sample_url get third_time same body (some sample_budget) 9

-- A response that is not a redirect, before the deadline.
abbrev reply : RawResponse Entries
reply = record {
  request_handle = 5;
  status = 200;
  version = http_11;
  url = sample_url;
  headers = [];
}

abbrev limits : Limits
limits = record { https_only = false; redirect_follows = true }

abbrev encounter : Encounter Entries
encounter = record { start = 10; reply = λ body. ok reply; reply_time = 32; fired = some 35 }

reply_delivered :
    execute_inner entry_headers one_iri limits sample_url (some 30) encounter payload
    ≡ ok (from_raw reply (some 30))
unfolding execute_inner wrest.Client.Inner.expired wrest.Client.Inner.race
    wrest.Client.Inner.refuse_downgrade translate_blocked_https_downgrade
reply_delivered = refl

reply_Delivered :
    Delivered entry_headers one_iri limits sample_url
      (some 30)
      encounter
      payload
      (from_raw reply (some 30))
unfolding translate_blocked_https_downgrade
reply_Delivered = record {
  raw = reply;
  replied = refl;
  response_is = refl;
  scheme_allowed = refl;
  in_time = (omega arith, λ t fired. ground (arith, fired));
  not_downgraded = inr (λ d. absurd (omega (arith, d.redirection)));
}

execute_inner-ok_iff_example :
    (execute_inner entry_headers one_iri limits sample_url (some 30) encounter payload
      ≡ ok (from_raw reply (some 30)))
    ↔ Delivered entry_headers one_iri limits sample_url
        (some 30)
        encounter
        payload
        (from_raw reply (some 30))
execute_inner-ok_iff_example =
    execute_inner-ok_iff entry_headers one_iri limits sample_url (some 30) encounter payload
      (from_raw reply (some 30))

-- The timer is found fired before the reply.
abbrev slow : Encounter Entries
slow = record encounter { fired = some 31 }

slow_times_out :
    execute_inner entry_headers one_iri limits sample_url (some 30) slow payload
    ≡ err (timeout_error sample_url)
unfolding execute_inner wrest.Client.Inner.expired wrest.Client.Inner.race
    wrest.Client.Inner.refuse_downgrade translate_blocked_https_downgrade
slow_times_out = refl

execute_inner-Refused_example :
    Refused entry_headers one_iri limits sample_url
      (some 30)
      slow
      payload
      (timeout_error sample_url)
execute_inner-Refused_example =
    execute_inner-Refused entry_headers one_iri limits sample_url (some 30) slow payload
      (timeout_error sample_url) slow_times_out

execute-stream_example :
    (Execute same build_uri policy sample_url get third_time same
      (some upload)
      (some sample_budget)
      9).sent
    ≡ some upload ∷ []
execute-stream_example =
    execute-stream same build_uri policy sample_url get third_time same upload (some sample_budget)
      9 upload_is_once

execute-Ran_example :
    Ran same build_uri policy sample_url get third_time same 1 3 payload (run payload)
execute-Ran_example =
    execute-Ran same build_uri policy sample_url get third_time same payload (some sample_budget) 9

execute-Accounts_example :
    Accounts same build_uri policy sample_url get third_time same sample_budget (run payload)
execute-Accounts_example =
    execute-Accounts same build_uri policy sample_url get third_time same payload sample_budget 9
