-- ===== src/Tests/Request.antt =====
-- Building a request at a concrete input.
use wrest.Prelude.Result.{ok}
use wrest.Prelude.Text.{Text, codes, text_eq, to_ascii_lowercase}
use wrest.Prelude.{
  ℕ, true, false, List, [], ◌∷◌, Option, some, none, ◌≡◌, refl, sym, arith, if◌then◌else◌,
}
use wrest.Request.Merge.{own_values, build-get_all}
use wrest.Request.{Request, RequestBuilder, build, is_per_request}
use wrest.Tests.Samples.{Entries, entry_headers}
use wrest.Tests.Url.{sample_url}

abbrev pub sample_builder : RequestBuilder Entries
sample_builder = record {
  default_headers = (codes "x-trace", codes "0") ∷ (codes "user-agent", codes "wrest") ∷ [];
  method = codes "GET";
  url = ok sample_url;
  headers = (codes "X-Trace", codes "1") ∷ (codes "x-trace", codes "2") ∷ [];
  body = none;
  timeout = none;
}

abbrev pub plain_base64 : List ℕ → Text
plain_base64 bytes = bytes

abbrev pub no_decoding : Text → List ℕ
no_decoding t = t

abbrev pub any_method : Text → Option Text
any_method t = some t

abbrev sample_request : Request Entries
sample_request = record {
  method = codes "GET";
  url = record sample_url { username = []; password = none };
  headers =
      (codes "user-agent", codes "wrest")
      ∷ (codes "x-trace", codes "1")
      ∷ (codes "x-trace", codes "2")
      ∷ (codes "accept", codes "*/*")
      ∷ (codes "authorization", codes "Basic me:secret")
      ∷ [];
  body = none;
  timeout = none;
}

sample_built :
    build entry_headers plain_base64 no_decoding any_method sample_builder ≡ ok sample_request
unfolding build wrest.Url.Edit.take_decoded_userinfo is_per_request text_eq wrest.Prelude.Text.lower
sample_built = refl

lower_names :
    (text name : Text)
    → entry_headers.name_from_bytes text ≡ some name
    → name ≡ to_ascii_lowercase text
lower_names text name h = cc h

not_accept : text_eq (codes "x-trace") (codes "accept") ≡ false
unfolding text_eq
not_accept = refl

not_authorization : text_eq (codes "x-trace") (codes "authorization") ≡ false
unfolding text_eq
not_authorization = refl

build-get_all_example : entry_headers.get_all sample_request.headers (codes "x-trace") ≡ (
    if is_per_request sample_builder.headers (codes "x-trace")
    then own_values entry_headers sample_builder.headers (codes "x-trace")
    else entry_headers.get_all sample_builder.default_headers (codes "x-trace"))
build-get_all_example =
    build-get_all entry_headers lower_names plain_base64 no_decoding any_method sample_builder
      sample_request (codes "x-trace") not_accept not_authorization sample_built
