-- ===== src/Tests/Url.antt =====
-- URLs at concrete inputs.
use wrest.Prelude.Result.{ok}
use wrest.Prelude.Text.{Text, codes}
use wrest.Prelude.{ℕ, List, Option, some, none, true, false, ◌≡◌, refl, map}
use wrest.Tests.Samples.{one_iri, sample_text}
use wrest.Url.Consistent.{IsConsistent}
use wrest.Url.Edit.{set_query, take_decoded_userinfo}
use wrest.Url.Parse.{parse_impl}
use wrest.Url.Reach.{Reachable, parsed, with_query, stripped, Reachable-IsConsistent}
use wrest.Url.Types.{Url}

abbrev pub sample_url : Url
sample_url = record {
  serialized = codes "http://example.org:8080/a?x=1";
  scheme = codes "http";
  host = codes "example.org";
  port = 8080;
  explicit_port = true;
  path = codes "/a";
  query = some (codes "x=1");
  fragment = none;
  is_https = false;
  path_and_query = codes "/a?x=1";
  username = codes "me";
  password = some (record { expose = codes "secret" });
}

abbrev no_decoding : Text → List ℕ
no_decoding t = t

pub sample_parses : parse_impl one_iri sample_text ≡ ok sample_url
unfolding parse_impl wrest.Prelude.Text.text_eq wrest.Prelude.Text.lower wrest.Prelude.Text.decimal
    wrest.Prelude.Text.split_once
sample_parses = refl

abbrev edited : Url
edited = set_query (take_decoded_userinfo no_decoding sample_url).0 (some (codes "y=2"))

edited-Reachable : Reachable one_iri no_decoding edited
edited-Reachable = with_query (some (codes "y=2")) (stripped (parsed sample_text sample_parses))

Reachable-IsConsistent_example : IsConsistent edited
Reachable-IsConsistent_example = Reachable-IsConsistent one_iri no_decoding edited-Reachable

edited_text : edited.serialized ≡ codes "http://example.org:8080/a?y=2"
unfolding set_query take_decoded_userinfo wrest.Prelude.Text.decimal
edited_text = refl
