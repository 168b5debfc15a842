-- ===== src/Url/Join.antt =====
-- src/url.rs: `join`, the resolution of a reference against a URL.
use wrest.Prelude.Result.{Result, ok, ◌>>=◌, map_err}
use wrest.Prelude.Text.{Text, is_empty}
use wrest.Prelude.{Bool, none, some, ◌&&◌, is_none, if◌then◌else◌}
use wrest.Url.Edit.{rebuild_serialized}
use wrest.Url.Parse.{IriRef, UriLib, map_fluent_error, parse_impl}
use wrest.Url.Types.{ParseError, invalid_url, Url, serialized_without_fragment}

-- The branch for a reference with no scheme, authority or path.
unfoldable pub join_in_place : Url → IriRef → Url
unfolding rebuild_serialized
join_in_place base encoded = rebuild_serialized (record base {
  query = elim encoded.query [ none ↦ base.query | some q ↦ some q ];
  fragment = encoded.fragment;
})

abbrev pub inherit_userinfo : Bool → Url → Url → Url
inherit_userinfo inherits base joined =
    if inherits
    then record joined { username = base.username; password = base.password }
    else joined

module _ (lib : UriLib) where
  unfoldable pub join : Url → Text → Result ParseError Url
  unfolding map_fluent_error join_in_place serialized_without_fragment
  join base input = do
    parsed_base ← map_err map_fluent_error (lib.parse_iri (serialized_without_fragment base))
    reference ← map_err map_fluent_error (lib.parse_ref input)
    let inherits_userinfo = is_none reference.scheme && is_none reference.authority
    let elsewhere = do
      resolved ← map_err (λ _. invalid_url) (lib.resolve_against reference parsed_base)
      joined ← parse_impl lib resolved
      ok (inherit_userinfo inherits_userinfo base joined)
    if inherits_userinfo && is_empty reference.path
        then ok (join_in_place base (lib.to_uri_ref reference))
        else elsewhere
