-- ===== src/Url/Edit.antt =====
-- src/url.rs: `rebuild_serialized`, `set_query` and `take_decoded_userinfo`.
use wrest.Prelude.Text.{Text, codes, decimal, is_empty}
use mathlib.Core.Option
use wrest.Prelude.{ℕ, [], List, Option, none, some, ◌++◌, ◌&&◌, is_none, if◌then◌else◌}
use wrest.Redact.{Redacted}
use wrest.Url.Types.{Url}

-- `path?query`, or the path.
abbrev pub join_query : Text → Option Text → Text
join_query path none = path
join_query path (some query) = path ++ (codes "?" ++ query)

abbrev pub fragment_suffix : Option Text → Text
fragment_suffix none = []
fragment_suffix (some frag) = codes "#" ++ frag

unfoldable pub rebuild_serialized : Url → Url
rebuild_serialized u =
    let path_and_query = join_query u.path u.query in
    let origin =
      if u.explicit_port
      then u.scheme ++ (codes "://" ++ (u.host ++ (codes ":" ++ decimal u.port)))
      else u.scheme ++ (codes "://" ++ u.host) in
    record u {
      path_and_query = path_and_query;
      serialized = (origin ++ path_and_query) ++ fragment_suffix u.fragment;
    }

unfoldable pub set_query : Url → Option Text → Url
unfolding rebuild_serialized
set_query u query = rebuild_serialized (record u { query = query })

-- `percent_encoding::percent_decode_str(..).collect()`, on the octets of a text.
module _ (percent_decode_str : Text → List ℕ) where
  -- The new URL, and the decoded username and password.
  unfoldable pub take_decoded_userinfo : Url → Url × Option (List ℕ × Option (List ℕ))
  take_decoded_userinfo u = if is_empty u.username && is_none u.password then (u, none) else (
    record u { username = []; password = none },
    some (
      percent_decode_str u.username,
      Option.map (λ (p : Redacted). percent_decode_str p.expose) u.password,
    ),
  )
