-- ===== src/Url/Reach.antt =====
-- src/url.rs: every URL that the library can make.
use wrest.Prelude.Result.{ok}
use wrest.Prelude.Text.{Text}
use wrest.Prelude.{ℕ, List, Option, ◌≡◌}
use wrest.Url.Consistent.{
  IsConsistent, parse_impl-IsConsistent, set_query-IsConsistent, take_decoded_userinfo-IsConsistent,
  join-IsConsistent, rebuild_serialized-fixed,
}
use wrest.Url.Edit.{set_query, take_decoded_userinfo, rebuild_serialized}
use wrest.Url.Join.{join}
use wrest.Url.Parse.{UriLib, parse_impl}
use wrest.Url.Types.{Url}

-- Parsing, joining, and the two edits: a `Url` has no other constructor and no public field.
pub data Reachable (lib : UriLib) (decode : Text → List ℕ) : Url → Type 0 where
  parsed : {u : Url} (text : Text) → parse_impl lib text ≡ ok u → Reachable lib decode u
  joined :
      {base u : Url} (input : Text)
      → Reachable lib decode base
      → join lib base input ≡ ok u
      → Reachable lib decode u
  with_query :
      {u : Url} (q : Option Text) → Reachable lib decode u → Reachable lib decode (set_query u q)
  stripped :
      {u : Url} → Reachable lib decode u → Reachable lib decode (take_decoded_userinfo decode u).0

Reachable-IsConsistent' :
    {lib : UriLib} {decode : Text → List ℕ} {u : Url} → Reachable lib decode u → IsConsistent u
Reachable-IsConsistent' {lib} (parsed text h) = parse_impl-IsConsistent lib text h
Reachable-IsConsistent' {lib} (joined {base} input r h) =
    join-IsConsistent lib base input (Reachable-IsConsistent' r) h
Reachable-IsConsistent' (with_query {u} q r) =
    set_query-IsConsistent u q (Reachable-IsConsistent' r)
Reachable-IsConsistent' {decode} (stripped {u} r) =
    take_decoded_userinfo-IsConsistent decode u (Reachable-IsConsistent' r)

-- Every URL made by parsing, joining and editing has fields that agree: the scheme and the port with
-- `is_https` and `explicit_port`, the serialized form with the other fields, userinfo left out.
pub Reachable-IsConsistent :
    (lib : UriLib) (decode : Text → List ℕ) {u : Url} → Reachable lib decode u → IsConsistent u
Reachable-IsConsistent lib decode r = Reachable-IsConsistent' r

-- The serialization at the end of parsing and `rebuild_serialized` agree on every such URL.
Reachable-rebuild :
    (lib : UriLib) (decode : Text → List ℕ) {u : Url}
    → Reachable lib decode u
    → rebuild_serialized u ≡ u
Reachable-rebuild lib decode {u} r = rebuild_serialized-fixed u (Reachable-IsConsistent' r)
