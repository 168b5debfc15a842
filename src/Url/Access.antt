-- ===== src/Url/Access.antt =====
-- src/url.rs: the domain of a URL, its order, and what a request takes for a URL. Which hosts are IP
-- addresses is a parameter.
use wrest.Error.{Error, ErrorKind, foreign, with_kind}
use wrest.Prelude.Result.{Result, ok, err, map_err}
use wrest.Prelude.Text.{Text, codes, starts_with}
use wrest.Prelude.{ℕ, Bool, [], ◌∷◌, Option, none, some, if◌then◌else◌, ltb, ◌==◌, ◌≡◌, ◌↔◌, arith}
use wrest.Url.Parse.{UriLib, parse_impl}
use wrest.Url.Types.{Url, ParseError, relative_url_without_base}

-- `Url::port_or_known_default`
unfoldable port_or_known_default : Url → Option ℕ
port_or_known_default u = some u.port

-- `Url::domain`
unfoldable domain : (Text → Bool) → Url → Option Text
domain is_ip_addr u =
    if is_ip_addr u.host then none else if starts_with (codes "[") u.host then none else some u.host

data Ordering : Type 0 where
  less equal greater : Ordering

-- The order of strings, which is that of their code points.
unfoldable cmp_text : Text → Text → Ordering
cmp_text [] [] = equal
cmp_text [] (d ∷ t) = less
cmp_text (c ∷ s) [] = greater
cmp_text (c ∷ s) (d ∷ t) =
    let rest = cmp_text s t in if ltb c d then less else if c == d then rest else greater

-- `Url::cmp`
unfoldable cmp : Url → Url → Ordering
unfolding cmp_text
cmp u v = cmp_text u.serialized v.serialized

-- `into_url`, of a text at what parsing it gives, and of a URL.
unfoldable into_url_text : Result ParseError Url → Result Error Url
into_url_text parsed = map_err (λ _. with_kind ErrorKind.builder foreign) parsed

unfoldable into_url_url : Url → Result Error Url
into_url_url u = ok u

-- `Url::from_http_uri`, at whether the URI has a scheme and at its text.
module _ (lib : UriLib) where
  unfoldable pub from_http_uri : Bool → Text → Result ParseError Url
  unfolding parse_impl
  from_http_uri has_scheme text =
      let parsed = parse_impl lib text in
      if has_scheme then parsed else err relative_url_without_base

cmp_text-equal_iff : (s t : Text) → (cmp_text s t ≡ equal) ↔ (s ≡ t)
unfolding cmp_text
cmp_text-equal_iff (c ∷ s) (d ∷ t) = ground (arith, cmp_text-equal_iff s t)
cmp_text-equal_iff _ _ = ground arith

-- The order takes two URLs for equal when their serialized forms are the same, whatever the user name
-- and password of each are.
cmp-equal_iff : (u v : Url) → (cmp u v ≡ equal) ↔ (u.serialized ≡ v.serialized)
unfolding cmp
cmp-equal_iff u v = cmp_text-equal_iff u.serialized v.serialized
