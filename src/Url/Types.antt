-- ===== src/Url/Types.antt =====
-- src/url.rs: `ParseError`, `Url` and its accessors.
use wrest.Prelude.Text.{Text, codes, split, split_once, strip_prefix}
use wrest.Prelude.{ℕ, Bool, Option, none, some, List, if◌then◌else◌, unwrap_or}
use wrest.Redact.{Redacted}

pub data ParseError : Type 0 where
  empty_host idna_error invalid_port invalid_ipv4_address invalid_ipv6_address : ParseError
  invalid_domain_character relative_url_without_base : ParseError
  relative_url_with_cannot_be_a_base_base set_host_on_cannot_be_a_base_url : ParseError
  overflow invalid_url unsupported_scheme : ParseError

-- `Display`
unfoldable pub describe : ParseError → Text
describe empty_host = codes "empty host"
describe idna_error = codes "invalid international domain name"
describe invalid_port = codes "invalid port number"
describe invalid_ipv4_address = codes "invalid IPv4 address"
describe invalid_ipv6_address = codes "invalid IPv6 address"
describe invalid_domain_character = codes "invalid domain character"
describe relative_url_without_base = codes "relative URL without a base"
describe relative_url_with_cannot_be_a_base_base = codes "relative URL with a cannot-be-a-base base"
describe set_host_on_cannot_be_a_base_url =
    codes "a cannot-be-a-base URL doesn't have a host to set"
describe overflow = codes "URLs more than 4 GB are not supported"
describe invalid_url = codes "invalid URL"
describe unsupported_scheme = codes "unsupported URL scheme"

pub record Url : Type 0 where
  pub serialized : Text
  pub scheme : Text
  pub host : Text
  pub port : ℕ
  pub explicit_port : Bool
  pub path : Text
  pub query : Option Text
  pub fragment : Option Text
  pub is_https : Bool
  pub path_and_query : Text
  pub username : Text
  pub password : Option Redacted

-- `Url::port`
unfoldable pub port : Url → Option ℕ
port u = if u.explicit_port then some u.port else none

-- `Url::path_segments`, without the `Some` that it always has.
unfoldable pub path_segments : Url → List Text
path_segments u = split b'/' (unwrap_or (strip_prefix (codes "/") u.path) u.path)

-- `Url::serialized_without_fragment`
unfoldable pub serialized_without_fragment : Url → Text
serialized_without_fragment u = elim (split_once b'#' u.serialized) [
  | none ↦ u.serialized
  | some (before, _) ↦ before
]
