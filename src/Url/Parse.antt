-- ===== src/Url/Parse.antt =====
-- src/url.rs: `parse_impl` over the parser of `fluent-uri`, and the policy for registered names.
use mathlib.Core.Option
use wrest.Prelude.Result.{Result, ok, ◌>>=◌, ◌>>◌, ok_or, map_err, reject}
use wrest.Prelude.Text.{Text, codes, decimal, is_empty, split_once, text_eq, to_ascii_lowercase}
use wrest.Prelude.{
  ℕ, Bool, Option, none, some, [], ◌++◌, ◌&&◌, not, any, all, ltb, if◌then◌else◌, ◌==◌, is_some,
  unwrap_or,
}
use wrest.Url.Edit.{join_query}
use wrest.Url.Types.{
  ParseError, empty_host, idna_error, invalid_port, invalid_ipv6_address, invalid_domain_character,
  invalid_url, unsupported_scheme, Url,
}

-- `fluent_uri::ParseErrorKind`
pub data FluentErrorKind : Type 0 where
  invalid_ipv6_addr invalid_pct_encoded_octet unexpected_char : FluentErrorKind

-- `fluent_uri::component::Host`; an address is given as its `Display` output.
pub data Host : Type 0 where
  ipv4 ipv6 : Text → Host
  ipv_future : Host
  reg_name : Text → Host

-- What the accessors of `fluent_uri` return for one parsed IRI or reference.
pub record Authority : Type 0 where
  pub host : Text
  pub host_parsed : Host
  pub port_to_u16 : Result (Unit {0}) (Option ℕ)
  pub userinfo : Option Text

pub record Iri : Type 0 where
  pub scheme : Text
  pub authority : Option Authority
  pub path : Text
  pub query : Option Text
  pub fragment : Option Text

pub record IriRef : Type 0 where
  pub scheme : Option Text
  pub authority : Option Authority
  pub path : Text
  pub query : Option Text
  pub fragment : Option Text

-- The functions of other crates, and of system ICU, that URL parsing calls.
pub record UriLib : Type 0 where
  pub parse_iri : Text → Result FluentErrorKind Iri
  pub parse_ref : Text → Result FluentErrorKind IriRef
  pub to_uri : Iri → Iri
  pub to_uri_ref : IriRef → IriRef
  -- the text of the resolved IRI
  pub resolve_against : IriRef → Iri → Result (Unit {0}) Text
  -- `percent_decode_str(..).decode_utf8()`
  pub percent_decode_utf8 : Text → Option Text
  -- `RegName::TABLE.allows`
  pub reg_name_allows : ℕ → Bool
  pub idna_to_ascii : Text → Option Text

unfoldable pub map_fluent_error : FluentErrorKind → ParseError
map_fluent_error invalid_ipv6_addr = invalid_ipv6_address
map_fluent_error invalid_pct_encoded_octet = invalid_url
map_fluent_error unexpected_char = invalid_url

abbrev is_ascii : ℕ → Bool
is_ascii c = ltb c 0x80

-- Username and password of a userinfo; an empty password is none.
unfoldable pub split_userinfo : Option Text → Text × Option Text
split_userinfo none = ([], none)
split_userinfo (some userinfo) = elim (split_once b':' userinfo) [
  | none ↦ (userinfo, none)
  | some (user, password) ↦ (user, if is_empty password then none else some password)
]

-- The `serialized` that `parse_impl` builds by pushing.
unfoldable pub serialize : Text → Text → Bool → ℕ → Text → Option Text → Text
serialize scheme host explicit_port port path_and_query fragment =
    let origin = scheme ++ (codes "://" ++ host) in
    let with_port = if explicit_port then (origin ++ codes ":") ++ decimal port else origin in
    let with_path = with_port ++ path_and_query in
    elim fragment [ none ↦ with_path | some f ↦ (with_path ++ codes "#") ++ f ]

-- The record at the end of `parse_impl`, from the parts computed before.
unfoldable pub assemble : Text → Bool → Text → Option ℕ → Iri → Authority → Url
unfolding serialize split_userinfo
assemble scheme is_https host parsed_port encoded encoded_authority =
    let default_port : ℕ = if is_https then 443 else 80 in
    let port = unwrap_or parsed_port default_port in
    let explicit_port = is_some parsed_port && not (port == default_port) in
    let path = if is_empty encoded.path then codes "/" else encoded.path in
    let path_and_query = join_query path encoded.query in
    let userinfo = split_userinfo encoded_authority.userinfo in
    record {
      serialized = serialize scheme host explicit_port port path_and_query encoded.fragment;
      scheme = scheme;
      host = host;
      port = port;
      explicit_port = explicit_port;
      path = path;
      query = encoded.query;
      fragment = encoded.fragment;
      is_https = is_https;
      path_and_query = path_and_query;
      username = userinfo.0;
      password = Option.map (λ (p : Text). record { expose = p }) userinfo.1;
    }

module _ (lib : UriLib) where
  open lib use {parse_iri, to_uri, percent_decode_utf8, reg_name_allows, idna_to_ascii}

  unfoldable pub percent_decode : Text → Result ParseError Text
  percent_decode input = ok_or (percent_decode_utf8 input) invalid_url

  -- The tail of `normalize_registered_name`, for a name that is not ASCII.
  idna_name : Text → Result ParseError Text
  idna_name decoded = do
    ascii ← ok_or (idna_to_ascii decoded) idna_error
    reject (not (all reg_name_allows ascii)) idna_error
    ok ascii

  unfoldable pub normalize_registered_name : Text → Result ParseError Text
  unfolding percent_decode idna_name
  normalize_registered_name host = do
    decoded ← percent_decode host
    reject (any (λ ch. is_ascii ch && not (reg_name_allows ch)) decoded) invalid_domain_character
    if all is_ascii decoded then ok (to_ascii_lowercase decoded) else idna_name decoded

  unfoldable pub normalize_host : Authority → Host → Result ParseError Text
  unfolding normalize_registered_name
  normalize_host authority (ipv4 address) = ok address
  normalize_host authority (ipv6 address) = ok (codes "[" ++ (address ++ codes "]"))
  normalize_host authority ipv_future = ok authority.host
  normalize_host authority (reg_name name) = normalize_registered_name name

  unfoldable pub parse_impl : Text → Result ParseError Url
  unfolding map_fluent_error normalize_host assemble
  parse_impl url = do
    parsed ← map_err map_fluent_error (parse_iri url)
    let scheme = to_ascii_lowercase parsed.scheme
    let is_https = text_eq scheme (codes "https")
    reject (not is_https && not (text_eq scheme (codes "http"))) unsupported_scheme
    authority ← ok_or parsed.authority empty_host
    reject (is_empty authority.host) empty_host
    host ← normalize_host authority authority.host_parsed
    parsed_port ← map_err (λ _. invalid_port) authority.port_to_u16
    let encoded = to_uri parsed
    encoded_authority ← ok_or encoded.authority empty_host
    ok (assemble scheme is_https host parsed_port encoded encoded_authority)
