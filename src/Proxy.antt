-- ===== src/Proxy.antt =====
-- src/proxy.rs and `read_env_var` of src/util.rs: proxy settings, NO_PROXY patterns and the choice of a
-- proxy for each request. Environment variables are a function from names.
pub mod Choice
pub mod Entries
pub mod Host
pub mod Patterns
use wrest.Error.{Error, ErrorKind, message, with_kind}
use wrest.Prelude.Result.{Result, ok, err, ◌>>=◌, ◌>>◌, reject}
use wrest.Prelude.Text.{
  Text, codes, text_eq, is_empty, to_ascii_lowercase, trim, strip_prefix, starts_with, ends_with,
  contains, split,
}
use wrest.Prelude.{
  ℕ, Bool, true, false, ◌||◌, ◌++◌, not, List, [], ◌∷◌, Option, none, some, if◌then◌else◌, any,
  filter, map, unwrap_or, is_some, is_empty_list,
}
use wrest.Redact.{Redacted}

abbrev pub Creds : Type 0
Creds = Option (Text × Redacted)

pub data ProxyKind : Type 0 where
  all http https : ProxyKind

pub record Proxy : Type 0 where
  pub kind : ProxyKind
  pub url : Text
  pub creds : Creds

pub data NoProxyPattern : Type 0 where
  wildcard : NoProxyPattern
  exact : Text → NoProxyPattern
  domain_suffix : Text → NoProxyPattern

pub record ProxyConfig : Type 0 where
  pub http_proxy_url : Option Text
  pub https_proxy_url : Option Text
  pub no_proxy : List NoProxyPattern
  pub http_proxy_creds : Creds
  pub https_proxy_creds : Creds

pub data ProxyAction : Type 0 where
  direct : ProxyAction
  named : Text → Creds → ProxyAction
  automatic : ProxyAction

abbrev builder_error : Text → Error
builder_error s = with_kind ErrorKind.builder (message s)

-- `Option::or_else`
abbrev pub or_try : Option Text → Option Text → Option Text
or_try none o = o
or_try (some r) o = some r

abbrev pub first_part : List Text → Text
first_part [] = []
first_part (p ∷ _) = p

-- The part of a proxy URL after its scheme, up to the first `/` or `:`.
unfoldable pub host_part : Text → Text
host_part rest = first_part (split b':' (first_part (split b'/' rest)))

abbrev pub validate_host : Option Text → Result Error (Unit {0})
validate_host none = err (builder_error (codes "proxy URL must start with http:// or https://"))
validate_host (some rest) =
    reject (is_empty (host_part rest)) (builder_error (codes "proxy URL has no host"))

-- The messages leave out the URL that the source appends to them.
unfoldable pub validate_proxy_url : Text → Result Error (Unit {0})
validate_proxy_url url = do
  reject (is_empty url) (builder_error (codes "proxy URL must not be empty"))
  reject (starts_with (codes "socks5://") url || starts_with (codes "socks4://") url)
      (builder_error (codes "SOCKS proxies are not supported by WinHTTP"))
  validate_host (or_try (strip_prefix (codes "http://") url) (strip_prefix (codes "https://") url))

-- `Proxy::new_validated`, and through it `Proxy::all`, `Proxy::http` and `Proxy::https`.
unfoldable pub new_validated : ProxyKind → Text → Result Error Proxy
unfolding validate_proxy_url
new_validated kind url = do
  validate_proxy_url url
  ok (record { kind = kind; url = url; creds = none })

unfoldable pub basic_auth : Proxy → Text → Text → Proxy
basic_auth p username password = record p { creds = some (username, record { expose = password }) }

apply_kind : ProxyKind → Proxy → ProxyConfig → ProxyConfig
apply_kind all p config = record config {
  http_proxy_url = some p.url;
  https_proxy_url = some p.url;
  http_proxy_creds = p.creds;
  https_proxy_creds = p.creds;
}
apply_kind http p config = record config { http_proxy_url = some p.url; http_proxy_creds = p.creds }
apply_kind https p config = record config {
  https_proxy_url = some p.url;
  https_proxy_creds = p.creds;
}

-- `Proxy::apply_to`
unfoldable pub apply_to : Proxy → ProxyConfig → ProxyConfig
unfolding apply_kind
apply_to p = apply_kind p.kind p

-- `NoProxyPattern::matches`
unfoldable pub matches : NoProxyPattern → Text → Bool
matches wildcard host = true
matches (exact e) host = text_eq (to_ascii_lowercase host) e
matches (domain_suffix s) host =
    text_eq (to_ascii_lowercase host) s || ends_with (codes "." ++ s) (to_ascii_lowercase host)

unfoldable pub pattern_of : Text → NoProxyPattern
pattern_of s = if text_eq s (codes "*") then wildcard else elim (strip_prefix (codes ".") s) [
  | some suffix ↦ domain_suffix (to_ascii_lowercase suffix)
  | none ↦
      if contains b'.' s then domain_suffix (to_ascii_lowercase s) else exact (to_ascii_lowercase s)
]

unfoldable pub parse_no_proxy : Text → List NoProxyPattern
unfolding pattern_of
parse_no_proxy value = map pattern_of (filter (λ s. not (is_empty s)) (map trim (split b',' value)))

-- `NoProxy::from_string`
unfoldable pub from_string : Text → Option (List NoProxyPattern)
from_string s =
    let patterns = parse_no_proxy s in if is_empty_list patterns then none else some patterns

-- `ProxyConfig::none`, also `none_from_env`.
abbrev pub no_config : ProxyConfig
no_config = record {
  http_proxy_url = none;
  https_proxy_url = none;
  no_proxy = [];
  http_proxy_creds = none;
  https_proxy_creds = none;
}

module _ (var : Text → Option Text) where
  -- `read_env_var`: an empty value counts as none.
  unfoldable pub read_env_var : Text → Option Text
  read_env_var name = elim (var name) [ none ↦ none | some v ↦ if is_empty v then none else some v ]

  -- `ProxyConfig::from_env`
  unfoldable pub from_env : ProxyConfig
  unfolding read_env_var
  from_env = record {
    http_proxy_url = read_env_var (codes "HTTP_PROXY");
    https_proxy_url = read_env_var (codes "HTTPS_PROXY");
    no_proxy = elim (read_env_var (codes "NO_PROXY")) [ none ↦ [] | some s ↦ parse_no_proxy s ];
    http_proxy_creds = none;
    https_proxy_creds = none;
  }

-- `ProxyConfig::resolve`
unfoldable pub resolve : ProxyConfig → Text → Bool → ProxyAction
resolve c host is_https =
    let proxy_url = if is_https then c.https_proxy_url else c.http_proxy_url in
    let proxy_creds = if is_https then c.https_proxy_creds else c.http_proxy_creds in
    if any (λ p. matches p host) c.no_proxy
    then direct
    else elim proxy_url [ none ↦ automatic | some url ↦ named url proxy_creds ]
