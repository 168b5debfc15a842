-- ===== src/Proxy/Choice.antt =====
-- src/proxy.rs: which proxy a request gets, and which proxy URLs are accepted.
use wrest.Prelude.Result.{ok, ok-injective, >>=-eq-ok, reject}
use wrest.Prelude.Text.{Text, codes, is_empty, strip_prefix, starts_with}
use wrest.Prelude.{
  Bool, true, ◌||◌, ◌++◌, not, [], ◌∷◌, Option, none, some, if◌then◌else◌, ◌≡◌, refl, sym, ◌⊎◌, ◌↔◌,
  inl, inr, arith, any, Option-cases,
}
use wrest.Proxy.{
  ProxyKind, all, http, https, Proxy, ProxyConfig, direct, named, apply_to, resolve, matches,
  new_validated, validate_proxy_url, validate_host, or_try,
}
use wrest.Proxy.Host.{StartsWithHost, host_part-StartsWithHost, StartsWithHost-host_part}

-- Whether a proxy of this kind takes requests of the scheme.
abbrev pub serves : ProxyKind → Bool → Bool
serves all is_https = true
serves http is_https = not is_https
serves https is_https = is_https

resolve-apply_kind :
    (k : ProxyKind) (p : Proxy) (c : ProxyConfig) (host : Text) (is_https : Bool)
    → p.kind ≡ k
    → resolve (apply_to p c) host is_https ≡ (
        if any (λ q. matches q host) c.no_proxy
        then direct
        else if serves k is_https
        then named p.url p.creds
        else resolve c host is_https)
unfolding resolve apply_to
resolve-apply_kind all p c host true e = rw e (ground arith)
resolve-apply_kind k p c host is_https e = rw e (ground arith)

-- A proxy added to a configuration takes the requests of its scheme, unless a NO_PROXY pattern matches
-- the host; all other requests are resolved as before.
pub resolve-apply_to :
    (p : Proxy) (c : ProxyConfig) (host : Text) (is_https : Bool)
    → resolve (apply_to p c) host is_https ≡ (
        if any (λ q. matches q host) c.no_proxy
        then direct
        else if serves p.kind is_https
        then named p.url p.creds
        else resolve c host is_https)
resolve-apply_to p c host is_https = resolve-apply_kind p.kind p c host is_https refl

strip_prefix_sound : (p s r : Text) → strip_prefix p s ≡ some r → s ≡ p ++ r
unfolding strip_prefix
strip_prefix_sound [] s r h = ground arith
strip_prefix_sound (x ∷ p) [] r h = ground arith
strip_prefix_sound (x ∷ p) (c ∷ s) r h = ground (arith, strip_prefix_sound p s r)

-- A proxy URL that is accepted: its scheme, and how it goes on.
pub record IsProxyUrl (url : Text) : Type 0 where
  pub rest : Text
  pub scheme_is : (url ≡ codes "http://" ++ rest) ⊎ (url ≡ codes "https://" ++ rest)
  pub has_host : StartsWithHost rest

validate_host-ok :
    (url : Text) (o : Option Text) {u : Unit {0}}
    → ((rest : Text)
        → o ≡ some rest
        → (url ≡ codes "http://" ++ rest) ⊎ (url ≡ codes "https://" ++ rest))
    → validate_host o ≡ ok u
    → IsProxyUrl url
validate_host-ok url none s h = ground arith
validate_host-ok url (some rest) s h = record {
  rest = rest;
  scheme_is = s rest refl;
  has_host = host_part-StartsWithHost rest (ground arith);
}

or_try-none : {a b : Option Text} {r : Text} → a ≡ none → or_try a b ≡ some r → b ≡ some r
or_try-none {a = none} e h = h
or_try-none {a = some a} e h = cc

or_try-some : (a b : Option Text) {r q : Text} → a ≡ some q → or_try a b ≡ some r → a ≡ some r
or_try-some none b e h = cc
or_try-some (some a) b e h = h

scheme-found :
    (url rest : Text)
    → or_try (strip_prefix (codes "http://") url) (strip_prefix (codes "https://") url) ≡ some rest
    → (url ≡ codes "http://" ++ rest) ⊎ (url ≡ codes "https://" ++ rest)
scheme-found url rest h = elim (Option-cases (strip_prefix (codes "http://") url)) [
  | inl n ↦ inr (strip_prefix_sound (codes "https://") url rest (or_try-none n h))
  | inr (_, e) ↦ inl (strip_prefix_sound (codes "http://") url rest (or_try-some _ _ e h))
]

validate_proxy_url-ok : (url : Text) (u : Unit {0}) → validate_proxy_url url ≡ ok u → IsProxyUrl url
unfolding validate_proxy_url
validate_proxy_url-ok url u h =
    let (_, _, h₁) = >>=-eq-ok (reject (is_empty url) _) _ h in
    let (_, _, h₂) =
      >>=-eq-ok
        (reject (starts_with (codes "socks5://") url || starts_with (codes "socks4://") url) _) _
        h₁ in
    validate_host-ok url _ (scheme-found url) h₂

IsProxyUrl-validate : (url : Text) → IsProxyUrl url → validate_proxy_url url ≡ ok tt
unfolding validate_proxy_url strip_prefix
IsProxyUrl-validate url i = elim i.scheme_is [
  | inl e ↦ rw (e, StartsWithHost-host_part i.rest i.has_host) refl
  | inr e ↦ rw (e, StartsWithHost-host_part i.rest i.has_host) refl
]

-- `Proxy::http` and the other constructors accept exactly the URLs that are `http://` or `https://`, then
-- a part that is not empty and has no `/` and no `:`, and then the end, a `/` or a `:`; they return a proxy
-- of that kind and URL with no credentials.
pub new_validated-ok_iff :
    (kind : ProxyKind) (url : Text) (p : Proxy)
    → (new_validated kind url ≡ ok p)
      ↔ ((p ≡ record { kind = kind; url = url; creds = none }) × IsProxyUrl url)
unfolding new_validated
new_validated-ok_iff kind url p = (
  λ h.
      let (u, h₀, h₁) = >>=-eq-ok (validate_proxy_url url) _ h in
      (sym (ok-injective _ p h₁), validate_proxy_url-ok url u h₀),
  λ (p_is, i). rw (p_is, IsProxyUrl-validate url i) refl,
)
