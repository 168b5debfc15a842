-- ===== src/Tests/Proxy.antt =====
-- Proxies at concrete inputs.
use wrest.Prelude.Result.{ok}
use wrest.Prelude.Text.{Text, codes}
use wrest.Prelude.{
  ℕ, Bool, true, false, List, [], ◌∷◌, ◌++◌, Option, none, some, ◌≡◌, refl, ◌↔◌, any, map, All,
  if◌then◌else◌,
}
use wrest.Proxy.Choice.{serves, resolve-apply_to, IsProxyUrl, new_validated-ok_iff}
use wrest.Proxy.Entries.{
  Piece, blank, padded, single, below, any_host, IsPiece, parse_no_proxy-join,
}
use wrest.Proxy.Patterns.{Covers, matches_iff}
use wrest.Proxy.{
  ProxyKind, http, Proxy, ProxyConfig, NoProxyPattern, wildcard, exact, domain_suffix, apply_to,
  direct, named, matches, new_validated, no_config, parse_no_proxy, pattern_of, resolve,
}

abbrev corporate : Proxy
corporate = record { kind = http; url = codes "http://proxy:8080"; creds = none }

abbrev internal : NoProxyPattern
internal = domain_suffix (codes "internal.org")

abbrev config : ProxyConfig
config = record no_config { no_proxy = internal ∷ [] }

resolve-apply_to_example : resolve (apply_to corporate config) (codes "www.example.org") false ≡ (
    if any (λ q. matches q (codes "www.example.org")) config.no_proxy
    then direct
    else if serves corporate.kind false
    then named corporate.url corporate.creds
    else resolve config (codes "www.example.org") false)
resolve-apply_to_example = resolve-apply_to corporate config (codes "www.example.org") false

matches_iff_example :
    (matches internal (codes "Git.Internal.org") ≡ true)
    ↔ Covers internal (codes "Git.Internal.org")
matches_iff_example = matches_iff internal (codes "Git.Internal.org")

subdomain_matches : matches internal (codes "Git.Internal.org") ≡ true
unfolding matches wrest.Prelude.Text.text_eq wrest.Prelude.Text.lower wrest.Prelude.Text.ends_with
subdomain_matches = refl

sibling_differs : matches internal (codes "notinternal.org") ≡ false
unfolding matches wrest.Prelude.Text.text_eq wrest.Prelude.Text.lower wrest.Prelude.Text.ends_with
sibling_differs = refl

-- `localhost, .corp.org ,,*`
abbrev sample_pieces : List Piece
sample_pieces =
    padded [] (single (codes "localhost")) []
    ∷ padded (codes " ") (below (codes "corp.org")) (codes " ")
    ∷ blank []
    ∷ padded [] any_host []
    ∷ []

sample-IsPiece : All IsPiece sample_pieces
unfolding wrest.Prelude.Text.contains wrest.Prelude.Text.trim_end_matches wrest.Prelude.Text.text_eq
    wrest.Prelude.Text.is_whitespace
sample-IsPiece = (
  (tt, tt, (refl, refl), (refl, refl), refl),
  (
    ((refl, tt), (refl, tt), tt, (refl, refl), refl),
    ((tt, refl), ((tt, tt, tt, (refl, refl), refl), tt)),
  ),
)

parse_no_proxy-join_example :
    parse_no_proxy (codes "localhost, .corp.org ,,*")
    ≡ exact (codes "localhost") ∷ domain_suffix (codes "corp.org") ∷ wildcard ∷ []
unfolding wrest.Prelude.Text.lower
parse_no_proxy-join_example = parse_no_proxy-join sample_pieces sample-IsPiece

corporate_accepted : new_validated http (codes "http://proxy:8080") ≡ ok corporate
unfolding new_validated wrest.Prelude.Text.strip_prefix wrest.Proxy.host_part
    wrest.Prelude.Text.split
corporate_accepted = refl

new_validated-ok_iff_example : (new_validated http (codes "http://proxy:8080") ≡ ok corporate) ↔ (
    (corporate ≡ record { kind = http; url = codes "http://proxy:8080"; creds = none })
    × IsProxyUrl (codes "http://proxy:8080"))
new_validated-ok_iff_example = new_validated-ok_iff http (codes "http://proxy:8080") corporate

-- A proxy URL without a host that is accepted.
query_accepted :
    new_validated http (codes "http://?x")
    ≡ ok (record { kind = http; url = codes "http://?x"; creds = none })
unfolding new_validated wrest.Prelude.Text.strip_prefix wrest.Proxy.host_part
    wrest.Prelude.Text.split
query_accepted = refl
