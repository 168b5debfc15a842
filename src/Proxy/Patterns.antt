-- ===== src/Proxy/Patterns.antt =====
-- src/proxy.rs: what a NO_PROXY pattern covers, and the patterns that a list of entries gives.
use wrest.Prelude.Text.{Text, codes, text_eq, text_eq_iff, to_ascii_lowercase, ends_with}
use wrest.Prelude.{true, ◌++◌, [], ◌∷◌, ◌≡◌, refl, sym, ap, ◌↔◌, ◌⊎◌, inl, inr, arith, Bool-cases}
use wrest.Proxy.{NoProxyPattern, wildcard, exact, domain_suffix, matches}

ends_with_sound : (suffix s : Text) → ends_with suffix s ≡ true → (pre : Text) × (s ≡ pre ++ suffix)
unfolding ends_with
ends_with_sound suffix [] h = ([], sym ((text_eq_iff suffix []).0 h))
ends_with_sound suffix (c ∷ s) h = elim (Bool-cases (text_eq suffix (c ∷ s))) [
  | inl e ↦ ([], sym ((text_eq_iff suffix (c ∷ s)).0 e))
  | inr e ↦ let (pre, p) = ends_with_sound suffix s (ground arith) in (c ∷ pre, ap (◌∷◌ c) p)
]

ends_with-append : (pre suffix : Text) → ends_with suffix (pre ++ suffix) ≡ true
unfolding ends_with
ends_with-append [] [] = (text_eq_iff [] []).1 refl
ends_with-append [] (c ∷ s) = rw ((text_eq_iff (c ∷ s) (c ∷ s)).1 refl)
ends_with-append (c ∷ pre) suffix = ground (arith, ends_with-append pre suffix)

-- The hosts that a pattern stands for; names compare in lower case.
pub data Covers : NoProxyPattern → Text → Type 0 where
  any_host : {p : NoProxyPattern} {host : Text} → p ≡ wildcard → Covers p host
  same_host :
      {p : NoProxyPattern} {host : Text} (name : Text)
      → (p ≡ exact name) ⊎ (p ≡ domain_suffix name)
      → to_ascii_lowercase host ≡ name
      → Covers p host
  subdomain :
      {p : NoProxyPattern} {host : Text} (name pre : Text)
      → p ≡ domain_suffix name
      → to_ascii_lowercase host ≡ pre ++ (codes "." ++ name)
      → Covers p host

matches-Covers : (p : NoProxyPattern) (host : Text) → matches p host ≡ true → Covers p host
unfolding matches
matches-Covers wildcard host h = any_host refl
matches-Covers (exact e) host h = same_host e (inl refl) ((text_eq_iff _ e).0 h)
matches-Covers (domain_suffix s) host h = elim (Bool-cases (text_eq (to_ascii_lowercase host) s)) [
  | inl e ↦ same_host s (inr refl) ((text_eq_iff _ s).0 e)
  | inr e ↦
      let (pre, q) = ends_with_sound (codes "." ++ s) (to_ascii_lowercase host) (ground arith) in
      subdomain s pre refl q
]

Covers-matches : {p : NoProxyPattern} {host : Text} → Covers p host → matches p host ≡ true
unfolding matches
Covers-matches (any_host e) = rw (e, matches)
Covers-matches {host} (same_host name (inl e) q) = rw (e, matches) ((text_eq_iff _ name).1 q)
Covers-matches {host} (same_host name (inr e) q) =
    rw (e, matches) (rw ((text_eq_iff (to_ascii_lowercase host) name).1 q))
Covers-matches {host} (subdomain name pre e q) =
    rw (e, matches) (rw q (ground (arith, ends_with-append pre (codes "." ++ name))))

-- A pattern matches exactly the hosts that it covers: `*` all, a name itself, a domain also the names
-- below it after a dot; letter case does not count.
pub matches_iff : (p : NoProxyPattern) (host : Text) → (matches p host ≡ true) ↔ Covers p host
matches_iff p host = (matches-Covers p host, Covers-matches)
