-- ===== src/Url/Consistent.antt =====
-- src/url.rs: the fields of a `Url` agree with one another, after parsing and after every change.
use mathlib.Core.List.{append-nil, append_assoc}
use wrest.Prelude.Result.{ok, ◌>>=◌, >>=-eq-ok, ok-injective, ok_or, map_err, reject}
use wrest.Prelude.Text.{Text, codes, decimal, is_empty, text_eq, text_eq_iff, to_ascii_lowercase}
use wrest.Prelude.{
  ℕ, Bool, true, false, List, [], ◌∷◌, Option, none, some, ◌++◌, ◌≡◌, ◌≢◌, refl, sym, ◌∙◌, not,
  ◌&&◌, ◌==◌, arith, if◌then◌else◌, Bool-cases, is_none, inl, inr, is_some, unwrap_or,
}
use wrest.Url.Edit.{
  rebuild_serialized, set_query, take_decoded_userinfo, join_query, fragment_suffix,
}
use wrest.Url.Join.{join, join_in_place, inherit_userinfo}
use wrest.Url.Parse.{
  Iri, IriRef, UriLib, Authority, parse_impl, assemble, serialize, map_fluent_error, normalize_host,
}
use wrest.Url.Types.{
  empty_host, invalid_port, unsupported_scheme, invalid_url, Url, serialized_without_fragment,
}

abbrev pub scheme_name : Bool → Text
scheme_name is_https = if is_https then codes "https" else codes "http"

abbrev pub default_port : Bool → ℕ
default_port is_https = if is_https then 443 else 80

abbrev pub port_suffix : Bool → ℕ → Text
port_suffix explicit_port port = if explicit_port then codes ":" ++ decimal port else []

-- `scheme://host[:port]path[?query][#fragment]`: no part of it is userinfo.
abbrev pub render : Url → Text
render u =
    u.scheme
    ++ (codes "://"
        ++ (u.host
            ++ (port_suffix u.explicit_port u.port
                ++ (join_query u.path u.query ++ fragment_suffix u.fragment))))

pub record IsConsistent (u : Url) : Type 0 where
  pub scheme_is : u.scheme ≡ scheme_name u.is_https
  pub explicit_is : u.explicit_port ≡ not (u.port == default_port u.is_https)
  pub path_ne_nil : u.path ≢ []
  pub path_and_query_is : u.path_and_query ≡ join_query u.path u.query
  pub serialized_is : u.serialized ≡ render u

rebuild_serialized-render : (u : Url) → (rebuild_serialized u).serialized ≡ render u
unfolding rebuild_serialized
rebuild_serialized-render u = elim (Bool-cases u.explicit_port) [
  | inl e ↦ rw e (simp append_assoc)
  | inr e ↦ rw e (simp append_assoc)
]

pub rebuild_serialized-IsConsistent :
    (u : Url)
    → u.scheme ≡ scheme_name u.is_https
    → u.explicit_port ≡ not (u.port == default_port u.is_https)
    → u.path ≢ []
    → IsConsistent (rebuild_serialized u)
unfolding rebuild_serialized
rebuild_serialized-IsConsistent u s e p = record {
  scheme_is = s;
  explicit_is = e;
  path_ne_nil = p;
  path_and_query_is = refl;
  serialized_is = rebuild_serialized-render u;
}

serialize-render :
    (scheme host : Text) (explicit : Bool) (port : ℕ) (pq : Text) (fragment : Option Text)
    → serialize scheme host explicit port pq fragment
      ≡ scheme
        ++ (codes "://"
            ++ (host ++ (port_suffix explicit port ++ (pq ++ fragment_suffix fragment))))
unfolding serialize
serialize-render scheme host true port pq none = simp (append_assoc, append-nil)
serialize-render scheme host true port pq (some f) = simp append_assoc
serialize-render scheme host false port pq none = simp (append_assoc, append-nil)
serialize-render scheme host false port pq (some f) = simp append_assoc

explicit_port-eq :
    (parsed : Option ℕ) (d : ℕ)
    → (is_some parsed && not (unwrap_or parsed d == d)) ≡ not (unwrap_or parsed d == d)
explicit_port-eq none d = ground arith
explicit_port-eq (some p) d = refl

root_path-ne_nil : (p : Text) → (if is_empty p then codes "/" else p) ≢ []
root_path-ne_nil [] = ground arith
root_path-ne_nil (c ∷ s) = ground arith

assemble-IsConsistent :
    (scheme : Text) (is_https : Bool) (host : Text) (parsed : Option ℕ) (encoded : Iri)
    (authority : Authority)
    → scheme ≡ scheme_name is_https
    → IsConsistent (assemble scheme is_https host parsed encoded authority)
unfolding assemble
assemble-IsConsistent scheme is_https host parsed encoded authority e = record {
  scheme_is = e;
  explicit_is = explicit_port-eq parsed (default_port is_https);
  path_ne_nil = root_path-ne_nil encoded.path;
  path_and_query_is = refl;
  serialized_is = serialize-render scheme host _ _ _ encoded.fragment;
}

-- What a successful parse has computed.
record Parsed (lib : UriLib) (u : Url) : Type 0 where
  parsed : Iri
  authority : Authority
  host : Text
  port : Option ℕ
  is_https : Bool
  scheme_is : to_ascii_lowercase parsed.scheme ≡ scheme_name is_https
  result :
      u
      ≡ assemble (to_ascii_lowercase parsed.scheme) is_https host port (lib.to_uri parsed) authority

scheme_name-of_tests :
    (scheme : Text)
    → (not (text_eq scheme (codes "https")) && not (text_eq scheme (codes "http"))) ≡ false
    → scheme ≡ scheme_name (text_eq scheme (codes "https"))
scheme_name-of_tests scheme h = elim (Bool-cases (text_eq scheme (codes "https"))) [
  | inl e ↦ rw e ((text_eq_iff scheme (codes "https")).0 e)
  | inr e ↦ rw e ((text_eq_iff scheme (codes "http")).0 (ground arith))
]

reject-eq-ok : {E : Type 0} (b : Bool) (e : E) (x : Unit {0}) → reject b e ≡ ok x → b ≡ false
reject-eq-ok true e x h = cc
reject-eq-ok false e x h = refl

parse_impl-Parsed : (lib : UriLib) (url : Text) {u : Url} → parse_impl lib url ≡ ok u → Parsed lib u
unfolding parse_impl
parse_impl-Parsed lib url h =
    let (parsed, _, h₁) = >>=-eq-ok (map_err map_fluent_error (lib.parse_iri url)) _ h in
    let scheme = to_ascii_lowercase parsed.scheme in
    let is_https = text_eq scheme (codes "https") in
    let (tt₁, allowed, h₂) =
      >>=-eq-ok (reject (not is_https && not (text_eq scheme (codes "http"))) unsupported_scheme) _
        h₁ in
    let (authority, _, h₃) = >>=-eq-ok (ok_or parsed.authority empty_host) _ h₂ in
    let (tt₂, _, h₄) = >>=-eq-ok (reject (is_empty authority.host) empty_host) _ h₃ in
    let (host, _, h₅) = >>=-eq-ok (normalize_host lib authority authority.host_parsed) _ h₄ in
    let (port, _, h₆) = >>=-eq-ok (map_err (λ _. invalid_port) authority.port_to_u16) _ h₅ in
    let (encoded_authority, _, h₇) =
      >>=-eq-ok (ok_or (lib.to_uri parsed).authority empty_host) _ h₆ in
    record {
      parsed = parsed;
      authority = encoded_authority;
      host = host;
      port = port;
      is_https = is_https;
      scheme_is = scheme_name-of_tests scheme (reject-eq-ok _ _ _ allowed);
      result = cc h₇;
    }

-- A parsed URL is consistent, whatever the parser of IRIs returns.
pub parse_impl-IsConsistent :
    (lib : UriLib) (url : Text) {u : Url} → parse_impl lib url ≡ ok u → IsConsistent u
parse_impl-IsConsistent lib url h =
    let p = parse_impl-Parsed lib url h in
    rw p.result (
      assemble-IsConsistent (to_ascii_lowercase p.parsed.scheme) p.is_https p.host p.port
        (lib.to_uri p.parsed) p.authority p.scheme_is)

-- So is every URL that an edit makes of a consistent one.
pub set_query-IsConsistent :
    (u : Url) (q : Option Text) → IsConsistent u → IsConsistent (set_query u q)
unfolding set_query
set_query-IsConsistent u q c =
    rebuild_serialized-IsConsistent (record u { query = q }) c.scheme_is c.explicit_is c.path_ne_nil

pub take_decoded_userinfo-IsConsistent :
    (decode : Text → List ℕ) (u : Url)
    → IsConsistent u
    → IsConsistent (take_decoded_userinfo decode u).0
unfolding take_decoded_userinfo
take_decoded_userinfo-IsConsistent decode u c = ground arith

join_in_place-IsConsistent :
    (base : Url) (r : IriRef) → IsConsistent base → IsConsistent (join_in_place base r)
unfolding join_in_place
join_in_place-IsConsistent base r c =
    rebuild_serialized-IsConsistent
      (record base {
        query = elim r.query [ none ↦ base.query | some q ↦ some q ];
        fragment = r.fragment;
      })
      c.scheme_is c.explicit_is c.path_ne_nil

inherit_userinfo-IsConsistent :
    (b : Bool) (base joined : Url)
    → IsConsistent joined
    → IsConsistent (inherit_userinfo b base joined)
inherit_userinfo-IsConsistent true base joined c = record {
  scheme_is = c.scheme_is;
  explicit_is = c.explicit_is;
  path_ne_nil = c.path_ne_nil;
  path_and_query_is = c.path_and_query_is;
  serialized_is = c.serialized_is;
}
inherit_userinfo-IsConsistent false base joined c = c

elsewhere-IsConsistent :
    (lib : UriLib) (base : Url) (reference : IriRef) (parsed_base : Iri) (inherits : Bool) {u : Url}
    → (map_err (λ _. invalid_url) (lib.resolve_against reference parsed_base) >>= λ resolved.
        parse_impl lib resolved >>= λ joined. ok (inherit_userinfo inherits base joined))
      ≡ ok u
    → IsConsistent u
elsewhere-IsConsistent lib base reference parsed_base inherits h =
    let (resolved, _, h₁) =
      >>=-eq-ok (map_err (λ _. invalid_url) (lib.resolve_against reference parsed_base)) _ h in
    let (joined, parsed, h₂) = >>=-eq-ok (parse_impl lib resolved) _ h₁ in
    rw (← ok-injective _ _ h₂) (
      inherit_userinfo-IsConsistent inherits base joined
        (parse_impl-IsConsistent lib resolved parsed))

join_branches-IsConsistent :
    (lib : UriLib) (base : Url) (reference : IriRef) (parsed_base : Iri)
    (inherits empty_path : Bool) {u : Url}
    → IsConsistent base
    → (if inherits && empty_path
        then ok (join_in_place base (lib.to_uri_ref reference))
        else (map_err (λ _. invalid_url) (lib.resolve_against reference parsed_base) >>= λ resolved.
            parse_impl lib resolved >>= λ joined. ok (inherit_userinfo inherits base joined)))
      ≡ ok u
    → IsConsistent u
join_branches-IsConsistent lib base reference parsed_base true true c h =
    rw (← ok-injective _ _ h) (join_in_place-IsConsistent base (lib.to_uri_ref reference) c)
join_branches-IsConsistent lib base reference parsed_base inherits empty_path c h =
    elsewhere-IsConsistent lib base reference parsed_base inherits h

pub join-IsConsistent :
    (lib : UriLib) (base : Url) (input : Text) {u : Url}
    → IsConsistent base
    → join lib base input ≡ ok u
    → IsConsistent u
unfolding join
join-IsConsistent lib base input c h =
    let (parsed_base, _, h₁) =
      >>=-eq-ok (map_err map_fluent_error (lib.parse_iri (serialized_without_fragment base))) _ h in
    let (reference, _, h₂) = >>=-eq-ok (map_err map_fluent_error (lib.parse_ref input)) _ h₁ in
    join_branches-IsConsistent lib base reference parsed_base
      (is_none reference.scheme && is_none reference.authority) (is_empty reference.path) c h₂

-- Serializing the fields again changes nothing: the two routines that build `serialized` agree.
pub rebuild_serialized-fixed : (u : Url) → IsConsistent u → rebuild_serialized u ≡ u
unfolding rebuild_serialized
rebuild_serialized-fixed u c = λ i. record u {
  path_and_query = sym c.path_and_query_is i;
  serialized = (rebuild_serialized-render u ∙ sym c.serialized_is) i;
}
