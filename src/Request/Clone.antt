-- ===== src/Request/Clone.antt =====
-- src/request.rs: what cloning a builder keeps.
use wrest.Body.{Body, try_clone-eq}
use wrest.Body
use wrest.Http.{HeaderMapLib}
use wrest.Prelude.Result.{Result-cases}
use wrest.Prelude.{Option, none, some, ◌≡◌, arith, Option-cases, inl, inr}
use wrest.Request.{RequestBuilder, clone_body, try_clone}

module _ (http : HeaderMapLib) where
  clone_body-eq : (o c : Option Body) → clone_body http o ≡ some c → c ≡ o
  unfolding clone_body
  clone_body-eq none c h = ground arith
  clone_body-eq (some b) c h = elim (Option-cases (Body.try_clone b)) [
    | inl e ↦ absurd (ground (arith, h, e))
    | inr (d, e) ↦ ground (arith, h, e, try_clone-eq b e)
  ]

  -- A builder that is cloned is cloned unchanged, with its URL, headers and body.
  try_clone_unchanged : (b c : RequestBuilder http.HeaderMap) → try_clone http b ≡ some c → c ≡ b
  unfolding try_clone
  try_clone_unchanged b c h = elim (Result-cases b.url) [
    | inr (e, u) ↦ absurd (ground (arith, h, u))
    | inl (url, u) ↦ elim (Option-cases (clone_body http b.body)) [
      | inl n ↦ absurd (ground (arith, h, u, n))
      | inr (body, s) ↦ ground (arith, h, u, s, clone_body-eq b.body body s)
    ]
  ]
