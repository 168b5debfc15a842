-- ===== src/Body.antt =====
-- src/body.rs: request bodies. A stream is given by the items that it will yield, in order.
use wrest.Error.{Source}
use wrest.Prelude.Result.{Result}
use wrest.Prelude.{ℕ, List, [], Option, none, some, ◌≡◌, arith}

pub data BodyInner : Type 0 where
  bytes : List ℕ → BodyInner
  stream : List (Result Source (List ℕ)) → BodyInner

pub record Body : Type 0 where
  pub inner : BodyInner

as_bytes_inner : BodyInner → Option (List ℕ)
as_bytes_inner (bytes v) = some v
as_bytes_inner (stream _) = none

-- `Body::as_bytes`
unfoldable pub as_bytes : Body → Option (List ℕ)
unfolding as_bytes_inner
as_bytes b = as_bytes_inner b.inner

try_clone_inner : BodyInner → Option Body
try_clone_inner (bytes v) = some (record { inner = bytes v })
try_clone_inner (stream _) = none

-- `Body::try_clone`
unfoldable pub try_clone : Body → Option Body
unfolding try_clone_inner
try_clone b = try_clone_inner b.inner

-- `Body::wrap_stream`
unfoldable pub wrap_stream : List (Result Source (List ℕ)) → Body
wrap_stream items = record { inner = stream items }

-- `Body::default`
abbrev pub empty_body : Body
empty_body = record { inner = bytes [] }

-- A body that is cloned is cloned unchanged.
pub try_clone-eq : (b : Body) {c : Body} → try_clone b ≡ some c → c ≡ b
unfolding try_clone
try_clone-eq b h = ground arith
