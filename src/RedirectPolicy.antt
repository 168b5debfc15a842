-- ===== src/RedirectPolicy.antt =====
-- src/redirect.rs: the redirect policy.
use wrest.Prelude.{ℕ, if◌then◌else◌, leb}
use wrest.WinHttp.Write.{u32_max}

pub data PolicyInner : Type 0 where
  limited_to : ℕ → PolicyInner
  no_redirects : PolicyInner

pub record Policy : Type 0 where
  pub inner : PolicyInner

unfoldable pub limited : ℕ → Policy
limited max = record { inner = limited_to (if leb max u32_max then max else u32_max) }

-- `Policy::none`
unfoldable pub never : Policy
never = record { inner = no_redirects }

-- `Policy::default`
unfoldable pub default : Policy
unfolding limited
default = limited 10
