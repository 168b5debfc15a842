-- ===== src/Error/Classify.antt =====
-- src/error.rs: which errors count as a connection reset.
use wrest.Error.{
  Win32Code, connection_reset, connection_refused, timed_out, write_zero, uncategorized, Source,
  message, io_error, context, signal_cancelled, foreign, foreign_from, Error, walks_to_reset,
  is_connection_reset,
}
use wrest.Prelude.Text.{Text}
use wrest.Prelude.{true, Option, none, some, ◌≡◌, refl, arith, ◌↔◌}

-- A chain of sources with an `io::Error` of the kind `ConnectionReset` on it.
pub data HasReset : Source → Type 0 where
  here : {code : Option Win32Code} → HasReset (io_error connection_reset code)
  in_context : {text : Text} {s : Source} → HasReset s → HasReset (context text s)
  in_foreign : {s : Source} → HasReset s → HasReset (foreign_from s)

walks-HasReset : (s : Source) → walks_to_reset s ≡ true → HasReset s
unfolding walks_to_reset
walks-HasReset (message _) h = absurd (ground arith)
walks-HasReset (io_error connection_reset _) h = here
walks-HasReset (io_error connection_refused _) h = absurd (ground arith)
walks-HasReset (io_error timed_out _) h = absurd (ground arith)
walks-HasReset (io_error write_zero _) h = absurd (ground arith)
walks-HasReset (io_error uncategorized _) h = absurd (ground arith)
walks-HasReset (context _ s) h = in_context (walks-HasReset s h)
walks-HasReset signal_cancelled h = absurd (ground arith)
walks-HasReset foreign h = absurd (ground arith)
walks-HasReset (foreign_from s) h = in_foreign (walks-HasReset s h)

HasReset-walks : {s : Source} → HasReset s → walks_to_reset s ≡ true
unfolding walks_to_reset
HasReset-walks here = refl
HasReset-walks (in_context r) = HasReset-walks r
HasReset-walks (in_foreign r) = HasReset-walks r

reset-source :
    (o : Option Source) (e : Error)
    → e.source ≡ o
    → is_connection_reset e ≡ true
    → (s : Source) × (e.source ≡ some s) × HasReset s
unfolding is_connection_reset
reset-source none e p h = absurd (ground arith)
reset-source (some s) e p h = (s, p, walks-HasReset s (ground arith))

-- An error is a connection reset exactly when some link of its chain of sources is an `io::Error` of
-- the kind `ConnectionReset`.
pub is_connection_reset_iff :
    (e : Error) → (is_connection_reset e ≡ true) ↔ ((s : Source) × (e.source ≡ some s) × HasReset s)
unfolding is_connection_reset
is_connection_reset_iff e =
    (reset-source e.source e refl, λ (s, p, r). rw (p, is_connection_reset) (HasReset-walks r))
