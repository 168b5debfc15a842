-- ===== src/WinHttp/Reply/Status.antt =====
-- src/winhttp.rs: which status codes are accepted.
use wrest.Prelude.Result.{ok}
use wrest.Prelude.{ℕ, ◌&&◌, Option, none, some, if◌then◌else◌, leb, ltb, ◌≡◌, ◌≤◌, ◌<◌, arith, ◌↔◌}
use wrest.Url.Types.{Url}
use wrest.WinHttp.Reply.{parse_winhttp_status_code}

-- A status code is accepted exactly when it has three digits, and then unchanged: a number that is too
-- large is never cut down to one that is. The parameter accepts the numbers from 100 to 999.
parse_winhttp_status_code_iff :
    (from_u16 : ℕ → Option ℕ)
    → ((n : ℕ) → from_u16 n ≡ (if leb 100 n && ltb n 1000 then some n else none))
    → (code : ℕ) (url : Url) (status : ℕ)
    → (parse_winhttp_status_code from_u16 code url ≡ ok status)
      ↔ ((status ≡ code) × (100 ≤ code) × (code < 1000))
unfolding parse_winhttp_status_code
parse_winhttp_status_code_iff from_u16 accepts code url status =
    (λ h. ground (arith, accepts code), λ (e, low, high). ground (arith, accepts code))
