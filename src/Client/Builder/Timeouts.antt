-- ===== src/Client/Builder/Timeouts.antt =====
-- src/client.rs: the conversion of an explicit timeout to milliseconds.
use wrest.Client.Builder.{winhttp_timeout_ms, i32_max}
use wrest.Prelude.{ℕ, ◌+◌, ◌*◌, ◌≤◌, ◌<◌, ◌≡◌, ◌⊎◌, arith}

-- An explicit timeout is never the 0 that WinHTTP takes for none, and fits an `i32`; it is not shorter than
-- what was asked for unless it is the longest one, and less than a millisecond longer unless it is the
-- shortest one.
pub winhttp_timeout_ms_lem :
    (nanos : ℕ)
    → (1 ≤ winhttp_timeout_ms nanos)
      × (winhttp_timeout_ms nanos ≤ i32_max)
      × ((nanos ≤ winhttp_timeout_ms nanos * 1000000) ⊎ (winhttp_timeout_ms nanos ≡ i32_max))
      × ((winhttp_timeout_ms nanos * 1000000 < nanos + 1000000) ⊎ (winhttp_timeout_ms nanos ≡ 1))
unfolding winhttp_timeout_ms
winhttp_timeout_ms_lem nanos = ground arith
