-- ===== src/Tests/Builder.antt =====
-- The client builder at concrete inputs.
use wrest.Client.Builder.Timeouts.{winhttp_timeout_ms_lem}
use wrest.Client.Builder.{winhttp_timeout_ms, i32_max}
use wrest.Prelude.{◌+◌, ◌*◌, ◌≤◌, ◌<◌, ◌≡◌, ◌⊎◌}

-- One and a half milliseconds.
winhttp_timeout_ms_lem_example :
    (1 ≤ winhttp_timeout_ms 1500000)
    × (winhttp_timeout_ms 1500000 ≤ i32_max)
    × ((1500000 ≤ winhttp_timeout_ms 1500000 * 1000000) ⊎ (winhttp_timeout_ms 1500000 ≡ i32_max))
    × ((winhttp_timeout_ms 1500000 * 1000000 < 1500000 + 1000000)
        ⊎ (winhttp_timeout_ms 1500000 ≡ 1))
winhttp_timeout_ms_lem_example = winhttp_timeout_ms_lem 1500000
