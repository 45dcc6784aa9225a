-- ===== src/Management/Duration.antt =====
-- durationTo8601Seconds of mgmt.go. A duration is given in nanoseconds.
use azure_service_bus_go.Prelude.{ℕ, zero, suc, ◌/◌, ◌≡◌, false, arith, Option, none, some}
use azure_service_bus_go.Prelude.Int.{ℤ, pos, negsuc, ◌≤ℤ◌, ltb_ℤ}

-- The text "PT<n>S", kept as its number.
pub record IsoSeconds : Type 0 where
  pub seconds : ℤ

abbrev minus : ℕ → ℤ
minus zero = pos 0
minus (suc n) = negsuc n

-- The quotient is cut towards 0.
unfoldable pub duration_to_8601_seconds : ℤ → IsoSeconds
duration_to_8601_seconds (pos n) = record { seconds = pos (n / 1_000_000_000) }
duration_to_8601_seconds (negsuc n) = record { seconds = minus (suc n / 1_000_000_000) }

-- Five minutes, the least idle interval: `window.Minutes() < 5` on a float64 is a test against it,
-- since rounding does not reach 5 below five minutes.
abbrev pub five_minutes : ℤ
five_minutes = pos 300_000_000_000

abbrev pub or_default : Option ℤ → ℕ → ℤ
or_default none n = pos n
or_default (some window) n = window

-- Unset, or at least 300 seconds.
abbrev pub IsIdle : Option IsoSeconds → Type 0
IsIdle none = Unit
IsIdle (some t) = pos 300 ≤ℤ t.seconds

pub seconds-ge_300 :
    (window : ℤ)
    → ltb_ℤ window five_minutes ≡ false
    → pos 300 ≤ℤ (duration_to_8601_seconds window).seconds
unfolding duration_to_8601_seconds
seconds-ge_300 (pos n) h = ground arith
seconds-ge_300 (negsuc n) h = absurd (ground arith)
