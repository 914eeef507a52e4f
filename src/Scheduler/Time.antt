-- ===== src/Scheduler/Time.antt =====
-- Moments in UTC as microseconds since 0001-01-01, the first that a Python `datetime` holds. A
-- duration in seconds is a multiple of `second`.
use crypto_radar.Base.{ℕ, ◌+◌, ◌*◌, ◌-◌, Bool, leb}

abbrev pub Instant : Type 0
Instant = ℕ

abbrev pub second : ℕ
second = 1_000_000

-- The last microsecond of the year 9999.
abbrev pub max_instant : Instant
max_instant = 315_537_897_600 * second - 1

-- `_require_room`: the sum stays a datetime.
abbrev pub has_room : Instant → ℕ → Bool
has_room moment seconds = leb (moment + seconds * second) max_instant
