-- ===== src/Feed/Timestamps.antt =====
-- The timestamps of sensors, in the units that `_normalize_timestamp` tells apart.
use flight_blender.Prelude.{ℕ, ◌*◌, ◌<◌, ◌≡◌, some, arith}
use flight_blender.Feed.Repository.{normalize_timestamp}

-- A moment after September 2001 and before the year 10000 has one reading, whether it is given in
-- seconds, in milliseconds or in microseconds.
pub normalize_timestamp-units :
    (t : ℕ)
    → 1000000000 < t
    → t < 253402300800
    → (normalize_timestamp t ≡ some (t * 1000000))
      × (normalize_timestamp (t * 1000) ≡ some (t * 1000000))
      × (normalize_timestamp (t * 1000000) ≡ some (t * 1000000))
unfolding normalize_timestamp
normalize_timestamp-units t late early = (ground arith, ground arith, ground arith)
