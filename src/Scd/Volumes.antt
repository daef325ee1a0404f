-- ===== src/Scd/Volumes.antt =====
-- `VolumesValidator` (flight_blender/utils/scd_helpers.py). `arrow_get` is `arrow.get` of a text, and
-- `now` the time that `arrow.now` reads, in microseconds.
use flight_blender.Prelude.{
  ℕ, ◌+◌, ◌*◌, Bool, true, not, ◌&&◌, none, some, List, all, leb, ltb, length,
}
use flight_blender.Exceptions.{Result, ok, ◌>>=◌, traverse}
use flight_blender.Json.{Json}
use flight_blender.Conformance.Volumes.{Volume4d}

-- An outline of fewer than three vertices is refused; one that is absent passes.
unfoldable pub validate_polygon_vertices : Volume4d → Bool
validate_polygon_vertices v = elim v.volume.outline_polygon [
  | none ↦ true
  | some vertices ↦ not (ltb (length vertices) 3)
]

abbrev pub thirty_days : ℕ
thirty_days = 30 * 86400 * 1000000

module _ (arrow_get : Json → Result ℕ) (now : ℕ) where
  -- Only the start is looked at.
  unfoldable pub validate_volume_start_end_date : Volume4d → Result Bool
  validate_volume_start_end_date v = arrow_get v.time_start.value >>= λ volume_start_datetime.
      ok (leb volume_start_datetime (now + thirty_days))

  -- More than five seconds in the past
  unfoldable pub validate_volume_times_within_limits_for_creation : Volume4d → Result Bool
  validate_volume_times_within_limits_for_creation v =
      arrow_get v.time_start.value >>= λ volume_start_datetime.
      ok (leb now (volume_start_datetime + 5000000))

  unfoldable pub pre_operational_intent_creation_checks : List Volume4d → Result Bool
  unfolding validate_volume_times_within_limits_for_creation
  pre_operational_intent_creation_checks volumes =
      traverse validate_volume_times_within_limits_for_creation volumes
      >>= λ all_volume_start_time_ok. ok (all (λ b. b) all_volume_start_time_ok)

  -- Both checks of each volume
  unfoldable pub validate_volume : Volume4d → Result Bool
  unfolding validate_volume_start_end_date validate_polygon_vertices
  validate_volume v =
      validate_volume_start_end_date v >>= λ in_time. ok (validate_polygon_vertices v && in_time)

  unfoldable pub validate_volumes : List Volume4d → Result Bool
  unfolding validate_volume
  validate_volumes volumes =
      traverse validate_volume volumes >>= λ all_volumes_ok. ok (all (λ b. b) all_volumes_ok)
