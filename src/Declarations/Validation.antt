-- ===== src/Declarations/Validation.antt =====
-- `_validate_geojson` and `_validate_dates` (flight_blender/services/flight_declarations_svc.py).
use flight_blender.Prelude.{
  ℕ, ◌+◌, ◌*◌, ◌≤◌, ◌≡◌, ◌↔◌, Bool, true, not, ◌||◌, Option, none, some, String, List, [], ◌∷◌,
  arith, ltb, if◌then◌else◌,
}
use flight_blender.Exceptions.{Result, ok, ◌>>=◌}
use flight_blender.Json.{Json, null, obj, arr, nil, end, get_or, contains, elements, truthy}
use flight_blender.Declarations.Requests.{Externals}

-- The first message of the loop, or `none` where every feature passes.
abbrev first_error : (Json → Result (Option String)) → List Json → Result (Option String)
first_error check [] = ok none
first_error check (x ∷ xs) =
    let rest = first_error check xs in
    check x >>= λ found. elim found [ none ↦ rest | some e ↦ ok (some e) ]

check_feature : (Json → Result Bool) → Json → Result (Option String)
check_feature shape_is_valid feature = do
  geometry ← get_or "geometry" null feature
  props ← get_or "properties" (obj end) feature
  valid ← shape_is_valid geometry
  if not valid
      then ok (some "every Feature in a GeoJSON FeatureCollection must have a valid geometry")
      else (do
        lower ← contains "min_altitude" props
        upper ← contains "max_altitude" props
        if not lower || not upper
            then ok (some "every Feature must have a min_altitude and max_altitude data structure")
            else ok none)

-- `none` is `(True, None)`, a text the refusal.
unfoldable pub validate_geojson : (Json → Result Bool) → Json → Result (Option String)
unfolding check_feature
validate_geojson shape_is_valid fc = do
  features ← get_or "features" (arr nil) fc
  if not (truthy features)
      then ok (some "Flight declaration GeoJSON is required.")
      else (elements features >>= λ fs. first_error (check_feature shape_is_valid) fs)

abbrev pub two_days : ℕ
two_days = 2 * 86400 * 1000000

-- The times are decoded already.
unfoldable pub dates_ok : ℕ → ℕ → ℕ → Bool
dates_ok now start stop =
    not (ltb start now || ltb stop now || ltb (now + two_days) stop || ltb (now + two_days) start)

unfoldable pub validate_dates : Externals → String → String → Result (Option String)
unfolding dates_ok
validate_dates ext start_datetime end_datetime = do
  s ← ext.arrow_get start_datetime
  e ← ext.arrow_get end_datetime
  if dates_ok ext.now s e
      then ok none
      else ok (
          some
            "A flight declaration cannot have a start / end time in the past or after two days from current time.")

-- The dates pass iff both lie between now and two days from now. Their order is not checked.
pub dates_ok_iff :
    (now start stop : ℕ)
    → (dates_ok now start stop ≡ true)
      ↔ ((now ≤ start) × (start ≤ now + two_days) × (now ≤ stop) × (stop ≤ now + two_days))
unfolding dates_ok
dates_ok_iff now start stop = (λ h. ground arith, λ h. ground arith)
