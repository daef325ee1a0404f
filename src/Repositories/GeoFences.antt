-- ===== src/Repositories/GeoFences.antt =====
-- `SQLAlchemyGeoFenceRepository` (repositories/geo_fence_repo.py).
use flight_blender.Prelude.{
  ℕ, Bool, true, false, not, ◌&&◌, Option, none, some, List, [], ◌∷◌, ◌++◌, ◌==◌, leb, select, find,
  is_some, length, if◌then◌else◌,
}
use flight_blender.Exceptions.{integrity_error, ok, raise}
use flight_blender.World.{GeoFence, Action, pure, gets, ◌>>=◌, ◌>>◌}
use flight_blender.Repositories.Tables.{delete_where}
use flight_blender.Repositories.Declarations.{modify_db}

abbrev same : Bool → Bool → Bool
same true b = b
same false b = not b

-- The `WHERE` clause of `get_geofences_overlapping_time_window`, as it is written.
unfoldable pub is_in_time_window : ℕ → ℕ → GeoFence → Bool
is_in_time_window start end f = leb f.start_datetime start && leb end f.end_datetime

unfoldable pub get_geofences_overlapping_time_window : ℕ → ℕ → Action (List GeoFence)
unfolding is_in_time_window
get_geofences_overlapping_time_window start end =
    gets λ w. select (is_in_time_window start end) w.db.fences

unfoldable pub is_in_date_range : ℕ → ℕ → Bool → GeoFence → Bool
is_in_date_range start end is_test f =
    leb f.start_datetime end && leb start f.end_datetime && same is_test f.is_test_dataset

unfoldable pub get_geofences_by_date_range : ℕ → ℕ → Bool → Action (List GeoFence)
unfolding is_in_date_range
get_geofences_by_date_range start end is_test =
    gets λ w. select (is_in_date_range start end is_test) w.db.fences

unfoldable pub get_by_id : ℕ → Action (Option GeoFence)
get_by_id geofence_id = gets λ w. find (λ f. f.id == geofence_id) w.db.fences

unfoldable pub create : GeoFence → Action GeoFence
create fence w =
    if is_some (find (λ f. f.id == fence.id) w.db.fences)
    then (raise integrity_error, w)
    else (ok fence, record w { db = record (w.db) { fences = w.db.fences ++ fence ∷ [] } })

unfoldable pub delete : ℕ → Action Bool
unfolding get_by_id
delete geofence_id = get_by_id geofence_id >>= λ found. elim found [
  | none ↦ pure false
  | some f ↦
      modify_db (λ db. record db { fences = delete_where (λ f. f.id == geofence_id) db.fences })
      >> pure true
]

unfoldable pub get_test_geofences : Action (List GeoFence)
get_test_geofences = gets λ w. select (λ f. f.is_test_dataset) w.db.fences

-- Each row that the query gave is deleted by its id.
abbrev delete_each : List GeoFence → List GeoFence → List GeoFence
delete_each [] rows = rows
delete_each (f ∷ fs) rows = delete_each fs (delete_where (λ g. g.id == f.id) rows)

unfoldable pub delete_test_geofences : Action ℕ
unfolding get_test_geofences
delete_test_geofences = get_test_geofences >>= λ fences.
    modify_db (λ db. record db { fences = delete_each fences db.fences }) >> pure (length fences)
