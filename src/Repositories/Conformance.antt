-- ===== src/Repositories/Conformance.antt =====
-- `SQLAlchemyConformanceRepository` (repositories/conformance_repo.py).
use flight_blender.Prelude.{
  ℕ, Bool, true, ◌&&◌, none, some, String, List, [], ◌∷◌, ◌++◌, ◌==◌, leb, select,
}
use flight_blender.Exceptions.{integrity_error}
use flight_blender.World.{ConformanceRow, GeoFence, Action, pure, throw, gets, ◌>>=◌, ◌>>◌}
use flight_blender.Repositories.Tables.{order_by_desc}
use flight_blender.Repositories.Declarations.{get_by_id, modify_db}

unfoldable pub get_conformance_records_for_duration : ℕ → ℕ → Action (List ConformanceRow)
get_conformance_records_for_duration start_time end_time = gets λ w.
    order_by_desc (λ r. r.created_at)
      (select (λ r. leb start_time r.created_at && leb r.created_at end_time)
        w.db.conformance_records)

-- `now` is the default of the column `created_at`, and the declaration is a foreign key.
unfoldable pub create_conformance_record : ℕ → ℕ → ℕ → String → String → Bool → Bool → Action Bool
unfolding get_by_id
create_conformance_record now declaration_id state event_type description geofence_breach resolved =
    get_by_id declaration_id >>= λ found. elim found [
      | none ↦ throw integrity_error
      | some d ↦
          modify_db (λ db. record db {
            conformance_records =
                db.conformance_records
                ++ record {
                  flight_declaration_id = declaration_id;
                  conformance_state = state;
                  event_type = event_type;
                  description = description;
                  geofence_breach = geofence_breach;
                  resolved = resolved;
                  created_at = now;
                }
                  ∷ [];
          })
          >> pure true
    ]

-- Status 0 is active.
unfoldable pub get_active_geofences : Action (List GeoFence)
get_active_geofences = gets λ w. select (λ f. f.status == 0) w.db.fences
