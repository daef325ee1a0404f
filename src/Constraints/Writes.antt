-- ===== src/Constraints/Writes.antt =====
-- The four writes of `SQLAlchemyConstraintRepository` that update the row that is there or add one.
-- `new_id` is the id that a new row draws, and `now` the time of its creation.
use flight_blender.Prelude.{ℕ, Bool, true, false, Option, none, some, String, ◌==◌, find, select}
use flight_blender.Exceptions.{Result, ◌>>=◌}
use flight_blender.Repositories.Upserts.{upsert}
use flight_blender.Constraints.Tables.{
  GeofenceRow, ConstraintDetail, ConstraintReference, CompositeConstraint, ConstraintDb,
  ReferencePayload,
}
use flight_blender.Constraints.Schema.{Write, flush}
use flight_blender.Constraints.Repository.{
  scalar_one_or_none, has_geofence, get_constraint_by_geofence_id,
}

unfoldable pub create_or_update_constraint_detail : ℕ → ℕ → String → ℕ → Write ConstraintDetail
unfolding get_constraint_by_geofence_id
create_or_update_constraint_detail new_id now details_json geofence_id db =
    get_constraint_by_geofence_id geofence_id db >>= λ found.
    let added : ConstraintDetail = record {
      id = new_id;
      geofence_id = some geofence_id;
      volumes = details_json;
      created_at = now;
    } in
    let existing : ConstraintDetail = elim found [ some d ↦ d | none ↦ added ] in
    flush (record existing { volumes = details_json })
      (record db {
        details =
            upsert (λ d. has_geofence geofence_id d.geofence_id)
              (λ d. record d { volumes = details_json }) added db.details;
      })

-- What an update writes to a reference
abbrev pub rewritten : ReferencePayload → ℕ → ℕ → ConstraintReference → ConstraintReference
rewritten payload geofence_id declaration_id r = record r {
  ovn = payload.ovn;
  geofence_id = some geofence_id;
  flight_declaration_id = some declaration_id;
  uss_availability = payload.uss_availability;
  uss_base_url = payload.uss_base_url;
  version = payload.version;
  manager = payload.manager;
  time_start = payload.time_start;
  time_end = payload.time_end;
}

abbrev pub new_reference : ℕ → ReferencePayload → ConstraintReference
new_reference now payload = record {
  id = payload.id;
  flight_declaration_id = none;
  geofence_id = none;
  uss_availability = "";
  ovn = none;
  manager = none;
  uss_base_url = "";
  version = "";
  time_start = now;
  time_end = now;
  is_live = false;
  created_at = now;
}

unfoldable pub create_or_update_constraint_reference :
    ℕ → ReferencePayload → ℕ → ℕ → Write ConstraintReference
create_or_update_constraint_reference now payload geofence_id declaration_id db =
    let write = rewritten payload geofence_id declaration_id in
    let existing : ConstraintReference = elim (find (λ r. r.id == payload.id) db.references) [
      | some r ↦ r
      | none ↦ new_reference now payload
    ] in
    flush (write existing) (record db {
      references =
          upsert (λ r. r.id == payload.id) write (write (new_reference now payload)) db.references;
    })

-- The payload has an id, and every column.
unfoldable pub create_or_update_geofence : GeofenceRow → Write GeofenceRow
create_or_update_geofence payload db = flush payload (record db {
  geofences =
      upsert (λ f. f.id == payload.id) (λ f. record payload { id = f.id }) payload db.geofences;
})

-- The composite of a reference
unfoldable pub composite_of : ℕ → ConstraintDb → Result (Option CompositeConstraint)
composite_of ref_id db =
    scalar_one_or_none (select (λ c. c.constraint_reference_id == ref_id) db.composites)

unfoldable pub create_or_update_composite_constraint : CompositeConstraint → Write Bool
unfolding composite_of
create_or_update_composite_constraint payload db =
    composite_of payload.constraint_reference_id db >>= λ found. flush true (record db {
      composites =
          upsert (λ c. c.constraint_reference_id == payload.constraint_reference_id)
            (λ c. record payload { constraint_reference_id = c.constraint_reference_id }) payload
            db.composites;
    })
