-- ===== src/Constraints/Repository.antt =====
-- `SQLAlchemyConstraintRepository` (flight_blender/repositories/constraint_repo.py): the queries and
-- the plain writes. A new row comes as a value, its id and the time of its creation included.
use flight_blender.Prelude.{
  ℕ, Bool, true, false, Option, none, some, String, List, [], ◌∷◌, ◌++◌, ◌==◌, find, select,
}
use flight_blender.Exceptions.{type_error, multiple_results_found, Result, ok, raise}
use flight_blender.Repositories.Tables.{order_by_desc, set_where}
use flight_blender.Repositories.Upserts.{upsert}
use flight_blender.Constraints.Tables.{
  GeofenceRow, ConstraintDetail, ConstraintReference, CompositeConstraint, ConstraintDb,
}
use flight_blender.Constraints.Schema.{Write, flush}

-- `scalar_one_or_none`
abbrev pub scalar_one_or_none : {A : Type 0} → List A → Result (Option A)
scalar_one_or_none [] = ok none
scalar_one_or_none (x ∷ []) = ok (some x)
scalar_one_or_none (x ∷ y ∷ rows) = raise multiple_results_found

abbrev pub has_geofence : ℕ → Option ℕ → Bool
has_geofence k none = false
has_geofence k (some geofence_id) = geofence_id == k

unfoldable pub get_constraint_detail_by_id : ℕ → ConstraintDb → Option ConstraintDetail
get_constraint_detail_by_id constraint_id db = find (λ d. d.id == constraint_id) db.details

unfoldable pub get_constraint_details : ConstraintDb → List ConstraintDetail
get_constraint_details db = order_by_desc (λ d. d.created_at) db.details

unfoldable pub create_constraint_detail : ConstraintDetail → Write ConstraintDetail
create_constraint_detail obj db = flush obj (record db { details = db.details ++ obj ∷ [] })

unfoldable pub get_constraint_reference_by_id : ℕ → ConstraintDb → Option ConstraintReference
get_constraint_reference_by_id ref_id db = find (λ r. r.id == ref_id) db.references

unfoldable pub get_constraint_references : ConstraintDb → List ConstraintReference
get_constraint_references db = order_by_desc (λ r. r.created_at) db.references

unfoldable pub create_constraint_reference : ConstraintReference → Write ConstraintReference
create_constraint_reference obj db =
    flush obj (record db { references = db.references ++ obj ∷ [] })

unfoldable pub set_ovn : ℕ → String → Option ConstraintReference → Write Bool
set_ovn ref_id ovn none db = ok (false, db)
set_ovn ref_id ovn (some ref) db = flush true (record db {
  references = set_where (λ r. r.id == ref_id) (λ r. record r { ovn = some ovn }) db.references;
})

unfoldable pub update_constraint_reference_ovn : ℕ → String → Write Bool
unfolding get_constraint_reference_by_id set_ovn
update_constraint_reference_ovn ref_id ovn db =
    set_ovn ref_id ovn (get_constraint_reference_by_id ref_id db) db

unfoldable pub create_composite_constraint : CompositeConstraint → Write CompositeConstraint
create_composite_constraint obj db =
    flush obj (record db { composites = db.composites ++ obj ∷ [] })

unfoldable pub get_constraint_by_geofence_id : ℕ → ConstraintDb → Result (Option ConstraintDetail)
get_constraint_by_geofence_id geofence_id db =
    scalar_one_or_none (select (λ d. has_geofence geofence_id d.geofence_id) db.details)

unfoldable pub get_geofence_by_constraint_reference_id : ℕ → ConstraintDb → Option GeofenceRow
get_geofence_by_constraint_reference_id ref_id db =
    elim (find (λ r. r.id == ref_id) db.references) [
      | none ↦ none
      | some ref ↦ elim ref.geofence_id [
        | none ↦ none
        | some geofence_id ↦ find (λ f. f.id == geofence_id) db.geofences
      ]
    ]

-- The new row has no geofence.
unfoldable pub write_constraint_details : ℕ → ℕ → String → Write (Unit {0})
write_constraint_details now constraint_id details_json db = flush tt (record db {
  details =
      upsert (λ d. d.id == constraint_id) (λ d. record d { volumes = details_json })
        (record {
          id = constraint_id;
          geofence_id = none;
          volumes = details_json;
          created_at = now;
        })
        db.details;
})

-- `ConstraintReferenceORM` has no column `volumes`, and its constructor takes no other keyword.
unfoldable pub write_constraint_reference_details : String → Write (Unit {0})
write_constraint_reference_details details_json db = raise type_error
