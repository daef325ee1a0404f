-- ===== src/Constraints/Lookups.antt =====
-- The lookups by a geofence and by a reference, in the tables that writes lead to; the plain write of
-- a composite is one of them only for a reference that has none.
use flight_blender.Prelude.{none, ℕ, ◌≡◌, refl, Bool, ◌==◌, Option, [], arith, select, String}
use flight_blender.Exceptions.{ok}
use flight_blender.Constraints.Tables.{
  GeofenceRow, ConstraintDetail, ConstraintReference, CompositeConstraint, ConstraintDb,
  ReferencePayload,
}
use flight_blender.Constraints.Schema.{is_consistent}
use flight_blender.Constraints.Repository.{
  create_composite_constraint, has_geofence, get_constraint_by_geofence_id,
  create_constraint_detail, create_constraint_reference, update_constraint_reference_ovn,
  write_constraint_details,
}
use flight_blender.Constraints.Writes.{
  create_or_update_constraint_detail, create_or_update_constraint_reference,
  create_or_update_geofence, composite_of, create_or_update_composite_constraint,
}
use flight_blender.Constraints.Keeping.{
  create_composite_constraint-IsSound, length-select-count, scalar_returns, distinct-count,
  consistent-details, IsKeeping, create_composite_constraint-IsSound,
  create_constraint_detail-IsKeeping, create_constraint_reference-IsKeeping,
  create_or_update_geofence-IsKeeping, create_or_update_constraint_reference-IsKeeping,
  write_constraint_details-IsKeeping, create_or_update_constraint_detail-IsKeeping,
  create_or_update_composite_constraint-IsKeeping, update_constraint_reference_ovn-IsKeeping,
  IsSound,
}

abbrev pub empty : ConstraintDb
empty = record { geofences = []; details = []; references = []; composites = [] }

-- The tables that writes which return lead to from empty ones, in any order. A plain write of a
-- composite is one of them where the reference has none.
pub data Reached : ConstraintDb → Type 0 where
  start : Reached empty
  geofence_written :
      (payload : GeofenceRow) {result : GeofenceRow} {db db' : ConstraintDb}
      → Reached db
      → create_or_update_geofence payload db ≡ ok (result, db')
      → Reached db'
  reference_written :
      (now geofence_id declaration_id : ℕ) (payload : ReferencePayload)
      {result : ConstraintReference} {db db' : ConstraintDb}
      → Reached db
      → create_or_update_constraint_reference now payload geofence_id declaration_id db
        ≡ ok (result, db')
      → Reached db'
  detail_written :
      (new_id now geofence_id : ℕ) (details_json : String) {result : ConstraintDetail}
      {db db' : ConstraintDb}
      → Reached db
      → create_or_update_constraint_detail new_id now details_json geofence_id db ≡ ok (result, db')
      → Reached db'
  composite_written :
      (payload : CompositeConstraint) {result : Bool} {db db' : ConstraintDb}
      → Reached db
      → create_or_update_composite_constraint payload db ≡ ok (result, db')
      → Reached db'
  composite_created :
      (obj : CompositeConstraint) {result : CompositeConstraint} {db db' : ConstraintDb}
      → Reached db
      → composite_of obj.constraint_reference_id db ≡ ok none
      → create_composite_constraint obj db ≡ ok (result, db')
      → Reached db'
  details_notified :
      (now constraint_id : ℕ) (details_json : String) {result : Unit {0}} {db db' : ConstraintDb}
      → Reached db
      → write_constraint_details now constraint_id details_json db ≡ ok (result, db')
      → Reached db'
  ovn_updated :
      (ref_id : ℕ) (ovn : String) {result : Bool} {db db' : ConstraintDb}
      → Reached db
      → update_constraint_reference_ovn ref_id ovn db ≡ ok (result, db')
      → Reached db'
  detail_created :
      (obj : ConstraintDetail) {result : ConstraintDetail} {db db' : ConstraintDb}
      → Reached db
      → create_constraint_detail obj db ≡ ok (result, db')
      → Reached db'
  reference_created :
      (obj : ConstraintReference) {result : ConstraintReference} {db db' : ConstraintDb}
      → Reached db
      → create_constraint_reference obj db ≡ ok (result, db')
      → Reached db'

Reached-IsSound : {db : ConstraintDb} → Reached db → IsSound db
unfolding is_consistent IsKeeping
Reached-IsSound start = record { consistent = refl; alone = λ k. omega arith }
Reached-IsSound (geofence_written payload {result = result} {db = db} {db' = db'} r h) =
    create_or_update_geofence-IsKeeping payload db (Reached-IsSound r) result db' h
Reached-IsSound
      (reference_written now geofence_id declaration_id payload {result = result} {db = db}
        {db' = db'} r h) =
    create_or_update_constraint_reference-IsKeeping now geofence_id declaration_id payload db
      (Reached-IsSound r) result db' h
Reached-IsSound
      (detail_written new_id now geofence_id details_json {result = result} {db = db} {db' = db'} r
        h) =
    create_or_update_constraint_detail-IsKeeping new_id now geofence_id details_json db
      (Reached-IsSound r) result db' h
Reached-IsSound (composite_written payload {result = result} {db = db} {db' = db'} r h) =
    create_or_update_composite_constraint-IsKeeping payload db (Reached-IsSound r) result db' h
Reached-IsSound (composite_created obj {result = result} {db = db} {db' = db'} r free h) =
    create_composite_constraint-IsSound obj db (Reached-IsSound r) free result db' h
Reached-IsSound
      (details_notified now constraint_id details_json {result = result} {db = db} {db' = db'} r
        h) =
    write_constraint_details-IsKeeping now constraint_id details_json db (Reached-IsSound r) result
      db' h
Reached-IsSound (ovn_updated ref_id ovn {result = result} {db = db} {db' = db'} r h) =
    update_constraint_reference_ovn-IsKeeping ref_id ovn db (Reached-IsSound r) result db' h
Reached-IsSound (detail_created obj {result = result} {db = db} {db' = db'} r h) =
    create_constraint_detail-IsKeeping obj db (Reached-IsSound r) result db' h
Reached-IsSound (reference_created obj {result = result} {db = db} {db' = db'} r h) =
    create_constraint_reference-IsKeeping obj db (Reached-IsSound r) result db' h

-- In all tables that the writes lead to from empty ones, refused writes left out and a composite
-- written plainly only for a reference that has none, the lookup of a geofence's details and the one
-- of a reference's composite find one row at most: neither raises for several rows. The first rests on
-- the unique column that the database enforces, the second on the upsert.
pub Reached-lookups :
    {db : ConstraintDb}
    → Reached db
    → (k : ℕ)
    → ((found : Option ConstraintDetail) × (get_constraint_by_geofence_id k db ≡ ok found))
      × ((found : Option CompositeConstraint) × (composite_of k db ≡ ok found))
unfolding get_constraint_by_geofence_id composite_of
Reached-lookups {db = db} r k =
    let s = Reached-IsSound r in
    let details = select (λ (d : ConstraintDetail). has_geofence k d.geofence_id) db.details in
    let composites =
      select (λ (c : CompositeConstraint). c.constraint_reference_id == k) db.composites in
    (
      scalar_returns details (
          omega (
            arith,
            length-select-count (λ (d : ConstraintDetail). has_geofence k d.geofence_id) db.details,
            distinct-count (λ (d : ConstraintDetail). d.geofence_id) k db.details
                (consistent-details db s.consistent),
          )),
      scalar_returns composites (
          omega (
            arith,
            length-select-count (λ (c : CompositeConstraint). c.constraint_reference_id == k)
                db.composites,
            s.alone k,
          )),
    )
