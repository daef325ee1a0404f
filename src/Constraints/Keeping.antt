-- ===== src/Constraints/Keeping.antt =====
-- What single writes of constraints keep of the tables: that the database accepts them, and that a
-- reference has one composite at most. The plain write of a composite does so only for a reference
-- that has none.
use flight_blender.Prelude.{
  ◌+◌, ◌++◌, ℕ, ◌≤◌, ◌≡◌, refl, ap, inl, inr, Bool, true, false, ◌==◌, Option, none, some, List, [],
  ◌∷◌, arith, Option-cases, elem, map, select, length, String, if◌then◌else◌,
}
use mathlib.Core.Path.{subst}
use flight_blender.Exceptions.{ok, raise, Exc, integrity_error, >>=-eq-ok}
use flight_blender.Repositories.Tables.{count}
use flight_blender.Repositories.Upserts.{count-upsert}
use flight_blender.Constraints.Tables.{
  GeofenceRow, ConstraintDetail, ConstraintReference, CompositeConstraint, ConstraintDb,
  ReferencePayload,
}
use flight_blender.Constraints.Schema.{Write, distinct, present, is_consistent, flush}
use flight_blender.Constraints.Repository.{
  create_composite_constraint, scalar_one_or_none, has_geofence, get_constraint_by_geofence_id,
  create_constraint_detail, create_constraint_reference, update_constraint_reference_ovn, set_ovn,
  write_constraint_details,
}
use flight_blender.Constraints.Writes.{
  create_or_update_constraint_detail, create_or_update_constraint_reference,
  create_or_update_geofence, composite_of, create_or_update_composite_constraint,
}

module _ {A : Type 0} where
  pub length-select-count : (p : A → Bool) (xs : List A) → length (select p xs) ≡ count p xs
  length-select-count p [] = refl
  length-select-count p (x ∷ xs) = ground (arith, length-select-count p xs)

  pub scalar_returns :
      (xs : List A) → length xs ≤ 1 → (found : Option A) × (scalar_one_or_none xs ≡ ok found)
  scalar_returns [] h = (none, refl)
  scalar_returns (x ∷ []) h = (some x, refl)
  scalar_returns (x ∷ y ∷ xs) h = absurd (omega arith)

  scalar_none : (xs : List A) → scalar_one_or_none xs ≡ ok none → length xs ≡ 0
  scalar_none [] h = refl
  scalar_none (x ∷ []) h = absurd (ground arith)
  scalar_none (x ∷ y ∷ xs) h = absurd (ground arith)

  count-end :
      (p : A → Bool) (new : A) (rows : List A)
      → count p (rows ++ new ∷ []) ≡ count p rows + (if p new then 1 else 0)
  count-end p new [] = ground arith
  count-end p new (x ∷ xs) = ground (arith, count-end p new xs)

  -- A value that a nullable column does not have, and one in a column of distinct values
  absent-count :
      (key : A → Option ℕ) (k : ℕ) (rows : List A)
      → elem k (present (map key rows)) ≡ false
      → count (λ r. has_geofence k (key r)) rows ≡ 0
  absent-count key k [] h = refl
  absent-count key k (r ∷ rows) h = elim (Option-cases (key r)) [
    | inl e ↦ ground (arith, absent-count key k rows)
    | inr (g, e) ↦ ground (arith, absent-count key k rows)
  ]

  pub distinct-count :
      (key : A → Option ℕ) (k : ℕ) (rows : List A)
      → distinct (present (map key rows)) ≡ true
      → count (λ r. has_geofence k (key r)) rows ≤ 1
  distinct-count key k [] h = omega arith
  distinct-count key k (r ∷ rows) h = elim (Option-cases (key r)) [
    | inl e ↦ ground (arith, distinct-count key k rows)
    | inr (g, e) ↦ ground (arith, distinct-count key k rows, absent-count key k rows)
  ]

pub consistent-details :
    (db : ConstraintDb)
    → is_consistent db ≡ true
    → distinct (present (map (λ (d : ConstraintDetail). d.geofence_id) db.details)) ≡ true
unfolding is_consistent
consistent-details db h = ground arith

guard-ok :
    {A : Type 0} (b : Bool) (x r : A) (e : Exc)
    → (if b then ok x else raise e) ≡ ok r
    → (b ≡ true) × (x ≡ r)
guard-ok true x r e h = (refl, cc)
guard-ok false x r e h = absurd (ground arith)

flush-ok :
    {A : Type 0} (obj result : A) (db db' : ConstraintDb)
    → flush obj db ≡ ok (result, db')
    → (is_consistent db ≡ true) × (db ≡ db')
unfolding flush
flush-ok obj result db db' h =
    let (c, e) = guard-ok (is_consistent db) (obj, db) (result, db') integrity_error h in
    (c, ap (λ r. r.1) e)

-- Tables that the database accepts, with one composite of a reference at most.
pub record IsSound (db : ConstraintDb) : Type 0 where
  pub consistent : is_consistent db ≡ true
  pub alone : (k : ℕ) → count (λ c. c.constraint_reference_id == k) db.composites ≤ 1

-- A write that leaves the composites alone: what it returns with is accepted.
unfoldable pub IsKeeping : {A : Type 0} → Write A → Type 0
IsKeeping {A = A} m =
    (db : ConstraintDb)
    → IsSound db
    → (result : A) (db' : ConstraintDb) → m db ≡ ok (result, db')
    → IsSound db'

flush-IsSound :
    {A : Type 0} (obj result : A) (db db' : ConstraintDb)
    → ((k : ℕ) → count (λ c. c.constraint_reference_id == k) db.composites ≤ 1)
    → flush obj db ≡ ok (result, db')
    → IsSound db'
flush-IsSound obj result db db' alone h =
    let (c, e) = flush-ok obj result db db' h in
    subst IsSound e (record { consistent = c; alone = alone })

pub create_constraint_detail-IsKeeping :
    (obj : ConstraintDetail) → IsKeeping (create_constraint_detail obj)
unfolding create_constraint_detail IsKeeping
create_constraint_detail-IsKeeping obj db s result db' h = flush-IsSound _ _ _ db' s.alone h

pub create_constraint_reference-IsKeeping :
    (obj : ConstraintReference) → IsKeeping (create_constraint_reference obj)
unfolding create_constraint_reference IsKeeping
create_constraint_reference-IsKeeping obj db s result db' h = flush-IsSound _ _ _ db' s.alone h

pub create_or_update_geofence-IsKeeping :
    (payload : GeofenceRow) → IsKeeping (create_or_update_geofence payload)
unfolding create_or_update_geofence IsKeeping
create_or_update_geofence-IsKeeping payload db s result db' h = flush-IsSound _ _ _ db' s.alone h

pub create_or_update_constraint_reference-IsKeeping :
    (now geofence_id declaration_id : ℕ) (payload : ReferencePayload)
    → IsKeeping (create_or_update_constraint_reference now payload geofence_id declaration_id)
unfolding create_or_update_constraint_reference IsKeeping
create_or_update_constraint_reference-IsKeeping now geofence_id declaration_id payload db s result
      db' h =
    flush-IsSound _ _ _ db' s.alone h

pub write_constraint_details-IsKeeping :
    (now constraint_id : ℕ) (details_json : String)
    → IsKeeping (write_constraint_details now constraint_id details_json)
unfolding write_constraint_details IsKeeping
write_constraint_details-IsKeeping now constraint_id details_json db s result db' h =
    flush-IsSound _ _ _ db' s.alone h

pub create_or_update_constraint_detail-IsKeeping :
    (new_id now geofence_id : ℕ) (details_json : String)
    → IsKeeping (create_or_update_constraint_detail new_id now details_json geofence_id)
unfolding create_or_update_constraint_detail IsKeeping
create_or_update_constraint_detail-IsKeeping new_id now geofence_id details_json db s result db' h =
    let (found, e, h1) = >>=-eq-ok (get_constraint_by_geofence_id geofence_id db) _ h in
    flush-IsSound _ _ _ db' s.alone h1

pub create_or_update_composite_constraint-IsKeeping :
    (payload : CompositeConstraint) → IsKeeping (create_or_update_composite_constraint payload)
unfolding create_or_update_composite_constraint IsKeeping
create_or_update_composite_constraint-IsKeeping payload db s result db' h =
    let (found, e, h1) = >>=-eq-ok (composite_of payload.constraint_reference_id db) _ h in
    flush-IsSound _ _ _ db'
      (λ k.
        count-upsert (λ c. c.constraint_reference_id)
          (λ c. record payload { constraint_reference_id = c.constraint_reference_id }) (λ c. refl)
          payload.constraint_reference_id k payload db.composites refl (s.alone k))
      h1

-- A composite that is written plainly, for a reference that has none.
pub create_composite_constraint-IsSound :
    (obj : CompositeConstraint) (db : ConstraintDb)
    → IsSound db
    → composite_of obj.constraint_reference_id db ≡ ok none
    → (result : CompositeConstraint) (db' : ConstraintDb)
    → create_composite_constraint obj db ≡ ok (result, db')
    → IsSound db'
unfolding create_composite_constraint composite_of
create_composite_constraint-IsSound obj db s free result db' h =
    flush-IsSound _ _ _ db'
      (λ k. ground (
        arith,
        s.alone k,
        count-end (λ (c : CompositeConstraint). c.constraint_reference_id == k) obj db.composites,
        length-select-count
            (λ (c : CompositeConstraint). c.constraint_reference_id == obj.constraint_reference_id)
            db.composites,
        scalar_none
            (select
              (λ (c : CompositeConstraint).
                c.constraint_reference_id == obj.constraint_reference_id)
              db.composites)
            free,
      ))
      h

set_ovn-IsKeeping :
    (ref_id : ℕ) (ovn : String) (found : Option ConstraintReference)
    → IsKeeping (set_ovn ref_id ovn found)
unfolding set_ovn IsKeeping
set_ovn-IsKeeping ref_id ovn none db s result db' h =
    let same : db ≡ db' = cc in subst IsSound same s
set_ovn-IsKeeping ref_id ovn (some ref) db s result db' h = flush-IsSound _ _ _ db' s.alone h

pub update_constraint_reference_ovn-IsKeeping :
    (ref_id : ℕ) (ovn : String) → IsKeeping (update_constraint_reference_ovn ref_id ovn)
unfolding update_constraint_reference_ovn IsKeeping
update_constraint_reference_ovn-IsKeeping ref_id ovn db s result db' h =
    set_ovn-IsKeeping ref_id ovn _ db s result db' h
