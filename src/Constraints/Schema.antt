-- ===== src/Constraints/Schema.antt =====
-- What the database enforces when a session is flushed: primary keys, the unique columns and the
-- foreign keys of models/constraint_orm.py.
use flight_blender.Prelude.{
  ℕ, Bool, true, not, ◌&&◌, Option, none, some, List, [], ◌∷◌, all, elem, map, if◌then◌else◌,
}
use flight_blender.Exceptions.{integrity_error, Result, ok, raise}
use flight_blender.Constraints.Tables.{ConstraintDb}

abbrev pub Write : Type 0 → Type 0
Write A = ConstraintDb → Result (A × ConstraintDb)

abbrev pub distinct : List ℕ → Bool
distinct [] = true
distinct (k ∷ ks) = not (elem k ks) && distinct ks

-- The values of a nullable column
abbrev pub present : List (Option ℕ) → List ℕ
present [] = []
present (none ∷ ks) = present ks
present (some k ∷ ks) = k ∷ present ks

unfoldable pub is_consistent : ConstraintDb → Bool
is_consistent db =
    let geofences = map (λ f. f.id) db.geofences in
    let details = map (λ d. d.id) db.details in
    let references = map (λ r. r.id) db.references in
    distinct geofences
    && distinct details
    && distinct references
    && distinct (present (map (λ d. d.geofence_id) db.details))
    && distinct (present (map (λ r. r.geofence_id) db.references))
    && all (λ k. elem k geofences) (present (map (λ d. d.geofence_id) db.details))
    && all (λ k. elem k geofences) (present (map (λ r. r.geofence_id) db.references))
    && all (λ c. elem c.constraint_reference_id references && elem c.constraint_detail_id details)
        db.composites

-- `flush`: the object is given back, or the database refuses and the session is rolled back.
unfoldable pub flush : {A : Type 0} → A → Write A
unfolding is_consistent
flush obj db = if is_consistent db then ok (obj, db) else raise integrity_error
