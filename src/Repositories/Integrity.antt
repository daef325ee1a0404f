-- ===== src/Repositories/Integrity.antt =====
-- The integrity of the tables of declarations, history, references and conformance records, over the
-- keys and cascades that the database enforces.
use flight_blender.Prelude.{inr, inl, Option-cases, ℕ, ◌≡◌, Bool, String, find}
use flight_blender.World.{Declaration, World}
use flight_blender.Repositories.Declarations.{
  has_id, create, update, add_state_history_entry, delete,
}
use flight_blender.Repositories.Conformance.{create_conformance_record}
use flight_blender.Repositories.References.{
  OpintReferencePayload, create_opint_reference, update_opint_reference, update_opint_reference_ovn,
}
use flight_blender.Repositories.Writes.{
  update-known, update-unknown, delete-known, delete-unknown, add_state_history_entry-known,
  add_state_history_entry-unknown,
}
use flight_blender.Repositories.Keys.{
  IsIntact, Refers-append, Refers-snoc, Refers-delete, Refers-set_where, IsUnique-append,
  IsUnique-delete, IsUnique-set_where,
}

-- Creating a declaration keeps the tables intact, whether the id is free or the row is refused.
pub create-IsIntact : (d : Declaration) (w : World) → IsIntact w.db → IsIntact (create d w).1.db
unfolding create
create-IsIntact d w h = elim (Option-cases (find (has_id d.id) w.db.declarations)) [
  | inl free ↦ rw (free) (record {
    unique = IsUnique-append d w.db.declarations free h.unique;
    tracked = Refers-append _ w.db.declarations d w.db.tracking h.tracked;
    recorded = Refers-append _ w.db.declarations d w.db.conformance_records h.recorded;
    referenced = Refers-append _ w.db.declarations d w.db.references h.referenced;
  })
  | inr (e, taken) ↦ rw taken h
]

module _ (id : ℕ) (w : World) where
  -- An update that does not touch the id keeps the tables intact, whether the row is there or not.
  pub update-IsIntact :
      (f : Declaration → Declaration)
      → ((d : Declaration) → (f d).id ≡ d.id)
      → IsIntact w.db
      → IsIntact (update id f w).1.db
  update-IsIntact f keeps_id h = elim (Option-cases (find (has_id id) w.db.declarations)) [
    | inl e ↦ rw (update-unknown id w e f) h
    | inr (d, e) ↦ rw (update-known id d w e f) (record {
      unique = IsUnique-set_where f keeps_id id w.db.declarations h.unique;
      tracked = Refers-set_where _ f keeps_id id w.db.declarations w.db.tracking h.tracked;
      recorded =
          Refers-set_where _ f keeps_id id w.db.declarations w.db.conformance_records h.recorded;
      referenced = Refers-set_where _ f keeps_id id w.db.declarations w.db.references h.referenced;
    })
  ]

  -- Deleting a declaration keeps the tables intact: the rows that refer to it go too.
  pub delete-IsIntact : IsIntact w.db → IsIntact (delete id w).1.db
  delete-IsIntact h = elim (Option-cases (find (has_id id) w.db.declarations)) [
    | inl e ↦ rw (delete-unknown id w e) h
    | inr (d, e) ↦ rw (delete-known id d w e) (record {
      unique = IsUnique-delete id w.db.declarations h.unique;
      tracked = Refers-delete _ id w.db.declarations w.db.tracking h.tracked;
      recorded = Refers-delete _ id w.db.declarations w.db.conformance_records h.recorded;
      referenced = Refers-delete _ id w.db.declarations w.db.references h.referenced;
    })
  ]

  -- A history entry is written only for a declaration that is there, and keeps the tables intact.
  pub add_state_history_entry-IsIntact :
      (original_state new_state : ℕ) (notes : String)
      → IsIntact w.db
      → IsIntact (add_state_history_entry id original_state new_state notes w).1.db
  add_state_history_entry-IsIntact original_state new_state notes h =
      elim (Option-cases (find (has_id id) w.db.declarations)) [
        | inl e ↦ rw (add_state_history_entry-unknown id w e original_state new_state notes) h
        | inr (d, e) ↦
            rw (add_state_history_entry-known id d w e original_state new_state notes) (record {
              unique = h.unique;
              tracked = Refers-snoc _ w.db.declarations _ w.db.tracking (rw e) h.tracked;
              recorded = h.recorded;
              referenced = h.referenced;
            })
      ]

-- The writes of declarations, of their history and references, and of conformance records, one after
-- the other in any order, those that are refused included.
pub data Write (w : World) (w' : World) : Type 0 where
  creates : (d : Declaration) → w' ≡ (create d w).1 → Write w w'
  updates :
      (id : ℕ) (f : Declaration → Declaration)
      → ((d : Declaration) → (f d).id ≡ d.id)
      → w' ≡ (update id f w).1
      → Write w w'
  deletes : (id : ℕ) → w' ≡ (delete id w).1 → Write w w'
  tracks :
      (id original_state new_state : ℕ) (notes : String)
      → w' ≡ (add_state_history_entry id original_state new_state notes w).1
      → Write w w'
  records :
      (now id state : ℕ) (event_type description : String) (geofence_breach resolved : Bool)
      → w'
        ≡ (create_conformance_record now id state event_type description geofence_breach resolved
            w).1
      → Write w w'
  creates_reference :
      (declaration_id : ℕ) (payload : OpintReferencePayload)
      → w' ≡ (create_opint_reference declaration_id payload w).1
      → Write w w'
  updates_reference :
      (ref_id : ℕ) (payload : OpintReferencePayload)
      → w' ≡ (update_opint_reference ref_id payload w).1
      → Write w w'
  updates_ovn :
      (ref_id : ℕ) (ovn : String) → w' ≡ (update_opint_reference_ovn ref_id ovn w).1 → Write w w'

pub data Writes (w : World) : World → Type 0 where
  here : Writes w w
  next : {u v : World} → Writes w u → Write u v → Writes w v
