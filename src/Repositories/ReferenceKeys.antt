-- ===== src/Repositories/ReferenceKeys.antt =====
-- What the writes of operational intent references do to the integrity of the tables.
use flight_blender.Prelude.{
  some, ◌⊎◌, arith, Bool-cases, refl, not, ◌||◌, ◌==◌, is_some, inr, inl, ℕ, ◌≡◌, Bool, String,
  find,
}
use flight_blender.Repositories.Tables.{set_where}
use flight_blender.World.{OpintReference, Db, World}
use flight_blender.Repositories.Declarations.{has_id}
use flight_blender.Repositories.References.{
  OpintReferencePayload, get_opint_reference_by_id, create_opint_reference, update_opint_reference,
  update_opint_reference_ovn,
}
use flight_blender.Repositories.Keys.{IsIntact, Refers-snoc, Refers-rewritten}

abbrev refused : ℕ → OpintReferencePayload → World → Bool
refused declaration_id payload w =
    not (is_some (find (has_id declaration_id) w.db.declarations))
    || is_some (find (λ (r : OpintReference). r.id == payload.id) w.db.references)
    || is_some (find (λ (r : OpintReference). r.declaration_id == declaration_id) w.db.references)

-- A reference is written only for a declaration that is there.
pub create_opint_reference-IsIntact :
    (declaration_id : ℕ) (payload : OpintReferencePayload) (w : World)
    → IsIntact w.db
    → IsIntact (create_opint_reference declaration_id payload w).1.db
unfolding create_opint_reference
create_opint_reference-IsIntact declaration_id payload w h =
    elim (Bool-cases (refused declaration_id payload w)) [
      | inl e ↦ rw e h
      | inr e ↦ rw e (record {
        unique = h.unique;
        tracked = h.tracked;
        recorded = h.recorded;
        referenced = Refers-snoc _ w.db.declarations _ w.db.references (ground arith) h.referenced;
      })
    ]

rewritten_references-IsIntact :
    (fits : OpintReference → Bool) (f : OpintReference → OpintReference)
    → ((r : OpintReference) → (f r).declaration_id ≡ r.declaration_id)
    → (db : Db) → IsIntact db
    → IsIntact (record db { references = set_where fits f db.references })
rewritten_references-IsIntact fits f same db h = record {
  unique = h.unique;
  tracked = h.tracked;
  recorded = h.recorded;
  referenced = Refers-rewritten _ db.declarations fits f same db.references h.referenced;
}

pub update_opint_reference-IsIntact :
    (ref_id : ℕ) (payload : OpintReferencePayload) (w : World)
    → IsIntact w.db
    → IsIntact (update_opint_reference ref_id payload w).1.db
unfolding update_opint_reference get_opint_reference_by_id
update_opint_reference-IsIntact ref_id payload w h = elim (written) [
  | inl e ↦ rw e h
  | inr e ↦ rw e (
      rewritten_references-IsIntact (λ x. x.id == ref_id)
        (λ x. record x { ovn = payload.ovn; state = payload.state }) (λ x. refl) w.db h)
]
  where
    written :
        ((update_opint_reference ref_id payload w).1.db ≡ w.db)
        ⊎ ((update_opint_reference ref_id payload w).1.db ≡ record w.db {
          references =
              set_where
                (λ x. x.id == ref_id)
                (λ x. record x { ovn = payload.ovn; state = payload.state })
                w.db.references;
        })
    written = ground arith

pub update_opint_reference_ovn-IsIntact :
    (ref_id : ℕ) (ovn : String) (w : World)
    → IsIntact w.db
    → IsIntact (update_opint_reference_ovn ref_id ovn w).1.db
unfolding update_opint_reference_ovn get_opint_reference_by_id
update_opint_reference_ovn-IsIntact ref_id ovn w h = elim (written) [
  | inl e ↦ rw e h
  | inr e ↦ rw e (
      rewritten_references-IsIntact (λ x. x.id == ref_id) (λ x. record x { ovn = some ovn })
        (λ x. refl) w.db h)
]
  where
    written :
        ((update_opint_reference_ovn ref_id ovn w).1.db ≡ w.db)
        ⊎ ((update_opint_reference_ovn ref_id ovn w).1.db ≡ record w.db {
          references =
              set_where (λ x. x.id == ref_id) (λ x. record x { ovn = some ovn }) w.db.references;
        })
    written = ground arith
