-- ===== src/Repositories/References.antt =====
-- `SQLAlchemyFlightDeclarationRepository` (repositories/flight_declarations_repo.py), the writes of the
-- operational intent references, by the columns that the modelled code reads.
use flight_blender.Prelude.{
  ℕ, Bool, true, false, not, ◌||◌, Option, none, some, String, [], ◌∷◌, ◌++◌, ◌==◌, find, is_some,
  if◌then◌else◌,
}
use flight_blender.Exceptions.{integrity_error}
use flight_blender.World.{OpintReference, Action, pure, throw, gets, ◌>>=◌, ◌>>◌}
use flight_blender.Repositories.Tables.{set_where}
use flight_blender.Repositories.Declarations.{has_id, modify_db}

pub record OpintReferencePayload : Type 0 where
  pub id : ℕ
  pub ovn : Option String
  pub state : String

unfoldable pub get_opint_reference_by_id : ℕ → Action (Option OpintReference)
get_opint_reference_by_id ref_id = gets λ w. find (λ r. r.id == ref_id) w.db.references

-- The id is the primary key, the declaration a foreign key and a unique column.
unfoldable pub create_opint_reference : ℕ → OpintReferencePayload → Action OpintReference
create_opint_reference declaration_id payload =
    gets (λ w.
      not (is_some (find (has_id declaration_id) w.db.declarations))
      || is_some (find (λ r. r.id == payload.id) w.db.references)
      || is_some (find (λ r. r.declaration_id == declaration_id) w.db.references))
    >>= λ refused.
        if refused
        then throw integrity_error
        else (let obj : OpintReference = record {
          id = payload.id;
          declaration_id = declaration_id;
          ovn = payload.ovn;
          state = payload.state;
        } in
            modify_db (λ db. record db { references = db.references ++ obj ∷ [] }) >> pure obj)

unfoldable pub update_opint_reference : ℕ → OpintReferencePayload → Action Bool
unfolding get_opint_reference_by_id
update_opint_reference ref_id payload = get_opint_reference_by_id ref_id >>= λ ref. elim ref [
  | none ↦ pure false
  | some r ↦
      modify_db (λ db. record db {
        references =
            set_where (λ x. x.id == ref_id)
              (λ x. record x { ovn = payload.ovn; state = payload.state }) db.references;
      })
      >> pure true
]

unfoldable pub update_opint_reference_ovn : ℕ → String → Action Bool
unfolding get_opint_reference_by_id
update_opint_reference_ovn ref_id ovn = get_opint_reference_by_id ref_id >>= λ ref. elim ref [
  | none ↦ pure false
  | some r ↦
      modify_db (λ db. record db {
        references =
            set_where (λ x. x.id == ref_id) (λ x. record x { ovn = some ovn }) db.references;
      })
      >> pure true
]
