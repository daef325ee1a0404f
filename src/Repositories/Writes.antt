-- ===== src/Repositories/Writes.antt =====
-- What each write of the repositories does to the world, where the declaration is known and where
-- it is not.
use flight_blender.Prelude.{
  ℕ, ◌≡◌, Bool, true, false, none, some, String, [], ◌∷◌, ◌++◌, arith, ◌==◌, find, if◌then◌else◌,
}
use flight_blender.Exceptions.{integrity_error, ok, raise}
use flight_blender.World.{Declaration, World}
use flight_blender.Repositories.Tables.{set_where, delete_where}
use flight_blender.Repositories.Declarations.{
  has_id, get_by_id, update, add_state_history_entry, delete,
}
use flight_blender.Repositories.Conformance.{create_conformance_record}

abbrev pub updated : ℕ → (Declaration → Declaration) → World → World
updated id fields w = record w {
  db = record (w.db) { declarations = set_where (has_id id) fields w.db.declarations };
}

abbrev pub tracked : ℕ → ℕ → ℕ → String → World → World
tracked id original_state new_state notes w = record w {
  db = record (w.db) {
    tracking =
        w.db.tracking
        ++ record {
          flight_declaration_id = id;
          original_state = if original_state == 0 then none else some original_state;
          new_state = new_state;
          notes = notes;
        }
          ∷ [];
  };
}

abbrev pub recorded : ℕ → ℕ → ℕ → String → String → Bool → Bool → World → World
recorded now id state event_type description geofence_breach resolved w = record w {
  db = record (w.db) {
    conformance_records =
        w.db.conformance_records
        ++ record {
          flight_declaration_id = id;
          conformance_state = state;
          event_type = event_type;
          description = description;
          geofence_breach = geofence_breach;
          resolved = resolved;
          created_at = now;
        }
          ∷ [];
  };
}

abbrev pub deleted : ℕ → World → World
deleted id w = record w {
  db = record (w.db) {
    declarations = delete_where (has_id id) w.db.declarations;
    tracking = delete_where (λ t. t.flight_declaration_id == id) w.db.tracking;
    conformance_records =
        delete_where (λ r. r.flight_declaration_id == id) w.db.conformance_records;
    references = delete_where (λ r. r.declaration_id == id) w.db.references;
  };
}

module _ (id : ℕ) (d : Declaration) (w : World)
    (known : find (has_id id) w.db.declarations ≡ some d) where
  pub get_by_id-known : get_by_id id w ≡ (ok (some d), w)
  unfolding get_by_id
  get_by_id-known = rw known

  pub update-known :
      (fields : Declaration → Declaration)
      → update id fields w ≡ (ok (some (fields d)), updated id fields w)
  unfolding update
  update-known fields = ground arith

  pub add_state_history_entry-known :
      (original_state new_state : ℕ) (notes : String)
      → add_state_history_entry id original_state new_state notes w
        ≡ (ok tt, tracked id original_state new_state notes w)
  unfolding add_state_history_entry
  add_state_history_entry-known original_state new_state notes = ground arith

  pub create_conformance_record-known :
      (now state : ℕ) (event_type description : String) (geofence_breach resolved : Bool)
      → create_conformance_record now id state event_type description geofence_breach resolved w
        ≡ (ok true, recorded now id state event_type description geofence_breach resolved w)
  unfolding create_conformance_record
  create_conformance_record-known now state event_type description geofence_breach resolved =
      ground arith

  pub delete-known : delete id w ≡ (ok true, deleted id w)
  unfolding delete
  delete-known = ground arith

module _ (id : ℕ) (w : World) (unknown : find (has_id id) w.db.declarations ≡ none) where
  pub get_by_id-unknown : get_by_id id w ≡ (ok none, w)
  unfolding get_by_id
  get_by_id-unknown = rw unknown

  pub update-unknown : (fields : Declaration → Declaration) → update id fields w ≡ (ok none, w)
  unfolding update
  update-unknown fields = ground arith

  pub delete-unknown : delete id w ≡ (ok false, w)
  unfolding delete
  delete-unknown = ground arith

  pub add_state_history_entry-unknown :
      (original_state new_state : ℕ) (notes : String)
      → add_state_history_entry id original_state new_state notes w ≡ (raise integrity_error, w)
  unfolding add_state_history_entry
  add_state_history_entry-unknown original_state new_state notes = ground arith

  pub create_conformance_record-unknown :
      (now state : ℕ) (event_type description : String) (geofence_breach resolved : Bool)
      → create_conformance_record now id state event_type description geofence_breach resolved w
        ≡ (raise integrity_error, w)
  unfolding create_conformance_record
  create_conformance_record-unknown now state event_type description geofence_breach resolved =
      ground arith
