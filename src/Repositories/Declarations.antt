-- ===== src/Repositories/Declarations.antt =====
-- `SQLAlchemyFlightDeclarationRepository` (repositories/flight_declarations_repo.py), the operations
-- on the declarations and on their history of states.
use flight_blender.Prelude.{
  ℕ, Bool, true, false, not, ◌&&◌, ◌||◌, Option, none, some, String, List, [], ◌∷◌, ◌++◌, ◌==◌, leb,
  if◌then◌else◌, find, select, is_some, is_empty, elem,
}
use flight_blender.Exceptions.{integrity_error, ok, raise}
use flight_blender.Domain.{active_operational_states}
use flight_blender.World.{
  Declaration, OpintReference, Db, Action, pure, throw, gets, modify, ◌>>=◌, ◌>>◌,
}
use flight_blender.Repositories.Tables.{order_by_desc, set_where, delete_where}

abbrev pub has_id : ℕ → Declaration → Bool
has_id id d = d.id == id

abbrev pub modify_db : (Db → Db) → Action (Unit {0})
modify_db f = modify λ w. record w { db = f w.db }

-- The row with the given id. The id is the primary key.
unfoldable pub get_by_id : ℕ → Action (Option Declaration)
get_by_id declaration_id = gets λ w. find (has_id declaration_id) w.db.declarations

-- The `WHERE` clause of the search for conflicting declarations.
unfoldable pub is_active_in_window : ℕ → ℕ → Option ℕ → Declaration → Bool
is_active_in_window start_datetime end_datetime exclude d =
    elem d.state active_operational_states
    && leb d.start_datetime end_datetime
    && leb start_datetime d.end_datetime
    && elim exclude [ none ↦ true | some id ↦ not (d.id == id) ]

unfoldable pub get_active_declarations_overlapping_time_window :
    ℕ → ℕ → Option ℕ → Action (List Declaration)
unfolding is_active_in_window
get_active_declarations_overlapping_time_window start_datetime end_datetime exclude =
    gets λ w. select (is_active_in_window start_datetime end_datetime exclude) w.db.declarations

-- The insertion of a row whose id is taken is refused by the database.
unfoldable pub create : Declaration → Action Declaration
create d w =
    if is_some (find (has_id d.id) w.db.declarations)
    then (raise integrity_error, w)
    else (ok d, record w { db = record (w.db) { declarations = w.db.declarations ++ d ∷ [] } })

-- The `WHERE` clause of `list`: `states` filters only where it is a list with a member.
unfoldable pub is_listed : Option ℕ → Option ℕ → Option (List ℕ) → Declaration → Bool
is_listed start_date end_date states d =
    elim start_date [ none ↦ true | some s ↦ leb s d.start_datetime ]
    && elim end_date [ none ↦ true | some e ↦ leb d.end_datetime e ]
    && elim states [ none ↦ true | some xs ↦ is_empty xs || elem d.state xs ]

unfoldable pub list : Option ℕ → Option ℕ → Option (List ℕ) → Action (List Declaration)
unfolding is_listed
list start_date end_date states = gets λ w.
    order_by_desc (λ d. d.created_at)
      (select (is_listed start_date end_date states) w.db.declarations)

-- `update`: the fields that are set are a function on the row.
unfoldable pub update : ℕ → (Declaration → Declaration) → Action (Option Declaration)
unfolding get_by_id
update declaration_id fields = get_by_id declaration_id >>= λ found. elim found [
  | none ↦ pure none
  | some d ↦
      modify_db (λ db. record db {
        declarations = set_where (has_id declaration_id) fields db.declarations;
      })
      >> pure (some (fields d))
]

-- The original state 0 is falsy, so it is written as the word "start". The declaration is a foreign
-- key.
unfoldable pub add_state_history_entry : ℕ → ℕ → ℕ → String → Action (Unit {0})
unfolding get_by_id
add_state_history_entry declaration_id original_state new_state notes =
    get_by_id declaration_id >>= λ found. elim found [
      | none ↦ throw integrity_error
      | some d ↦ modify_db λ db. record db {
        tracking =
            db.tracking
            ++ record {
              flight_declaration_id = declaration_id;
              original_state = if original_state == 0 then none else some original_state;
              new_state = new_state;
              notes = notes;
            }
              ∷ [];
      }
    ]

-- The rows that refer to a declaration go with it (`ondelete="CASCADE"`).
unfoldable pub delete : ℕ → Action Bool
unfolding get_by_id
delete declaration_id = get_by_id declaration_id >>= λ found. elim found [
  | none ↦ pure false
  | some d ↦
      modify_db (λ db. record db {
        declarations = delete_where (has_id declaration_id) db.declarations;
        tracking = delete_where (λ t. t.flight_declaration_id == declaration_id) db.tracking;
        conformance_records =
            delete_where (λ r. r.flight_declaration_id == declaration_id) db.conformance_records;
        references = delete_where (λ r. r.declaration_id == declaration_id) db.references;
      })
      >> pure true
]

-- `now` is the time that `datetime.now` reads.
unfoldable pub update_telemetry_timestamp : ℕ → ℕ → Action Bool
unfolding update
update_telemetry_timestamp now declaration_id =
    update declaration_id (λ d. record d { latest_telemetry_datetime = some now }) >>= λ found.
    pure (is_some found)

unfoldable pub get_opint_reference_by_declaration_id : ℕ → Action (Option OpintReference)
get_opint_reference_by_declaration_id declaration_id =
    gets λ w. find (λ r. r.declaration_id == declaration_id) w.db.references
