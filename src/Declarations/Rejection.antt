-- ===== src/Declarations/Rejection.antt =====
-- What follows from the result of a deconfliction, on every branch.
use flight_blender.Prelude.{
  ℕ, ◌≡◌, refl, false, ◌&&◌, some, [], ◌∷◌, ◌++◌, arith, find, ◌==◌, if◌then◌else◌,
}
use flight_blender.Exceptions.{ok}
use flight_blender.Domain.{Settings}
use flight_blender.World.{Declaration, World, submit_flight_declaration_to_dss}
use flight_blender.Repositories.Declarations.{has_id}
use flight_blender.Repositories.Lookup.{find-set_where_self}
use flight_blender.Repositories.Writes.{
  updated, tracked, update-known, add_state_history_entry-known,
}
use flight_blender.Declarations.Intersections.{
  DeconflictionResult, reject, rejection, process_intersection_result,
}

-- The declaration refused: its row and its history.
abbrev pub rejected : Declaration → ℕ → World → World
rejected fd state w =
    tracked fd.id fd.state state rejection
      (updated fd.id (λ d. record d { is_approved = false; state = state }) w)

pub reject-known :
    (fd d : Declaration) (state : ℕ) (w : World)
    → find (has_id fd.id) w.db.declarations ≡ some d
    → reject fd state w ≡ (ok tt, rejected fd state w)
unfolding reject
reject-known fd d state w known =
    let set_fields = λ (e : Declaration). record e { is_approved = false; state = state } in
    ground (
      arith,
      update-known fd.id d w known set_fields,
      add_state_history_entry-known fd.id (set_fields d) (updated fd.id set_fields w)
          (find-set_where_self set_fields (λ e. refl) fd.id d w.db.declarations known) fd.state
          state rejection,
    )

-- The result of a deconfliction is carried out: where the declaration is not approved, its row gets
-- the state of the result and its history the change, and else the tables stay as they are; it is
-- submitted to the DSS iff it is approved with the state 0, the network is enabled and submission is
-- automatic; and the answer repeats the result.
pub process_intersection_result-effects :
    (settings : Settings) (fd d : Declaration) (result : DeconflictionResult) (w : World)
    → find (has_id fd.id) w.db.declarations ≡ some d
    → let (r, w') = process_intersection_result settings fd result w in
      (w'.db ≡ (if result.is_approved then w.db else (rejected fd result.declaration_state w).db))
      × (w'.calls ≡ (
          if result.is_approved
            && result.declaration_state == 0
            && settings.ussp_network_enabled
            && settings.auto_submit_to_dss
          then w.calls ++ submit_flight_declaration_to_dss fd.id ∷ []
          else w.calls))
      × (r
          ≡ ok (record {
            id = fd.id;
            message = "Submitted Flight Declaration";
            is_approved = result.is_approved;
            state = result.declaration_state;
          }))
unfolding process_intersection_result
process_intersection_result-effects settings fd d result w known =
    ground (arith, reject-known fd d result.declaration_state w known)
