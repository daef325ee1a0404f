-- ===== src/Conformance/Receivers.antt =====
-- What a failed check does: the record, the history, the new state and the handlers, in one
-- transaction (`_process_telemetry_conformance_db_work` and its twin).
use flight_blender.Prelude.{
  Bool, ◌⊎◌, Bool-cases, str_eq, elem, ◌∙◌, ap, ℕ, ◌≡◌, refl, inl, inr, true, false, Option, none,
  some, String, [], ◌∷◌, arith, find,
}
use flight_blender.Exceptions.{Exc, Result, ok, raise}
use flight_blender.Domain.{Settings}
use flight_blender.World.{Db, session, Declaration, World}
use flight_blender.Repositories.Tables.{set_where}
use flight_blender.Repositories.Declarations.{has_id}
use flight_blender.Repositories.Lookup.{find-set_where_self, find-has_id}
use flight_blender.Repositories.Writes.{
  get_by_id-unknown, recorded, tracked, updated, get_by_id-known, update-known,
  add_state_history_entry-known, create_conformance_record-known,
}
use flight_blender.Conformance.Engine.{check_flight_operational_intent_reference_conformance}
use flight_blender.Conformance.Checks.{state_code}
use flight_blender.Conformance.Effects.{manage-keeps_tables, manage-returns}
use flight_blender.Conformance.Helper.{manage_operation_state_transition}
use flight_blender.Conformance.Signals.{
  opint_verdict, send_conformance_status_notification,
  process_opint_reference_non_conformance_message, process_conformance_db_work,
}

-- What a session leaves of the world `w` when its body has ended with `m`, whose tables are those of
-- `w3`; `raising` says whether the body may raise.
session-outcome :
    (m : Result (Unit {0}) × World) (w w3 : World) (raising : Bool)
    → m.1.db ≡ w3.db
    → m.1.messages ≡ w.messages
    → (raising ≡ false → m.0 ≡ ok tt)
    → let (r, w') = session (λ w0. m) w in
      (w'.messages ≡ w.messages)
      × (((r ≡ ok tt) × (w'.db ≡ w3.db))
          ⊎ ((raising ≡ true) × ((e : Exc) × (r ≡ raise e)) × (w'.db ≡ w.db)))
unfolding session
session-outcome (ok a, w') w w3 raising db messages safe = (messages, inl (refl, db))
session-outcome (raise e, w') w w3 true db messages safe = (messages, inr (refl, (e, refl), refl))
session-outcome (raise e, w') w w3 false db messages safe = absurd (ground (arith, safe refl))

module _ (settings : Settings) (now id code : ℕ) (description notes : String) (d : Declaration)
    (w : World) (known : find (has_id id) w.db.declarations ≡ some d) where
  known_by_own_id : find (has_id d.id) w.db.declarations ≡ some d
  known_by_own_id =
      ap (λ k. find (has_id k) w.db.declarations) (find-has_id id d w.db.declarations known) ∙ known

  -- The record of the check, the change in the history and the new state
  abbrev changed_state : ℕ → World
  changed_state new_state =
      updated d.id (λ e. record e { state = new_state })
        (tracked d.id d.state new_state notes
          (recorded now d.id code "deviation" description false false w))

  db_work-runs :
      (event : String) (new_state : ℕ)
      → process_conformance_db_work settings now id code description notes
          (some (event, new_state))
          w
        ≡ session
            (λ w0.
              manage_operation_state_transition settings id d.state new_state event
                (changed_state new_state))
            w
  unfolding process_conformance_db_work session
  db_work-runs event new_state =
      let known' = known_by_own_id in
      let w1 = recorded now d.id code "deviation" description false false w in
      let w2 = tracked d.id d.state new_state notes w1 in
      ground (
        arith,
        get_by_id-known id d w known,
        create_conformance_record-known d.id d w known' now code "deviation" description false
            false,
        add_state_history_entry-known d.id d w1 known' d.state new_state notes,
        update-known d.id d w2 known' (λ e. record e { state = new_state }),
      )

  -- A failed check of a known operation with a verdict sends no message itself. Either it returns, and
  -- the tables have in addition the record of the check, the change of state in the history and the new
  -- state; or the handler of the new state has raised, and the tables are as before. For the new
  -- states nonconforming and contingent, which the verdicts name, it returns.
  pub db_work-changes :
      (event : String) (new_state : ℕ)
      → let (r, w') =
          process_conformance_db_work settings now id code description notes
            (some (event, new_state))
            w in
        (w'.messages ≡ w.messages)
        × (((r ≡ ok tt)
              × (w'.db
                  ≡ (updated d.id
                      (λ e. record e { state = new_state })
                      (tracked d.id d.state new_state notes
                        (recorded now d.id code "deviation" description false false w))).db))
            ⊎ ((elem new_state (2 ∷ 5 ∷ 6 ∷ 7 ∷ []) ≡ true)
                × ((e : Exc) × (r ≡ raise e))
                × (w'.db ≡ w.db)))
  db_work-changes event new_state =
      let w3 = changed_state new_state in
      let m = manage_operation_state_transition settings id d.state new_state event w3 in
      let (db, messages) = manage-keeps_tables settings id d.state new_state event w3 in
      rw (db_work-runs event new_state) (
        session-outcome m w w3 (elem new_state (2 ∷ 5 ∷ 6 ∷ 7 ∷ [])) db messages
          (manage-returns settings id d.state new_state event w3))

  -- A failed check of a known operation without a verdict leaves only its record.
  pub db_work-records :
      process_conformance_db_work settings now id code description notes none w
      ≡ (ok tt, recorded now d.id code "deviation" description false false w)
  unfolding process_conformance_db_work session
  db_work-records = ground (
    arith,
    get_by_id-known id d w known,
    create_conformance_record-known d.id d w known_by_own_id now code "deviation" description false
        false,
  )

-- A failed check of an operation that is not there changes nothing.
pub db_work-unknown :
    (settings : Settings) (now id code : ℕ) (description notes : String)
    (change : Option (String × ℕ)) (w : World)
    → find (has_id id) w.db.declarations ≡ none
    → process_conformance_db_work settings now id code description notes change w ≡ (ok tt, w)
unfolding process_conformance_db_work session
db_work-unknown settings now id code description notes change w h =
    ground (arith, get_by_id-unknown id w h)

opint_check-dead :
    (settings : Settings) (now id : ℕ) (d : Declaration) (db : Db)
    → settings.ussp_network_enabled ≡ false
    → find (has_id id) db.declarations ≡ some d
    → elem d.state (2 ∷ 3 ∷ 4 ∷ []) ≡ false
    → check_flight_operational_intent_reference_conformance settings now db id ≡ 12
unfolding check_flight_operational_intent_reference_conformance
opint_check-dead settings now id d db off known dead = ground arith

-- The world after a notification, which is only sent where there is a broker.
abbrev notified : Settings → ℕ → String → World → World
notified settings id text w = (send_conformance_status_notification settings id text "error" w).1

abbrev set_contingent : Declaration → Declaration
set_contingent e = record e { state = 4 }

-- After a failed check with a verdict that no handler raises for, a known operation is in the new
-- state and otherwise as it was.
pub db_work-state :
    (settings : Settings) (now id code : ℕ) (description notes event : String) (new_state : ℕ)
    (d : Declaration) (w : World)
    → find (has_id id) w.db.declarations ≡ some d
    → elem new_state (2 ∷ 5 ∷ 6 ∷ 7 ∷ []) ≡ false
    → let (r, w') =
        process_conformance_db_work settings now id code description notes
          (some (event, new_state))
          w in
      find (has_id id) w'.db.declarations ≡ some (record d { state = new_state })
db_work-state settings now id code description notes event new_state d w known safe =
    let set_state = λ (e : Declaration). record e { state = new_state } in
    let (_, outcome) =
      db_work-changes settings now id code description notes d w known event new_state in
    elim outcome [
      | inl (_, db') ↦
          ap (λ (db : Db). find (has_id id) db.declarations) db'
          ∙ ap (λ k. find (has_id id) (set_where (has_id k) set_state w.db.declarations))
              (find-has_id id d w.db.declarations known)
          ∙ find-set_where_self set_state (λ e. refl) id d w.db.declarations known
      | inr (raises, _, _) ↦ absurd (ground arith)
    ]

-- Outside of a loop, the receiver of a failed authorisation check makes an operation contingent whose
-- authorisation has expired, whatever its state was.
expired_receiver :
    (settings : Settings) (now id : ℕ) (d : Declaration) (w : World)
    → find (has_id id) w.db.declarations ≡ some d
    → let (r, w') =
        process_opint_reference_non_conformance_message settings true false now id 12 w in
      find (has_id id) w'.db.declarations ≡ some (set_contingent d)
unfolding process_opint_reference_non_conformance_message state_code opint_verdict
    send_conformance_status_notification
expired_receiver settings now id d w known = elim (Bool-cases (str_eq settings.amqp_url "")) [
  | inl quiet ↦ ground (arith, work w known)
  | inr sent ↦ ground (
    arith,
    work (notified settings id "The authorization has been expired. You must stop operation" w),
  )
]
  where
    work :
        (w0 : World)
        → find (has_id id) w0.db.declarations ≡ some d
        → find
            (has_id id)
            (process_conformance_db_work settings now id 12
              "Flight Operational Intent Reference non-conformance detected: C10"
              "State changed by flight authorization checks: C10"
              (some ("flight_blender_confirms_contingent", 4))
              w0).1.db.declarations
          ≡ some (set_contingent d)
    work w0 k =
        db_work-state settings now id 12 _ _ "flight_blender_confirms_contingent" 4 d w0 k refl
