-- ===== src/Declarations/IntentOutcomes.antt =====
-- What becomes of an operational intent that is submitted, with and without an engine.
use flight_blender.Prelude.{
  ℕ, ◌≡◌, ◌⊎◌, inl, inr, Option, none, some, String, arith, find, if◌then◌else◌, Option-cases,
}
use flight_blender.Exceptions.{Exc, integrity_error, key_error, ok, raise, Result-cases}
use flight_blender.Json.{loads}
use flight_blender.Domain.{Settings}
use flight_blender.World.{Declaration, World}
use flight_blender.Repositories.Declarations.{has_id, create, add_state_history_entry}
use flight_blender.Repositories.Lookup.{find-append}
use flight_blender.Repositories.Writes.{tracked, add_state_history_entry-known}
use flight_blender.Declarations.Requests.{Body, created, message, Response, Externals}
use flight_blender.Declarations.Outcomes.{added}
use flight_blender.Declarations.Intersections.{DeconflictionResult}
use flight_blender.Declarations.Rejection.{rejected, process_intersection_result-effects}
use flight_blender.Declarations.SetIntent.{
  IntentRequest, IntentExternals, Engine, request_for, run_deconfliction, prepare_intent, refusal,
  row, answer_of, decide_intent, submit_intent, set_operational_intent,
}

-- The world after the row and its first history entry.
abbrev pub entered : Settings → Declaration → World → World
entered settings d w =
    tracked d.id 0 (if settings.ussp_network_enabled then 0 else 1) "Created Declaration"
      (added d w)

find-added :
    (d : Declaration) (w : World)
    → find (has_id d.id) w.db.declarations ≡ none
    → find (has_id d.id) (added d w).db.declarations ≡ some d
find-added d w free = ground (arith, find-append d.id d w.db.declarations)

entry-known :
    (settings : Settings) (d : Declaration) (w : World)
    → find (has_id d.id) w.db.declarations ≡ none
    → add_state_history_entry d.id 0
        (if settings.ussp_network_enabled then 0 else 1)
        "Created Declaration"
        (added d w)
      ≡ (ok tt, entered settings d w)
entry-known settings d w free =
    add_state_history_entry-known d.id d (added d w) (find-added d w free) 0
      (if settings.ussp_network_enabled then 0 else 1) "Created Declaration"

module _ {S : Type 0} (settings : Settings) (engine : Option (Engine S)) (d : Declaration)
    (w : World) (s : S) where
  -- A row whose id is free is written with its history before the deconfliction.
  submit_intent-free :
      find (has_id d.id) w.db.declarations ≡ none
      → submit_intent settings engine d (w, s)
        ≡ decide_intent settings engine d (entered settings d w, s)
  unfolding submit_intent create
  submit_intent-free free = ground (arith, entry-known settings d w free)

  submit_intent-taken :
      (old : Declaration)
      → find (has_id d.id) w.db.declarations ≡ some old
      → submit_intent settings engine d (w, s) ≡ (raise integrity_error, (w, s))
  unfolding submit_intent create
  submit_intent-taken old taken = ground arith

module _ {S : Type 0} (settings : Settings) (d : Declaration) (w : World) (s : S) where
  decide_intent-no_engine :
      let (r, ws') = decide_intent {S = S} settings none d (w, s) in
      ((e : Exc) × (r ≡ raise e)) × (ws' ≡ (w, s))
  unfolding decide_intent run_deconfliction
  decide_intent-no_engine = elim (Result-cases (loads d.flight_declaration_raw_geojson)) [
    | inl (geojson, e) ↦ ((key_error, ground arith), ground arith)
    | inr (x, e) ↦ ((x, ground arith), ground arith)
  ]

  -- With an engine, what is answered is what the engine found.
  decide_intent-engine :
      (check : Engine S) (answered : Response) (w' : World) (s' : S)
      → find (has_id d.id) w.db.declarations ≡ some d
      → decide_intent settings (some check) d (w, s) ≡ (ok answered, (w', s'))
      → (result : DeconflictionResult) × (check (request_for settings.ussp_network_enabled d) w.db s
          ≡ (ok result, s'))
        × (answered
            ≡ answer_of (record {
              id = d.id;
              message = "Submitted Flight Declaration";
              is_approved = result.is_approved;
              state = result.declaration_state;
            }))
        × (w'.db
            ≡ (if result.is_approved then w.db else (rejected d result.declaration_state w).db))
  unfolding decide_intent run_deconfliction
  decide_intent-engine check answered w' s' known h =
      let asked = check (request_for settings.ussp_network_enabled d) w.db s in
      elim (Result-cases (loads d.flight_declaration_raw_geojson)) [
        | inr (x, e) ↦ absurd (ground arith)
        | inl (geojson, e) ↦ elim (Result-cases asked.0) [
          | inr (x, e1) ↦ absurd (ground arith)
          | inl (result, e1) ↦
              let (db', calls', answer') =
                process_intersection_result-effects settings d d result w known in
              (result, ground arith, ground arith, ground arith)
        ]
      ]

-- With no engine configured a submitted intent is never answered: it is refused before anything is
-- written, or an exception is raised.
pub set_operational_intent-no_engine :
    {S : Type 0} (settings : Settings) (ext : Externals) (more : IntentExternals) (id : ℕ)
    (r : IntentRequest) (w : World) (s : S)
    → let (answered, ws') = set_operational_intent settings ext more none id r (w, s) in
      ((text : String) × (answered ≡ ok (message text, 400)) × (ws' ≡ (w, s)))
      ⊎ ((e : Exc) × (answered ≡ raise e))
unfolding set_operational_intent
set_operational_intent-no_engine settings ext more id r w s =
    elim (Result-cases (prepare_intent settings ext more id r)) [
      | inr (x, e) ↦ inr (x, ground arith)
      | inl (refusal text, e) ↦ inl (text, ground arith, ground arith)
      | inl (row d, e) ↦ elim (Option-cases (find (has_id d.id) w.db.declarations)) [
        | inr (old, e1) ↦
            inr (integrity_error, ground (arith, submit_intent-taken settings none d w s old e1))
        | inl e1 ↦
            let ((x, raised), kept) = decide_intent-no_engine settings d (entered settings d w) s in
            inr (x, ground (arith, submit_intent-free settings none d w s e1, raised))
      ]
    ]

-- An intent that is answered with 200 was prepared without a refusal and its id was free. Its row is
-- written with its first history entry, the engine has been asked about it and has answered, and the
-- row then has what the answer says: as it was where it is approved, and else refused with the state
-- of the answer.
pub set_operational_intent-decided :
    {S : Type 0} (settings : Settings) (ext : Externals) (more : IntentExternals) (check : Engine S)
    (id : ℕ) (r : IntentRequest) (body : Body) (w w' : World) (s s' : S)
    → set_operational_intent settings ext more (some check) id r (w, s) ≡ (ok (body, 200), (w', s'))
    → (d : Declaration) × (result : DeconflictionResult) × (prepare_intent settings ext more id r
        ≡ ok (row d))
      × (find (has_id d.id) w.db.declarations ≡ none)
      × (check (request_for settings.ussp_network_enabled d) (entered settings d w).db s
          ≡ (ok result, s'))
      × (body
          ≡ created (record {
            id = d.id;
            message = "Submitted Flight Declaration";
            is_approved = result.is_approved;
            state = result.declaration_state;
          }))
      × (w'.db ≡ (
          if result.is_approved
          then (entered settings d w).db
          else (rejected d result.declaration_state (entered settings d w)).db))
unfolding set_operational_intent
set_operational_intent-decided settings ext more check id r body w w' s s' h =
    elim (Result-cases (prepare_intent settings ext more id r)) [
      | inr (x, e) ↦ absurd (ground arith)
      | inl (refusal text, e) ↦ absurd (ground arith)
      | inl (row d, e) ↦ elim (Option-cases (find (has_id d.id) w.db.declarations)) [
        | inr (old, e1) ↦
            absurd (ground (arith, submit_intent-taken settings (some check) d w s old e1))
        | inl e1 ↦
            let (result, asked, body', db') =
              decide_intent-engine settings d (entered settings d w) s check (body, 200) w' s'
                (find-added d w e1)
                (ground (arith, submit_intent-free settings (some check) d w s e1)) in
            (d, result, e, e1, asked, ground arith, db')
      ]
    ]
