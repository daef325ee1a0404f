-- ===== src/Surveillance/Refinement.antt =====
-- The health of the sensors against its history: `update_sensor_health` over any sequence of calls.
use flight_blender.Prelude.{
  Bool-cases, inr, inl, Option-cases, ==_iff, ℕ, ◌≡◌, refl, ◌∙◌, ap, Bool, true, false, ◌&&◌,
  Option, none, some, String, List, [], ◌∷◌, ◌++◌, arith, ◌==◌, if◌then◌else◌, find, is_some,
  str_eq, eq_iff,
}
use mathlib.Core.Path.{fun_ext}
use flight_blender.Repositories.Tables.{set_where}
use flight_blender.Surveillance.Tables.{Sensor, SurveillanceDb}
use flight_blender.Surveillance.Repository.{
  update_sensor_health_status, get_sensor_by_id, get_sensor_health_record, log_change,
}
use flight_blender.Surveillance.Health.{
  update_sensor_health, is_valid_status, is_valid_recovery_type,
}
use flight_blender.Surveillance.Log.{
  View, IsConsistent, current, status_in, logged-snoc, current-snoc, current-set, announces-snoc,
}

abbrev pub is_known : SurveillanceDb → ℕ → Bool
is_known db s = is_some (get_sensor_by_id s db)

-- After a change: the tables agree, and the sensor has the new status.
abbrev Updated : ℕ → String → SurveillanceDb → SurveillanceDb → Type 0
Updated k status db db' =
    IsConsistent db'
    × (db'.sensors ≡ db.sensors)
    × ((s : ℕ) → current db'.healths s ≡ (if k == s then some status else current db.healths s))

module _ (now k : ℕ) (status : String) (recovery : Option String) (db : SurveillanceDb)
    (c : IsConsistent db) where
  update-new :
      (sensor : Sensor)
      → current db.healths k ≡ none
      → Updated k status db (
          log_change now k sensor status status recovery (record db {
            healths =
                db.healths ++ record { sensor_id = k; status = status; updated_at = now } ∷ [];
          }))
  unfolding log_change
  update-new sensor e = (
    record {
      agrees = λ s.
          rw (logged-snoc db.trackings _ s, c.agrees s, current-snoc db.healths k now s status e);
      announces = announces-snoc db.notifications db.trackings _ _ c.announces (rw (c.agrees k, e));
    },
    refl,
    λ s. current-snoc db.healths k now s status e,
  )

  update-changed :
      (sensor : Sensor) (old : String)
      → current db.healths k ≡ some old
      → Updated k status db (
          log_change now k sensor old status recovery (record db {
            healths =
                set_where
                  (λ h. h.sensor_id == k)
                  (λ h. record h { status = status; updated_at = now })
                  db.healths;
          }))
  unfolding log_change
  update-changed sensor old e = (
    record {
      agrees = λ s.
          rw (logged-snoc db.trackings _ s, c.agrees s, current-set db.healths k now s status, e);
      announces = announces-snoc db.notifications db.trackings _ _ c.announces (rw (c.agrees k, e));
    },
    refl,
    λ s. rw (current-set db.healths k now s status, e),
  )

  update-same : current db.healths k ≡ some status → Updated k status db db
  update-same e = (c, refl, λ s. ground (arith, ==_iff k s))

  -- Where the sensor is known, the new status is recorded, whatever the status was.
  update-Updated :
      is_known db k ≡ true
      → ((update_sensor_health_status now k status recovery db).0 ≡ true)
        × Updated k status db (update_sensor_health_status now k status recovery db).1
  unfolding update_sensor_health_status get_sensor_by_id get_sensor_health_record
  update-Updated known = elim (Option-cases (find (λ s. s.id == k) db.sensors)) [
    | inl e ↦ cc
    | inr (sensor, e) ↦ elim (Option-cases (find (λ h. h.sensor_id == k) db.healths)) [
      | inl fresh ↦
          rw (e, update_sensor_health_status, fresh) (refl, update-new sensor (ap status_in fresh))
      | inr (health, old) ↦ elim (Bool-cases (str_eq health.status status)) [
        | inl same ↦
            rw (e, update_sensor_health_status, old, same)
              (
                refl,
                update-same (ap status_in old ∙ ap some ((eq_iff health.status status).0 same)),
              )
        | inr differs ↦
            rw (e, update_sensor_health_status, old, differs)
              (refl, update-changed sensor health.status (ap status_in old))
      ]
    ]
  ]

update-unknown :
    (now k : ℕ) (status : String) (recovery : Option String) (db : SurveillanceDb)
    → is_known db k ≡ false
    → update_sensor_health_status now k status recovery db ≡ (false, db)
unfolding update_sensor_health_status get_sensor_by_id
update-unknown now k status recovery db unknown =
    elim (Option-cases (find (λ s. s.id == k) db.sensors)) [
      | inl e ↦ rw (e, update_sensor_health_status)
      | inr (sensor, e) ↦ cc
    ]

-- One request to change the health of a sensor, and the requests that are carried out.
pub record Change : Type 0 where
  pub now : ℕ
  pub sensor_id : ℕ
  pub new_status : String
  pub recovery_type : Option String

abbrev pub is_valid : Change → Bool
is_valid c = is_valid_status c.new_status && is_valid_recovery_type c.recovery_type

abbrev pub accepts : (ℕ → Bool) → Change → Bool
accepts known c = is_valid c && known c.sensor_id

abbrev pub apply : Change → SurveillanceDb → SurveillanceDb
apply c db = (update_sensor_health c.now c.sensor_id c.new_status c.recovery_type db).1

unfoldable pub run_changes : List Change → SurveillanceDb → SurveillanceDb
run_changes [] db = db
run_changes (c ∷ cs) db = run_changes cs (apply c db)

-- The same requests on a view: an accepted one sets the status of its sensor.
unfoldable pub replay : (ℕ → Bool) → List Change → View → View
replay known [] view = view
replay known (c ∷ cs) view =
    replay known cs (λ s. if accepts known c && c.sensor_id == s then some c.new_status else view s)

-- What one request does, on every branch: the reply's code, and the tables.
abbrev code_for : (ℕ → Bool) → Change → ℕ
code_for known c = if is_valid c then if known c.sensor_id then 200 else 404 else 400

apply-refused :
    (c : Change) (db : SurveillanceDb) → accepts (is_known db) c ≡ false → apply c db ≡ db
unfolding update_sensor_health
apply-refused c db refused =
    ground (arith, update-unknown c.now c.sensor_id c.new_status c.recovery_type db)

apply-accepted :
    (c : Change) (db : SurveillanceDb)
    → IsConsistent db
    → accepts (is_known db) c ≡ true
    → apply c db ≡ (update_sensor_health_status c.now c.sensor_id c.new_status c.recovery_type db).1
unfolding update_sensor_health
apply-accepted c db ok accepted =
    ground (arith, update-Updated c.now c.sensor_id c.new_status c.recovery_type db ok)

pub update_sensor_health-code :
    (c : Change) (db : SurveillanceDb)
    → IsConsistent db
    → (update_sensor_health c.now c.sensor_id c.new_status c.recovery_type db).0.1
      ≡ code_for (is_known db) c
unfolding update_sensor_health
update_sensor_health-code c db ok = ground (
  arith,
  update-Updated c.now c.sensor_id c.new_status c.recovery_type db ok,
  update-unknown c.now c.sensor_id c.new_status c.recovery_type db,
)

apply_lem :
    (c : Change) (db : SurveillanceDb)
    → IsConsistent db
    → IsConsistent (apply c db)
      × (is_known (apply c db) ≡ is_known db)
      × (current (apply c db).healths ≡ (λ s.
          if accepts (is_known db) c && c.sensor_id == s
          then some c.new_status
          else current db.healths s))
unfolding get_sensor_by_id
apply_lem c db ok = elim (Bool-cases (accepts (is_known db) c)) [
  | inl accepted ↦
      let (_, (consistent, sensors, view)) =
        update-Updated c.now c.sensor_id c.new_status c.recovery_type db ok (ground arith) in
      rw (apply-accepted c db ok accepted, accepted)
        (
          consistent,
          ap (λ ss. λ s. is_some (find (λ (x : Sensor). x.id == s) ss)) sensors,
          fun_ext view,
        )
  | inr refused ↦ rw (apply-refused c db refused, refused) (ok, refl, refl)
]

-- From consistent tables (the history's last status of each sensor is its current one, and there is one
-- notification for each row of the history, with the status before it), any sequence of requests ends
-- in consistent tables, in which each sensor has the status of the last request that was valid and
-- named a sensor of the table, as the replay of the requests has it.
pub run_refines :
    (cs : List Change) (db : SurveillanceDb)
    → IsConsistent db
    → IsConsistent (run_changes cs db)
      × ((s : ℕ)
          → current (run_changes cs db).healths s ≡ replay (is_known db) cs (current db.healths) s)
unfolding run_changes replay
run_refines [] db ok = (ok, λ s. refl)
run_refines (c ∷ cs) db ok =
    let (consistent, known, view) = apply_lem c db ok in
    rw (known, view) at (run_refines cs (apply c db) consistent)
