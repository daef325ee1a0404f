-- ===== src/Surveillance/Log.antt =====
-- What the tables say of the health of the sensors: the status of each, in the table of the current
-- health and in the history.
use flight_blender.Prelude.{
  ℕ, ◌≡◌, refl, Option, none, some, String, List, [], ◌∷◌, ◌++◌, arith, ◌==◌, if◌then◌else◌, find,
  map,
}
use mathlib.Core.List.{append-nil, append_assoc, map-append}
use flight_blender.Repositories.Tables.{set_where}
use flight_blender.Surveillance.Tables.{
  SensorHealth, HealthTracking, FailureNotification, SurveillanceDb,
}

-- What a client sees of the health: the status of each sensor.
abbrev pub View : Type 0
View = ℕ → Option String

abbrev pub status_in : Option SensorHealth → Option String
status_in none = none
status_in (some h) = some h.status

abbrev pub current : List SensorHealth → View
current healths s = status_in (find (λ h. h.sensor_id == s) healths)

-- The status that the last row of the history gives a sensor.
abbrev pub logged : List HealthTracking → View
logged [] s = none
logged (t ∷ ts) s = elim (logged ts s) [
  | none ↦ if t.sensor_id == s then some t.status else none
  | some status ↦ some status
]

-- The notifications that a history calls for: each row with the status before it, which is its own
-- status where there is none.
abbrev pub Notice : Type 0
Notice = ℕ × String × String

abbrev pub notice_after : List HealthTracking → HealthTracking → Notice
notice_after earlier t =
    (t.sensor_id, elim (logged earlier t.sensor_id) [ none ↦ t.status | some p ↦ p ], t.status)

abbrev pub announced : List HealthTracking → List HealthTracking → List Notice
announced earlier [] = []
announced earlier (t ∷ ts) = notice_after earlier t ∷ announced (earlier ++ t ∷ []) ts

abbrev pub notice_of : FailureNotification → Notice
notice_of n = (n.sensor_id, n.previous_status, n.new_status)

pub record IsConsistent (db : SurveillanceDb) : Type 0 where
  pub agrees : (s : ℕ) → logged db.trackings s ≡ current db.healths s
  pub announces : map notice_of db.notifications ≡ announced [] db.trackings

pub logged-snoc :
    (ts : List HealthTracking) (t : HealthTracking) (s : ℕ)
    → logged (ts ++ t ∷ []) s ≡ (if t.sensor_id == s then some t.status else logged ts s)
logged-snoc [] t s = refl
logged-snoc (u ∷ ts) t s = ground (arith, logged-snoc ts t s)

pub current-snoc :
    (hs : List SensorHealth) (k now s : ℕ) (status : String)
    → current hs k ≡ none
    → current (hs ++ record { sensor_id = k; status = status; updated_at = now } ∷ []) s
      ≡ (if k == s then some status else current hs s)
current-snoc [] k now s status e = ground arith
current-snoc (x ∷ hs) k now s status e = ground (arith, current-snoc hs k now s status)

-- The rows of one sensor get the status; the others keep theirs.
pub current-set :
    (hs : List SensorHealth) (k now s : ℕ) (status : String)
    → current
        (set_where (λ h. h.sensor_id == k) (λ h. record h { status = status; updated_at = now }) hs)
        s
      ≡ (if k == s
          then elim (current hs k) [ none ↦ none | some old ↦ some status ]
          else current hs s)
current-set [] k now s status = ground arith
current-set (x ∷ hs) k now s status = ground (arith, current-set hs k now s status)

announced-snoc :
    (earlier ts : List HealthTracking) (t : HealthTracking)
    → announced earlier (ts ++ t ∷ []) ≡ announced earlier ts ++ notice_after (earlier ++ ts) t ∷ []
announced-snoc earlier [] t = simp append-nil
announced-snoc earlier (u ∷ ts) t = simp (announced-snoc (earlier ++ u ∷ []) ts t, append_assoc)

pub announces-snoc :
    (ns : List FailureNotification) (ts : List HealthTracking) (n : FailureNotification)
    (t : HealthTracking)
    → map notice_of ns ≡ announced [] ts
    → notice_of n ≡ notice_after ts t
    → map notice_of (ns ++ n ∷ []) ≡ announced [] (ts ++ t ∷ [])
announces-snoc ns ts n t told one = rw (map-append, announced-snoc [] ts t, told, one)
