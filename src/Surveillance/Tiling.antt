-- ===== src/Surveillance/Tiling.antt =====
-- What the scan of a sensor's history finds in the time since the start of the window.
use flight_blender.Prelude.{
  Option-cases, neg_part, pos_part, eq_of_parts, ◌⊎◌, ℕ, ℤ, ◌+◌, ◌+ℤ◌, sub_ℕ, int_laws, ◌≤◌, ◌≡◌,
  refl, Bool, true, false, Option, none, some, String, List, [], ◌∷◌, ◌++◌, arith, if◌then◌else◌,
  length, length-append, map, inl, inr, Bool-cases, ap,
}
use flight_blender.Surveillance.Tables.{HealthTracking, SurveillanceDb}
use flight_blender.Surveillance.Repository.{
  get_health_tracking_records_for_sensor, get_sensor_status_before_time, is_failure,
}
use flight_blender.Surveillance.SensorMetrics.{
  Scan, is_operational, label_last, initial_scan, scan_record, scan, sum, metrics_of,
  calculate_sensor_health_metrics,
}

-- Whether the sensor fails after a record, by the record's status.
abbrev pub fails_after : Bool → HealthTracking → Bool
fails_after failing r =
    if is_failure r.status then true else if is_operational r.status then false else failing

abbrev pub fails_at_end : Bool → List HealthTracking → Bool
fails_at_end failing [] = failing
fails_at_end failing (r ∷ rs) = fails_at_end (fails_after failing r) rs

-- How often the sensor stops failing.
abbrev pub recoveries : Bool → List HealthTracking → ℕ
recoveries failing [] = 0
recoveries failing (r ∷ rs) =
    (if failing then if fails_after failing r then 0 else 1 else 0)
    + recoveries (fails_after failing r) rs

abbrev pub durations : List (ℤ × Option String) → List ℤ
durations is = map (λ i. i.0) is

-- The state of the scan at a moment: failing or operational since `last`, and everything before
-- accounted for.
abbrev pub Tiles : ℕ → Bool → Scan → Type 0
Tiles start_time failing s =
    (last : ℕ) × (s.current_failure_onset ≡ (if failing then some last else none))
    × (s.operational_start ≡ (if failing then none else some last))
    × (sum s.recovery_durations +ℤ sum (durations s.operational_intervals) ≡ sub_ℕ last start_time)

sum-snoc : (ds : List ℤ) (d : ℤ) → sum (ds ++ d ∷ []) ≡ sum ds +ℤ d
sum-snoc [] d = eq_of_parts _ _ (omega int_laws)
sum-snoc (e ∷ ds) d =
    let ih = sum-snoc ds d in eq_of_parts _ _ (omega (int_laws, ap pos_part ih, ap neg_part ih))

durations-snoc :
    (is : List (ℤ × Option String)) (d : ℤ) (t : Option String)
    → durations (is ++ (d, t) ∷ []) ≡ durations is ++ d ∷ []
durations-snoc [] d t = refl
durations-snoc (i ∷ is) d t = ap (λ ds. i.0 ∷ ds) (durations-snoc is d t)

durations-label_last :
    (t : Option String) (is : List (ℤ × Option String)) → durations (label_last t is) ≡ durations is
durations-label_last t [] = refl
durations-label_last t ((d, u) ∷ []) = refl
durations-label_last t (i ∷ j ∷ is) = ap (λ ds. i.0 ∷ ds) (durations-label_last t (j ∷ is))

-- A span from `last` to `now` is added to what is accounted for up to `last`.
module _ (start last now : ℕ) (a b : ℤ) (total : a +ℤ b ≡ sub_ℕ last start) where
  extend_left : (a +ℤ sub_ℕ now last) +ℤ b ≡ sub_ℕ now start
  extend_left = eq_of_parts _ _ (omega (int_laws, ap pos_part total, ap neg_part total))

  extend_right : a +ℤ (b +ℤ sub_ℕ now last) ≡ sub_ℕ now start
  extend_right = eq_of_parts _ _ (omega (int_laws, ap pos_part total, ap neg_part total))

scan_record-Tiles :
    (start_time : ℕ) (failing : Bool) (r : HealthTracking) (s : Scan)
    → Tiles start_time failing s
    → Tiles start_time (fails_after failing r) (scan_record r s)
unfolding scan_record
scan_record-Tiles start_time true r s (last, onset, begun, total) =
    elim (Bool-cases (is_failure r.status)) [
      | inl fails ↦ rw (fails, onset) (last, refl, begun, total)
      | inr ok ↦ elim (Bool-cases (is_operational r.status)) [
        | inl works ↦
            rw (ok, works, onset)
              (
                r.recorded_at,
                refl,
                refl,
                rw (sum-snoc, durations-label_last)
                    (extend_left start_time last r.recorded_at _ _ total),
              )
        | inr other ↦ rw (ok, other) (last, onset, begun, total)
      ]
    ]
scan_record-Tiles start_time false r s (last, onset, begun, total) =
    elim (Bool-cases (is_failure r.status)) [
      | inl fails ↦
          rw (fails, onset, begun)
            (
              r.recorded_at,
              refl,
              refl,
              rw (durations-snoc, sum-snoc) (extend_right start_time last r.recorded_at _ _ total),
            )
      | inr ok ↦ elim (Bool-cases (is_operational r.status)) [
        | inl works ↦ rw (ok, works, onset, begun) (last, refl, refl, total)
        | inr other ↦ rw (ok, other) (last, onset, begun, total)
      ]
    ]

scan_record-recoveries :
    (start_time : ℕ) (failing : Bool) (r : HealthTracking) (s : Scan)
    → Tiles start_time failing s
    → length (scan_record r s).recovery_durations
      ≡ length s.recovery_durations + recoveries failing (r ∷ [])
unfolding scan_record
scan_record-recoveries start_time true r s (last, onset, begun, total) =
    ground (arith, length-append s.recovery_durations (sub_ℕ r.recorded_at last ∷ []))
scan_record-recoveries start_time false r s (last, onset, begun, total) = ground arith

scan-Tiles_from :
    (start_time : ℕ) (failing : Bool) (rs : List HealthTracking) (s : Scan)
    → Tiles start_time failing s
    → Tiles start_time (fails_at_end failing rs) (scan rs s)
      × (length (scan rs s).recovery_durations
          ≡ length s.recovery_durations + recoveries failing rs)
unfolding scan
scan-Tiles_from start_time failing [] s h = (h, omega arith)
scan-Tiles_from start_time failing (r ∷ rs) s h =
    let (tiles, count) =
      scan-Tiles_from start_time (fails_after failing r) rs (scan_record r s)
        (scan_record-Tiles start_time failing r s h) in
    (tiles, omega (arith, count, scan_record-recoveries start_time failing r s h))

abbrev nothing : Scan
nothing = record {
  current_failure_onset = none;
  operational_start = none;
  recovery_durations = [];
  auto_recovery_durations = [];
  operational_intervals = [];
}

abbrev failing_at : ℕ → Scan
failing_at t = record nothing { current_failure_onset = some t }

abbrev working_at : ℕ → Scan
working_at t = record nothing { operational_start = some t }

abbrev pub IsKnown : String → Type 0
IsKnown s = (is_failure s ≡ true) ⊎ ((is_failure s ≡ false) × (is_operational s ≡ true))

pub scan-Tiles :
    (start_time : ℕ) (status : String) (rs : List HealthTracking)
    → IsKnown status
    → let s = scan rs (initial_scan start_time (some status)) in
      Tiles start_time (fails_at_end (is_failure status) rs) s
      × (length s.recovery_durations ≡ recoveries (is_failure status) rs)
unfolding initial_scan
scan-Tiles start_time status rs (inl fails) =
    let from : Tiles start_time true (failing_at start_time) =
      (start_time, refl, refl, eq_of_parts _ _ (omega int_laws)) in
    let (tiles, count) = scan-Tiles_from start_time true rs (failing_at start_time) from in
    rw fails (tiles, omega (arith, count))
scan-Tiles start_time status rs (inr (ok, works)) =
    let from : Tiles start_time false (working_at start_time) =
      (start_time, refl, refl, eq_of_parts _ _ (omega int_laws)) in
    let (tiles, count) = scan-Tiles_from start_time false rs (working_at start_time) from in
    rw (ok, works) (tiles, omega (arith, count))

-- The automatic recoveries are among the recoveries.
scan_record-automatic :
    (r : HealthTracking) (s : Scan)
    → length s.auto_recovery_durations ≤ length s.recovery_durations
    → length (scan_record r s).auto_recovery_durations ≤ length (scan_record r s).recovery_durations
unfolding scan_record
scan_record-automatic r s h = elim (Option-cases s.current_failure_onset) [
  | inl working ↦ ground arith
  | inr (onset, failing) ↦ ground (
    arith,
    length-append s.recovery_durations (sub_ℕ r.recorded_at onset ∷ []),
    length-append s.auto_recovery_durations (sub_ℕ r.recorded_at onset ∷ []),
  )
]

scan-automatic :
    (rs : List HealthTracking) (s : Scan)
    → length s.auto_recovery_durations ≤ length s.recovery_durations
    → length (scan rs s).auto_recovery_durations ≤ length (scan rs s).recovery_durations
unfolding scan
scan-automatic [] s h = h
scan-automatic (r ∷ rs) s h = scan-automatic rs (scan_record r s) (scan_record-automatic r s h)

initial_scan-automatic :
    (start_time : ℕ) (status : Option String)
    → length (initial_scan start_time status).auto_recovery_durations
      ≤ length (initial_scan start_time status).recovery_durations
unfolding initial_scan
initial_scan-automatic start_time none = omega arith
initial_scan-automatic start_time (some s) = ground arith

-- Where the status before the window is known, the failures that the metrics count are the recoveries
-- of the history, and the automatic and the manual ones are all of them.
pub calculate_sensor_health_metrics-counts :
    (id start_time end_time : ℕ) (identifier status : String) (db : SurveillanceDb)
    → IsKnown status
    → get_sensor_status_before_time id start_time db ≡ some status
    → let m = calculate_sensor_health_metrics id identifier start_time end_time db in
      (m.failure_count
        ≡ recoveries
            (is_failure status)
            (get_health_tracking_records_for_sensor id start_time end_time db))
      × (m.auto_recovery_count + m.manual_recovery_count ≡ m.failure_count)
unfolding calculate_sensor_health_metrics metrics_of
calculate_sensor_health_metrics-counts id start_time end_time identifier status db known before =
    let rs = get_health_tracking_records_for_sensor id start_time end_time db in
    rw before (
      (scan-Tiles start_time status rs known).1,
      omega (
        arith,
        scan-automatic rs (initial_scan start_time (some status))
            (initial_scan-automatic start_time (some status)),
      ),
    )
