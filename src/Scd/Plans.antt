-- ===== src/Scd/Plans.antt =====
-- The times and the outlines of the volumes of a flight plan that passes the checks of a creation.
use flight_blender.Prelude.{
  ℕ, ◌+◌, ◌≤◌, ◌≡◌, inl, inr, Bool, true, Option, none, some, List, [], ◌∷◌, arith, All, length,
  all, not, ltb,
}
use flight_blender.Exceptions.{Result-cases, Result, ok, ◌>>=◌, >>=-eq-ok, traverse}
use flight_blender.Json.{Json}
use flight_blender.Conformance.Volumes.{LatLngPoint, Volume4d}
use flight_blender.Scd.Volumes.{
  thirty_days, validate_polygon_vertices, validate_volume_start_end_date,
  validate_volume_times_within_limits_for_creation, pre_operational_intent_creation_checks,
  validate_volume, validate_volumes,
}

-- No outline, or one of three vertices or more
abbrev pub IsOutline : Option (List LatLngPoint) → Type 0
IsOutline none = Unit
IsOutline (some vertices) = 3 ≤ length vertices

vertices-IsOutline :
    (outline : Option (List LatLngPoint))
    → elim outline [ none ↦ true | some vertices ↦ not (ltb (length vertices) 3) ] ≡ true
    → IsOutline outline
vertices-IsOutline none h = tt
vertices-IsOutline (some vertices) h = ground arith

module _ (arrow_get : Json → Result ℕ) (now : ℕ) where
  -- A volume that starts from five seconds ago to thirty days ahead, and whose outline, where it has
  -- one, has three vertices or more.
  pub record IsPlannable (v : Volume4d) : Type 0 where
    pub start : ℕ
    pub read : arrow_get v.time_start.value ≡ ok start
    pub not_late : now ≤ start + 5000000
    pub not_early : start ≤ now + thirty_days
    pub outlined : IsOutline v.volume.outline_polygon

  -- A check of all members that passes passes for each.
  traverse-all :
      {A : Type 0} (check : A → Result Bool) (x : A) (xs : List A)
      → (traverse check (x ∷ xs) >>= λ bs. ok (all (λ b. b) bs)) ≡ ok true
      → (check x ≡ ok true) × ((traverse check xs >>= λ bs. ok (all (λ b. b) bs)) ≡ ok true)
  traverse-all check x xs h = elim (Result-cases (check x)) [
    | inl (b, e) ↦ elim (Result-cases (traverse check xs)) [
      | inl (bs, e') ↦ ground arith
      | inr (y, e') ↦ absurd (ground arith)
    ]
    | inr (y, e) ↦ absurd (ground arith)
  ]

  validate_polygon_vertices-IsOutline :
      (v : Volume4d) → validate_polygon_vertices v ≡ true → IsOutline v.volume.outline_polygon
  unfolding validate_polygon_vertices
  validate_polygon_vertices-IsOutline v h = vertices-IsOutline v.volume.outline_polygon h

  volume-IsPlannable :
      (v : Volume4d)
      → validate_volume arrow_get now v ≡ ok true
      → validate_volume_times_within_limits_for_creation arrow_get now v ≡ ok true
      → IsPlannable v
  unfolding validate_volume validate_volume_start_end_date
      validate_volume_times_within_limits_for_creation
  volume-IsPlannable v h k =
      let (in_time, e, h1) = >>=-eq-ok (validate_volume_start_end_date arrow_get now v) _ h in
      let (start, r, e1) = >>=-eq-ok (arrow_get v.time_start.value) _ e in
      let (start', r', k1) = >>=-eq-ok (arrow_get v.time_start.value) _ k in
      let same : start' ≡ start = cc in
      record {
        start = start;
        read = r;
        not_late = ground arith;
        not_early = ground arith;
        outlined = validate_polygon_vertices-IsOutline v (ground arith);
      }

  -- Where the two checks that a new flight plan goes through let its volumes pass, each volume starts
  -- at most five seconds ago and at most thirty days ahead, and its outline, where it has one, has
  -- three vertices or more.
  pub validated-IsPlannable :
      (volumes : List Volume4d)
      → validate_volumes arrow_get now volumes ≡ ok true
      → pre_operational_intent_creation_checks arrow_get now volumes ≡ ok true
      → All IsPlannable volumes
  unfolding validate_volumes pre_operational_intent_creation_checks
  validated-IsPlannable [] h k = tt
  validated-IsPlannable (v ∷ volumes) h k =
      let (a, h') = traverse-all (validate_volume arrow_get now) v volumes h in
      let (b, k') =
        traverse-all (validate_volume_times_within_limits_for_creation arrow_get now) v volumes k in
      (volume-IsPlannable v a b, validated-IsPlannable volumes h' k')
