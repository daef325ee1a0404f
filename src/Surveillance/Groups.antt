-- ===== src/Surveillance/Groups.antt =====
-- The fused observations put into groups by their aircraft.
use flight_blender.Prelude.{
  all, ◌≡◌, refl, ap, sym, ◌∙◌, inl, inr, Bool, true, false, not, Bool-cases, String, str_eq,
  eq_iff, List, [], ◌∷◌, ◌++◌, select, if◌then◌else◌, arith,
}
use mathlib.Core.List.{append_assoc, append-nil}
use flight_blender.Feed.Tables.{Observation}
use flight_blender.Surveillance.Tracks.{append_observation, group_from}

-- The observations of an aircraft in a group
abbrev pub of_group : String → String × List Observation → List Observation
of_group a (k, os) = if str_eq k a then os else []

-- The groups that the observations are put into
abbrev pub of_groups : String → List (String × List Observation) → List Observation
of_groups a [] = []
of_groups a (g ∷ groups) = of_group a g ++ of_groups a groups

-- The groups have each aircraft once.
abbrev absent : String → List (String × List Observation) → Bool
absent a groups = all (λ g. not (str_eq g.0 a)) groups

abbrev pub IsGrouped : List (String × List Observation) → Type 0
IsGrouped [] = Unit
IsGrouped ((k, os) ∷ groups) = (absent k groups ≡ true) × IsGrouped groups

of_groups-absent :
    (a : String) (groups : List (String × List Observation))
    → absent a groups ≡ true
    → of_groups a groups ≡ []
of_groups-absent a [] h = refl
of_groups-absent a ((k, os) ∷ groups) h = ground (arith, of_groups-absent a groups)

append_observation-absent :
    (k : String) (o : Observation) (groups : List (String × List Observation))
    → absent k groups ≡ true
    → str_eq o.icao_address k ≡ false
    → absent k (append_observation o groups) ≡ true
unfolding append_observation
append_observation-absent k o [] h e = ground arith
append_observation-absent k o ((j, os) ∷ groups) h e =
    ground (arith, append_observation-absent k o groups)

str_eq_comm : (a b : String) → str_eq a b ≡ str_eq b a
str_eq_comm a b = elim (Bool-cases (str_eq a b)) [
  | inl e ↦ e ∙ sym ((eq_iff b a).1 (sym ((eq_iff a b).0 e)))
  | inr e ↦ elim (Bool-cases (str_eq b a)) [
    | inl f ↦ let g = (eq_iff a b).1 (sym ((eq_iff b a).0 f)) in cc
    | inr f ↦ e ∙ sym f
  ]
]

append_observation-IsGrouped :
    (o : Observation) (groups : List (String × List Observation))
    → IsGrouped groups
    → IsGrouped (append_observation o groups)
unfolding append_observation
append_observation-IsGrouped o [] h = (refl, tt)
append_observation-IsGrouped o ((k, os) ∷ groups) h = elim (Bool-cases (str_eq k o.icao_address)) [
  | inl e ↦ rw e h
  | inr e ↦ rw e (
    append_observation-absent k o groups h.0 (str_eq_comm o.icao_address k ∙ e),
    append_observation-IsGrouped o groups h.1,
  )
]

hit_group :
    (a : String) (o : Observation) (k : String) (os : List Observation)
    (groups : List (String × List Observation))
    → k ≡ o.icao_address
    → absent k groups ≡ true
    → of_group a (k, os ++ o ∷ []) ++ of_groups a groups
      ≡ of_group a (k, os) ++ of_groups a groups ++ (if str_eq o.icao_address a then o ∷ [] else [])
hit_group a o k os groups e h =
    let key : str_eq o.icao_address a ≡ str_eq k a = ap (λ i. str_eq i a) (sym e) in
    elim (Bool-cases (str_eq k a)) [
      | inl f ↦
          let none_left : of_groups a groups ≡ [] =
            of_groups-absent a groups (ap (λ i. absent i groups) (sym ((eq_iff k a).0 f)) ∙ h) in
          rw (key, f, none_left, append-nil (os ++ o ∷ []), append-nil os) refl
      | inr f ↦ rw (key, f) (sym (append-nil (of_groups a groups)))
    ]

-- An observation goes to the end of those of its aircraft.
of_groups-append :
    (a : String) (o : Observation) (groups : List (String × List Observation))
    → IsGrouped groups
    → of_groups a (append_observation o groups)
      ≡ of_groups a groups ++ (if str_eq o.icao_address a then o ∷ [] else [])
unfolding append_observation
of_groups-append a o [] h = append-nil (of_group a (o.icao_address, o ∷ []))
of_groups-append a o ((k, os) ∷ groups) h = elim (Bool-cases (str_eq k o.icao_address)) [
  | inl e ↦ rw e (hit_group a o k os groups ((eq_iff k o.icao_address).0 e) h.0)
  | inr e ↦ rw e (
      ap (λ r. of_group a (k, os) ++ r) (of_groups-append a o groups h.1)
      ∙ sym (
          append_assoc (of_group a (k, os)) (of_groups a groups)
            (if str_eq o.icao_address a then o ∷ [] else [])))
]

select-cons :
    (a : String) (o : Observation) (os : List Observation)
    → (if str_eq o.icao_address a then o ∷ [] else []) ++ select (λ o. str_eq o.icao_address a) os
      ≡ select (λ o. str_eq o.icao_address a) (o ∷ os)
select-cons a o os = ground arith

pub of_groups-group_from :
    (a : String) (os : List Observation) (groups : List (String × List Observation))
    → IsGrouped groups
    → of_groups a (group_from os groups)
      ≡ of_groups a groups ++ select (λ o. str_eq o.icao_address a) os
unfolding group_from
of_groups-group_from a [] groups h = sym (append-nil (of_groups a groups))
of_groups-group_from a (o ∷ os) groups h =
    of_groups-group_from a os (append_observation o groups)
      (append_observation-IsGrouped o groups h)
    ∙ ap (λ r. r ++ select (λ o. str_eq o.icao_address a) os) (of_groups-append a o groups h)
    ∙ append_assoc (of_groups a groups) (if str_eq o.icao_address a then o ∷ [] else [])
        (select (λ o. str_eq o.icao_address a) os)
    ∙ ap (λ r. of_groups a groups ++ r) (select-cons a o os)
