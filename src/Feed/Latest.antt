-- ===== src/Feed/Latest.antt =====
-- The observations that are kept of a reading: the latest one of each aircraft (`put_latest`).
use flight_blender.Prelude.{
  ap, ◌∙◌, ◌⊎◌, ◌≤◌, ◌≡◌, refl, Bool, true, false, Option, none, some, String, List, [], ◌∷◌, arith,
  ltb, if◌then◌else◌, find, str_eq, eq_iff, All, inl, inr, Bool-cases, any,
}
use flight_blender.Feed.Tables.{ObservationRow}
use flight_blender.Feed.Readings.{put_latest, latest_observations}

abbrev pub of : String → ObservationRow → Bool
of icao r = str_eq r.icao_address icao

-- The later of what was kept and a new observation of the aircraft.
abbrev pub later : Option ObservationRow → ObservationRow → ObservationRow
later none o = o
later (some k) o = if ltb k.created_at o.created_at then o else k

-- The first of the latest observations of an aircraft, after one that was kept.
abbrev pub latest_of : String → Option ObservationRow → List ObservationRow → Option ObservationRow
latest_of icao kept [] = kept
latest_of icao kept (o ∷ os) = latest_of icao (if of icao o then some (later kept o) else kept) os

find-put_latest :
    (icao : String) (o : ObservationRow) (ks : List ObservationRow)
    → find (of icao) (put_latest o ks)
      ≡ (if of icao o then some (later (find (of icao) ks) o) else find (of icao) ks)
unfolding put_latest
find-put_latest icao o [] = ground arith
find-put_latest icao o (k ∷ ks) = ground (
  arith,
  eq_iff k.icao_address o.icao_address,
  eq_iff k.icao_address icao,
  eq_iff o.icao_address icao,
  find-put_latest icao o ks,
)

pub latest_observations-latest_of :
    (icao : String) (kept os : List ObservationRow)
    → find (of icao) (latest_observations kept os) ≡ latest_of icao (find (of icao) kept) os
unfolding latest_observations
latest_observations-latest_of icao kept [] = refl
latest_observations-latest_of icao kept (o ∷ os) =
    latest_observations-latest_of icao (put_latest o kept) os
    ∙ ap (λ k. latest_of icao k os) (find-put_latest icao o kept)

abbrev pub Member : ObservationRow → List ObservationRow → Type 0
Member r [] = ⊥
Member r (x ∷ xs) = (x ≡ r) ⊎ Member r xs

-- No observation of the aircraft is later.
abbrev pub NoneLater : String → ObservationRow → List ObservationRow → Type 0
NoneLater icao r os = All (λ o. of icao o ≡ true → o.created_at ≤ r.created_at) os

-- What a reading keeps for an aircraft: nothing where it has no observation, or else one of its
-- observations, none of which is later.
abbrev pub IsLatest : String → List ObservationRow → Option ObservationRow → Type 0
IsLatest icao os none = any (of icao) os ≡ false
IsLatest icao os (some r) = Member r os × (of icao r ≡ true) × NoneLater icao r os

latest_of-some :
    (icao : String) (k : ObservationRow) (os : List ObservationRow)
    → of icao k ≡ true
    → (r : ObservationRow) × (latest_of icao (some k) os ≡ some r)
      × ((k ≡ r) ⊎ Member r os)
      × (of icao r ≡ true)
      × (k.created_at ≤ r.created_at)
      × NoneLater icao r os
latest_of-some icao k [] mine = (k, refl, inl refl, mine, omega arith, tt)
latest_of-some icao k (o ∷ os) mine = elim (Bool-cases (of icao o)) [
  | inr other ↦
      let (r, e, from, ours, le, rest) = latest_of-some icao k os mine in
      rw other
        (r, e, elim from [ inl k ↦ inl k | inr m ↦ inr (inr m) ], ours, le, ((λ h. cc), rest))
  | inl same ↦ elim (Bool-cases (ltb k.created_at o.created_at)) [
    | inl newer ↦
        let (r, e, from, ours, le, rest) = latest_of-some icao o os same in
        rw (same, newer) (r, e, inr from, ours, ground arith, ((λ h. le), rest))
    | inr older ↦
        let (r, e, from, ours, le, rest) = latest_of-some icao k os mine in
        rw (same, older)
          (
            r,
            e,
            elim from [ inl k ↦ inl k | inr m ↦ inr (inr m) ],
            ours,
            le,
            ((λ h. ground arith), rest),
          )
  ]
]

-- An observation of another aircraft changes nothing.
IsLatest-skip :
    (icao : String) (o : ObservationRow) (os : List ObservationRow) (kept : Option ObservationRow)
    → of icao o ≡ false
    → IsLatest icao os kept
    → IsLatest icao (o ∷ os) kept
IsLatest-skip icao o os none other h = rw other h
IsLatest-skip icao o os (some r) other (from, ours, rest) = (inr from, ours, ((λ h. cc), rest))

latest_of-IsLatest :
    (icao : String) (os : List ObservationRow) → IsLatest icao os (latest_of icao none os)
latest_of-IsLatest icao [] = refl
latest_of-IsLatest icao (o ∷ os) = elim (Bool-cases (of icao o)) [
  | inl same ↦
      let (r, e, from, ours, le, rest) = latest_of-some icao o os same in
      rw (same, e) (elim from [ inl k ↦ inl k | inr m ↦ inr m ], ours, ((λ h. le), rest))
  | inr other ↦
      let skipped =
        IsLatest-skip icao o os (latest_of icao none os) other (latest_of-IsLatest icao os) in
      rw other skipped
]

-- For each aircraft, the observations that are kept of a reading have the latest one, if there is any.
pub latest_observations-IsLatest :
    (icao : String) (os : List ObservationRow)
    → IsLatest icao os (find (of icao) (latest_observations [] os))
latest_observations-IsLatest icao os =
    rw (latest_observations-latest_of icao [] os) (latest_of-IsLatest icao os)
