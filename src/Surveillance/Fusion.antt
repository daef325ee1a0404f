-- ===== src/Surveillance/Fusion.antt =====
-- What the fusion of tracks makes of the observations.
use flight_blender.Prelude.{
  ℕ, ◌≡◌, refl, ap, sym, ◌∙◌, inl, inr, Bool, true, false, Bool-cases, Option-cases, Option, none,
  some, String, str_eq, eq_iff, ==_iff, List, [], ◌∷◌, ◌++◌, ◌==◌, find, select, is_some,
  if◌then◌else◌, arith,
}
use mathlib.Core.List.{append_assoc, append-nil}
use flight_blender.Repositories.Tables.{set_where}
use flight_blender.Repositories.Upserts.{upsert}
use flight_blender.Feed.Tables.{Observation}
use flight_blender.Surveillance.Tracks.{
  ActiveTrack, has_key, get_active_track, update_active_track, group_from, store_group,
  store_groups, generate_active_tracks, continued,
}
use flight_blender.Surveillance.Groups.{of_group, of_groups, of_groups-group_from}

-- The observations of an aircraft's track in a session
abbrev pub observed : Option ActiveTrack → List Observation
observed none = []
observed (some t) = t.observations

abbrev pub observations_of : ℕ → String → List ActiveTrack → List Observation
observations_of session_id identifier store = observed (find (has_key session_id identifier) store)

has_key_eq :
    (s : ℕ) (a : String) (t : ActiveTrack)
    → has_key s a t ≡ true
    → (t.session_id ≡ s) × (t.unique_aircraft_identifier ≡ a)
has_key_eq s a t h = (
  (==_iff t.session_id s).0 (ground arith),
  (eq_iff t.unique_aircraft_identifier a).0 (ground arith),
)

has_key_self : (t : ActiveTrack) → has_key t.session_id t.unique_aircraft_identifier t ≡ true
has_key_self t = ground (
  arith,
  (==_iff t.session_id t.session_id).1 refl,
  (eq_iff t.unique_aircraft_identifier t.unique_aircraft_identifier).1 refl,
)

-- A row put in the place of those of its key is found where it is looked for, and hides no other.
module _ {A : Type 0} (p q : A → Bool) (t : A) (agree : (x : A) → q x ≡ true → p x ≡ p t)
    (same : (x : A) → p t ≡ true → p x ≡ true → q x ≡ true) where
  find_put_other : (xs : List A) → p t ≡ false → find p (upsert q (λ x. t) t xs) ≡ find p xs
  find_put_other xs e = ground (arith, find-set_other xs e, find-snoc_other xs e)
    where
      find-set_other : (xs : List A) → p t ≡ false → find p (set_where q (λ x. t) xs) ≡ find p xs
      find-set_other [] e = refl
      find-set_other (x ∷ xs) e = ground (arith, agree x, find-set_other xs e)

      find-snoc_other : (xs : List A) → p t ≡ false → find p (xs ++ t ∷ []) ≡ find p xs
      find-snoc_other [] e = ground arith
      find-snoc_other (x ∷ xs) e = ground (arith, find-snoc_other xs e)

  find-set_self :
      (xs : List A)
      → p t ≡ true
      → is_some (find q xs) ≡ true
      → find p (set_where q (λ x. t) xs) ≡ some t
  find-set_self [] e h = absurd (ground arith)
  find-set_self (x ∷ xs) e h = ground (arith, agree x, same x, find-set_self xs e)

  find-snoc_self :
      (xs : List A) → p t ≡ true → is_some (find q xs) ≡ false → find p (xs ++ t ∷ []) ≡ some t
  find-snoc_self [] e h = ground arith
  find-snoc_self (x ∷ xs) e h = ground (arith, agree x, same x, find-snoc_self xs e)

  find_put_self : (xs : List A) → p t ≡ true → find p (upsert q (λ x. t) t xs) ≡ some t
  find_put_self xs e = elim (Bool-cases (is_some (find q xs))) [
    | inl f ↦ rw f (find-set_self xs e f)
    | inr f ↦ rw f (find-snoc_self xs e f)
  ]

has_key_agree :
    (s : ℕ) (a : String) (t x : ActiveTrack)
    → has_key t.session_id t.unique_aircraft_identifier x ≡ true
    → has_key s a x ≡ has_key s a t
has_key_agree s a t x h =
    let (e, f) = has_key_eq t.session_id t.unique_aircraft_identifier x h in cc

has_key_same :
    (s : ℕ) (a : String) (t x : ActiveTrack)
    → has_key s a t ≡ true
    → has_key s a x ≡ true
    → has_key t.session_id t.unique_aircraft_identifier x ≡ true
has_key_same s a t x h k =
    let (e, f) = has_key_eq s a t h in
    let (e', f') = has_key_eq s a x k in let own = has_key_self x in cc

find_holds : {A : Type 0} (p : A → Bool) (xs : List A) {x : A} → find p xs ≡ some x → p x ≡ true
find_holds p [] h = absurd (ground arith)
find_holds p (y ∷ ys) {x = x} h = elim (Bool-cases (p y)) [
  | inl e ↦ ground arith
  | inr e ↦ ground (arith, find_holds p ys {x = x})
]

-- The track that a write puts in the store
observations_of_put :
    (s : ℕ) (a : String) (t : ActiveTrack) (store : List ActiveTrack)
    → observations_of s a (update_active_track t store)
      ≡ (if has_key s a t then t.observations else observations_of s a store)
unfolding update_active_track
observations_of_put s a t store =
    let agree = has_key_agree s a t in
    let same = has_key_same s a t in
    let own = has_key t.session_id t.unique_aircraft_identifier in
    elim (Bool-cases (has_key s a t)) [
      | inl e ↦ rw e (ap observed (find_put_self (has_key s a) own t agree same store e))
      | inr e ↦ rw e (ap observed (find_put_other (has_key s a) own t agree same store e))
    ]

has_key_new :
    (s : ℕ) (k a : String) (t : ActiveTrack)
    → t.session_id ≡ s
    → t.unique_aircraft_identifier ≡ k
    → has_key s a t ≡ str_eq k a
has_key_new s k a t e f =
    let own : (t.session_id == s) ≡ true = (==_iff t.session_id s).1 e in
    ground (arith, ap (λ i. str_eq i a) f)

continued_key :
    (now s : ℕ) (k : String) (os : List Observation) (store : List ActiveTrack)
    → let t = continued now s k os (find (has_key s k) store) in
      (t.session_id ≡ s) × (t.unique_aircraft_identifier ≡ k)
continued_key now s k os store = elim (Option-cases (find (has_key s k) store)) [
  | inl e ↦ rw e (refl, refl)
  | inr (t, e) ↦ rw e (has_key_eq s k t (find_holds (has_key s k) store e))
]

continued_observations :
    (now s : ℕ) (k : String) (os : List Observation) (found : Option ActiveTrack)
    → (continued now s k os found).observations ≡ observed found ++ os
continued_observations now s k os none = refl
continued_observations now s k os (some t) = refl

observations_of-store_group :
    (now s : ℕ) (k a : String) (os : List Observation) (store : List ActiveTrack)
    → observations_of s a (store_group now s (k, os) store)
      ≡ observations_of s a store ++ of_group a (k, os)
unfolding store_group get_active_track
observations_of-store_group now s k a os store =
    let t = continued now s k os (find (has_key s k) store) in
    let (e, f) = continued_key now s k os store in
    let written = observations_of_put s a t store in
    let key = has_key_new s k a t e f in
    elim (Bool-cases (str_eq k a)) [
      | inl h ↦
          let same : k ≡ a = (eq_iff k a).0 h in
          let here : has_key s a t ≡ true = key ∙ h in
          let track : find (has_key s k) store ≡ find (has_key s a) store =
            ap (λ i. find (has_key s i) store) same in
          written
          ∙ rw (here, h)
              (continued_observations now s k os (find (has_key s k) store)
                ∙ ap (λ r. observed r ++ os) track)
      | inr h ↦
          let there : has_key s a t ≡ false = key ∙ h in
          written ∙ rw (there, h) (sym (append-nil (observations_of s a store)))
    ]

observations_of-store_groups :
    (now s : ℕ) (a : String) (groups : List (String × List Observation)) (store : List ActiveTrack)
    → observations_of s a (store_groups now s groups store)
      ≡ observations_of s a store ++ of_groups a groups
unfolding store_groups
observations_of-store_groups now s a [] store = sym (append-nil (observations_of s a store))
observations_of-store_groups now s a ((k, os) ∷ groups) store =
    observations_of-store_groups now s a groups (store_group now s (k, os) store)
    ∙ ap (λ r. r ++ of_groups a groups) (observations_of-store_group now s k a os store)
    ∙ append_assoc (observations_of s a store) (of_group a (k, os)) (of_groups a groups)

-- The fusion of tracks loses no observation and mixes up no aircraft: after it, the track of an
-- aircraft in the session has the observations that it had, and after them those of the fused
-- observations that name the aircraft, in their order.
pub generate_active_tracks-observations :
    (now session_id : ℕ) (a : String) (fused_observations : List Observation)
    (store : List ActiveTrack)
    → observations_of session_id a (generate_active_tracks now session_id fused_observations store)
      ≡ observations_of session_id a store
        ++ select (λ o. str_eq o.icao_address a) fused_observations
unfolding generate_active_tracks
generate_active_tracks-observations now session_id a fused_observations store =
    observations_of-store_groups now session_id a (group_from fused_observations []) store
    ∙ ap (λ r. observations_of session_id a store ++ r)
        (of_groups-group_from a fused_observations [] tt)
