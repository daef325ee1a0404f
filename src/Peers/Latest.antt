-- ===== src/Peers/Latest.antt =====
-- What a lookup finds after the upserts of peers.
use flight_blender.Prelude.{
  ℕ, ◌≡◌, refl, ◌≢◌, ◌∙◌, Option, none, some, String, List, [], ◌∷◌, ◌++◌, arith, ◌==◌, find,
  is_some, if◌then◌else◌, inl, inr, Option-cases,
}
use flight_blender.Repositories.Tables.{set_where}
use flight_blender.Repositories.Upserts.{upsert}
use flight_blender.Peers.Tables.{PeerDetail, PeerReference, PeerTables}
use flight_blender.Peers.Writes.{
  create_or_update_peer_opint_detail, create_or_update_peer_opint_reference,
}

pub find-key :
    {A : Type 0} (key : A → ℕ) (k : ℕ) (rows : List A) (a : A)
    → find (λ r. key r == k) rows ≡ some a
    → key a ≡ k
find-key key k [] a h = cc
find-key key k (x ∷ xs) a h = ground (arith, find-key key k xs a)

-- Lookups in an upserted table, by a key that the change leaves alone.
module _ {A : Type 0} (key : A → ℕ) (k : ℕ) (change : A → A) (new : A)
    (keeps : (a : A) → key (change a) ≡ key a) (new_key : key new ≡ k) where
  find-set :
      (rows : List A) (a : A)
      → find (λ r. key r == k) rows ≡ some a
      → find (λ r. key r == k) (set_where (λ r. key r == k) change rows) ≡ some (change a)
  find-set [] a h = cc
  find-set (x ∷ xs) a h = ground (arith, keeps x, find-set xs a)

  find-set_other :
      (j : ℕ) (rows : List A)
      → j ≢ k
      → find (λ r. key r == j) (set_where (λ r. key r == k) change rows)
        ≡ find (λ r. key r == j) rows
  find-set_other j [] ne = refl
  find-set_other j (x ∷ xs) ne = ground (arith, keeps x, find-set_other j xs ne)

  find-snoc :
      (j : ℕ) (rows : List A)
      → find (λ r. key r == j) (rows ++ new ∷ []) ≡ (
          if is_some (find (λ r. key r == j) rows)
          then find (λ r. key r == j) rows
          else if k == j
          then some new
          else none)
  find-snoc j [] = ground arith
  find-snoc j (x ∷ xs) = ground (arith, find-snoc j xs)

  pub find-upsert :
      (rows : List A)
      → find (λ r. key r == k) (upsert (λ r. key r == k) change new rows)
        ≡ some (elim (find (λ r. key r == k) rows) [ none ↦ new | some a ↦ change a ])
  find-upsert rows = elim (Option-cases (find (λ r. key r == k) rows)) [
    | inl e ↦ ground (arith, find-snoc k rows)
    | inr (a, e) ↦ ground (arith, find-set rows a e)
  ]

  pub find-upsert_other :
      (j : ℕ) (rows : List A)
      → j ≢ k
      → find (λ r. key r == j) (upsert (λ r. key r == k) change new rows)
        ≡ find (λ r. key r == j) rows
  find-upsert_other j rows ne = ground (
    arith,
    find-set_other j rows ne,
    find-snoc j rows,
    Option-cases (find (λ r. key r == j) rows),
  )

-- After a peer's details are written, a lookup finds exactly the payload, whatever was there, and the
-- details of every other peer are as before.
pub peer_detail-latest :
    (peer_id : ℕ) (payload : PeerDetail) (tables : PeerTables)
    → let tables' = create_or_update_peer_opint_detail peer_id payload tables in
      (find (λ r. r.id == peer_id) tables'.details ≡ some (record payload { id = peer_id }))
      × ((j : ℕ)
          → j ≢ peer_id
          → find (λ r. r.id == j) tables'.details ≡ find (λ r. r.id == j) tables.details)
      × (tables'.references ≡ tables.references)
      × (tables'.composites ≡ tables.composites)
unfolding create_or_update_peer_opint_detail
peer_detail-latest peer_id payload tables =
    let change = λ (r : PeerDetail). record payload { id = r.id } in
    let new = record payload { id = peer_id } in
    (
      find-upsert (λ r. r.id) peer_id change new (λ r. refl) refl tables.details
          ∙ elim (Option-cases (find (λ r. r.id == peer_id) tables.details)) [
            | inl e ↦ ground arith
            | inr (a, e) ↦
                ground (arith, find-key (λ (r : PeerDetail). r.id) peer_id tables.details a e)
          ],
      λ j. find-upsert_other (λ r. r.id) peer_id change new (λ r. refl) refl j tables.details,
      refl,
      refl,
    )

-- The manager that a reference keeps: the one it was first written with.
abbrev pub kept_manager : Option PeerReference → String → String
kept_manager none manager = manager
kept_manager (some r) manager = r.manager

-- After a peer's reference is written, a lookup finds the payload but for its manager, which stays the
-- one of the first write; the references of every other peer are as before.
pub peer_reference-latest :
    (peer_id : ℕ) (payload : PeerReference) (tables : PeerTables)
    → let tables' = create_or_update_peer_opint_reference peer_id payload tables in
      (find (λ r. r.id == peer_id) tables'.references
        ≡ some (record payload {
          id = peer_id;
          manager = kept_manager (find (λ r. r.id == peer_id) tables.references) payload.manager;
        }))
      × ((j : ℕ)
          → j ≢ peer_id
          → find (λ r. r.id == j) tables'.references ≡ find (λ r. r.id == j) tables.references)
      × (tables'.details ≡ tables.details)
      × (tables'.composites ≡ tables.composites)
unfolding create_or_update_peer_opint_reference
peer_reference-latest peer_id payload tables =
    let change = λ (r : PeerReference). record payload { id = r.id; manager = r.manager } in
    let new = record payload { id = peer_id } in
    (
      find-upsert (λ r. r.id) peer_id change new (λ r. refl) refl tables.references
          ∙ elim (Option-cases (find (λ r. r.id == peer_id) tables.references)) [
            | inl e ↦ ground arith
            | inr (a, e) ↦
                ground (arith, find-key (λ (r : PeerReference). r.id) peer_id tables.references a e)
          ],
      λ j. find-upsert_other (λ r. r.id) peer_id change new (λ r. refl) refl j tables.references,
      refl,
      refl,
    )
