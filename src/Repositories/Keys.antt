-- ===== src/Repositories/Keys.antt =====
-- Keys of the tables: ids are unique, and each row that refers to a declaration refers to one that is
-- there; and what the writes of rows do to both.
use flight_blender.Prelude.{
  Bool, ℕ, ◌≡◌, refl, true, none, List, [], ◌∷◌, ◌++◌, arith, ◌==◌, find, is_some,
}
use flight_blender.World.{Declaration, Tracking, ConformanceRow, OpintReference, Db}
use flight_blender.Repositories.Tables.{set_where, delete_where}
use flight_blender.Repositories.Declarations.{has_id}
use flight_blender.Repositories.Lookup.{find-append, find-delete_ne}

-- No two declarations have one id.
abbrev pub IsUnique : List Declaration → Type 0
IsUnique [] = Unit
IsUnique (d ∷ ds) = (find (has_id d.id) ds ≡ none) × IsUnique ds

-- Each row of a table refers to a declaration.
abbrev pub Refers : {A : Type 0} → (A → ℕ) → List Declaration → List A → Type 0
Refers key ds [] = Unit
Refers key ds (r ∷ rs) = (is_some (find (has_id (key r)) ds) ≡ true) × Refers key ds rs

pub record IsIntact (db : Db) : Type 0 where
  pub unique : IsUnique db.declarations
  pub tracked : Refers (λ (t : Tracking). t.flight_declaration_id) db.declarations db.tracking
  pub recorded :
      Refers
        (λ (r : ConformanceRow). r.flight_declaration_id)
        db.declarations
        db.conformance_records
  pub referenced : Refers (λ (r : OpintReference). r.declaration_id) db.declarations db.references

module _ {A : Type 0} (key : A → ℕ) where
  pub Refers-append :
      (ds : List Declaration) (d : Declaration) (rs : List A)
      → Refers key ds rs
      → Refers key (ds ++ d ∷ []) rs
  Refers-append ds d [] h = tt
  Refers-append ds d (r ∷ rs) h =
      ground (arith, find-append (key r) d ds, Refers-append ds d rs h.1)

  pub Refers-snoc :
      (ds : List Declaration) (r : A) (rs : List A)
      → is_some (find (has_id (key r)) ds) ≡ true
      → Refers key ds rs
      → Refers key ds (rs ++ r ∷ [])
  Refers-snoc ds r [] k h = (k, tt)
  Refers-snoc ds r (s ∷ rs) k h = (h.0, Refers-snoc ds r rs k h.1)

  pub Refers-rewritten :
      (ds : List Declaration) (fits : A → Bool) (f : A → A)
      → ((r : A) → key (f r) ≡ key r)
      → (rs : List A) → Refers key ds rs
      → Refers key ds (set_where fits f rs)
  Refers-rewritten ds fits f same [] h = tt
  Refers-rewritten ds fits f same (r ∷ rs) h =
      ground (arith, same r, Refers-rewritten ds fits f same rs h.1)

  pub Refers-delete :
      (k : ℕ) (ds : List Declaration) (rs : List A)
      → Refers key ds rs
      → Refers key (delete_where (has_id k) ds) (delete_where (λ r. key r == k) rs)
  Refers-delete k ds [] h = tt
  Refers-delete k ds (r ∷ rs) h =
      ground (arith, find-delete_ne (key r) k ds, Refers-delete k ds rs h.1)

  module _ (f : Declaration → Declaration) (keeps_id : (d : Declaration) → (f d).id ≡ d.id) where
    is_some-set_where :
        (j k : ℕ) (ds : List Declaration)
        → is_some (find (has_id j) (set_where (has_id k) f ds)) ≡ is_some (find (has_id j) ds)
    is_some-set_where j k [] = refl
    is_some-set_where j k (d ∷ ds) = ground (arith, keeps_id d, is_some-set_where j k ds)

    pub Refers-set_where :
        (k : ℕ) (ds : List Declaration) (rs : List A)
        → Refers key ds rs
        → Refers key (set_where (has_id k) f ds) rs
    Refers-set_where k ds [] h = tt
    Refers-set_where k ds (r ∷ rs) h =
        ground (arith, is_some-set_where (key r) k ds, Refers-set_where k ds rs h.1)

pub IsUnique-append :
    (d : Declaration) (ds : List Declaration)
    → find (has_id d.id) ds ≡ none
    → IsUnique ds
    → IsUnique (ds ++ d ∷ [])
IsUnique-append d [] k h = (refl, tt)
IsUnique-append d (x ∷ ds) k h = ground (arith, find-append x.id d ds, IsUnique-append d ds)

pub find-delete_none :
    (j k : ℕ) (ds : List Declaration)
    → find (has_id j) ds ≡ none
    → find (has_id j) (delete_where (has_id k) ds) ≡ none
find-delete_none j k [] h = refl
find-delete_none j k (d ∷ ds) h = ground (arith, find-delete_none j k ds)

pub IsUnique-delete :
    (k : ℕ) (ds : List Declaration) → IsUnique ds → IsUnique (delete_where (has_id k) ds)
IsUnique-delete k [] h = tt
IsUnique-delete k (d ∷ ds) h =
    ground (arith, IsUnique-delete k ds h.1, find-delete_none d.id k ds h.0)

pub find-set_where-none :
    (f : Declaration → Declaration) (keeps_id : (d : Declaration) → (f d).id ≡ d.id) (j k : ℕ)
    (ds : List Declaration)
    → find (has_id j) ds ≡ none
    → find (has_id j) (set_where (has_id k) f ds) ≡ none
find-set_where-none f keeps_id j k [] h = refl
find-set_where-none f keeps_id j k (d ∷ ds) h =
    ground (arith, keeps_id d, find-set_where-none f keeps_id j k ds)

pub IsUnique-set_where :
    (f : Declaration → Declaration) (keeps_id : (d : Declaration) → (f d).id ≡ d.id) (k : ℕ)
    (ds : List Declaration)
    → IsUnique ds
    → IsUnique (set_where (has_id k) f ds)
IsUnique-set_where f keeps_id k [] h = tt
IsUnique-set_where f keeps_id k (d ∷ ds) h = ground (
  arith,
  keeps_id d,
  find-set_where-none f keeps_id d.id k ds h.0,
  IsUnique-set_where f keeps_id k ds h.1,
)
