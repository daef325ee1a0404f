-- ===== src/Repositories/Lookup.antt =====
-- What a lookup of a declaration gives after each operation on the table.
use flight_blender.Prelude.{
  ℕ, ◌≡◌, refl, ◌≢◌, none, some, List, [], ◌∷◌, ◌++◌, arith, ◌==◌, find, is_some, if◌then◌else◌,
}
use flight_blender.World.{Declaration}
use flight_blender.Repositories.Tables.{set_where, delete_where}
use flight_blender.Repositories.Declarations.{has_id}

pub find-append :
    (k : ℕ) (d : Declaration) (ds : List Declaration)
    → find (has_id k) (ds ++ d ∷ []) ≡ (
        if is_some (find (has_id k) ds)
        then find (has_id k) ds
        else if d.id == k
        then some d
        else none)
find-append k d [] = ground arith
find-append k d (x ∷ ds) = ground (arith, find-append k d ds)

pub find-has_id :
    (k : ℕ) (d : Declaration) (ds : List Declaration) → find (has_id k) ds ≡ some d → d.id ≡ k
find-has_id k d [] h = cc
find-has_id k d (x ∷ ds) h = ground (arith, find-has_id k d ds)

module _ (f : Declaration → Declaration) (keeps_id : (d : Declaration) → (f d).id ≡ d.id) where
  pub find-set_where_self :
      (k : ℕ) (d : Declaration) (ds : List Declaration)
      → find (has_id k) ds ≡ some d
      → find (has_id k) (set_where (has_id k) f ds) ≡ some (f d)
  find-set_where_self k d [] h = cc
  find-set_where_self k d (x ∷ ds) h = ground (arith, keeps_id x, find-set_where_self k d ds)

  pub find-set_where_ne :
      (j k : ℕ) (ds : List Declaration)
      → j ≢ k
      → find (has_id j) (set_where (has_id k) f ds) ≡ find (has_id j) ds
  find-set_where_ne j k [] h = refl
  find-set_where_ne j k (x ∷ ds) h = ground (arith, keeps_id x, find-set_where_ne j k ds h)

pub find-delete_self :
    (k : ℕ) (ds : List Declaration) → find (has_id k) (delete_where (has_id k) ds) ≡ none
find-delete_self k [] = refl
find-delete_self k (x ∷ ds) = ground (arith, find-delete_self k ds)

pub find-delete_ne :
    (j k : ℕ) (ds : List Declaration)
    → j ≢ k
    → find (has_id j) (delete_where (has_id k) ds) ≡ find (has_id j) ds
find-delete_ne j k [] h = refl
find-delete_ne j k (x ∷ ds) h = ground (arith, find-delete_ne j k ds h)
