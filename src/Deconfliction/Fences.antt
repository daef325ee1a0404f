-- ===== src/Deconfliction/Fences.antt =====
-- `GeoFenceRTreeIndexFactory` (flight_blender/utils/spatial_geo_fence.py): the boxes of fences go
-- into the index and out of it. `index_id` is the hash of the id, of which eight digits are kept.
use flight_blender.Prelude.{ℕ, ℤ, ◌≡◌, ap, inl, inr, arith, List, [], ◌∷◌}
use flight_blender.Exceptions.{Result, ok, raise, ◌>>=◌, Result-cases}
use flight_blender.World.{GeoFence}
use flight_blender.Deconfliction.Index.{Box, box_of, RTree}

-- A run on an index: what has been inserted stays, whatever is raised after it.
abbrev pub On : Type 0 → Type 0 → Type 0
On Index A = Index → Result A × Index

module _ {Index : Type 0} where
  abbrev pub bind : {A B : Type 0} → On Index A → (A → On Index B) → On Index B
  bind m f i = let (r, j) = m i in elim r [ ok a ↦ f a j | raise e ↦ (raise e, j) ]

  -- An operation on the index itself.
  abbrev pub step : (Index → Result Index) → On Index (Unit {0})
  step f i = elim (f i) [ ok j ↦ (ok tt, j) | raise e ↦ (raise e, i) ]

  -- `try: ... finally: ...`: an exception of the last part takes the place of what came before.
  abbrev pub finally : {A : Type 0} → On Index A → On Index (Unit {0}) → On Index A
  finally body last i =
      let (r, j) = body i in
      let (s, k) = last j in elim s [ ok _ ↦ (r, k) | raise e ↦ (raise e, k) ]

  pub finally-ok :
      {A : Type 0} (body : On Index A) (last : On Index (Unit {0})) (i k : Index) (a : A)
      → finally body last i ≡ (ok a, k)
      → (body i).0 ≡ ok a
  finally-ok body last i k a h = elim (Result-cases (last (body i).1).0) [
    | inl (u, e) ↦ ground arith
    | inr (x, e) ↦ absurd (ground arith)
  ]

  pub bind-ok :
      {A B : Type 0} (m : On Index A) (f : A → On Index B) (i : Index) (b : B)
      → (bind m f i).0 ≡ ok b
      → (a : A) × (m i ≡ (ok a, (m i).1)) × ((f a (m i).1).0 ≡ ok b)
  bind-ok m f i b h = elim (Result-cases (m i).0) [
    | inl (a, e) ↦ (a, ap (λ r. (r, (m i).1)) e, ground arith)
    | inr (x, e) ↦ absurd (ground arith)
  ]

-- `[view[1], view[0], view[3], view[2]]`
abbrev pub swapped : List ℤ → Result Box
swapped view = box_of view >>= λ b.
    ok (record { x_min = b.y_min; y_min = b.x_min; x_max = b.y_max; y_max = b.x_max })

module _ (t : RTree) (index_id : ℕ → ℕ) where
  open t use {Index, insert, delete, intersection}

  unfoldable pub generate_geo_fence_index : List GeoFence → On Index (Unit {0})
  generate_geo_fence_index [] i = (ok tt, i)
  generate_geo_fence_index (fence ∷ fences) i =
      bind (step λ j. swapped fence.bounds >>= λ box. insert (index_id fence.id) box fence.id j)
        (λ _. generate_geo_fence_index fences) i

  -- The boxes are looked for as the fences have them, not as they went in.
  unfoldable pub clear_rtree_index : List GeoFence → On Index (Unit {0})
  clear_rtree_index [] i = (ok tt, i)
  clear_rtree_index (fence ∷ fences) i =
      bind (step λ j. box_of fence.bounds >>= λ box. delete (index_id fence.id) box j)
        (λ _. clear_rtree_index fences) i

  unfoldable pub check_box_intersection : List ℤ → On Index (List ℕ)
  check_box_intersection view_box i = (box_of view_box >>= λ box. intersection box i, i)
