-- ===== src/Deconfliction/Leftovers.antt =====
-- What the search for fences leaves in its index, and what an entry that is left does to later checks.
use flight_blender.Prelude.{
  ℕ, ℤ, ◌≡◌, refl, ◌∙◌, Bool, true, false, not, ◌&&◌, List, [], ◌∷◌, arith, is_empty, elem,
  if◌then◌else◌, inl, inr,
}
use flight_blender.Exceptions.{ok, Result-cases}
use flight_blender.World.{GeoFence}
use flight_blender.Deconfliction.Index.{
  Box, Entry, box_of, same_box, is_entry, remove, rows_meeting, RTree, IsRTree,
}
use flight_blender.Deconfliction.Fences.{
  finally-ok, bind-ok, bind, swapped, generate_geo_fence_index, clear_rtree_index,
  check_box_intersection,
}
use flight_blender.Deconfliction.Engine.{relevant_fences}

-- The box that goes into the index for a box of a fence.
abbrev pub swap : Box → Box
swap b = record { x_min = b.y_min; y_min = b.x_min; x_max = b.y_max; y_max = b.x_max }

pub swapped-box : (view : List ℤ) (b : Box) → box_of view ≡ ok b → swapped view ≡ ok (swap b)
swapped-box view b h = ground arith

-- No entry has the number and the box.
abbrev pub is_free : ℕ → Box → List Entry → Bool
is_free number box [] = true
is_free number box (e ∷ es) = not (is_entry number box e) && is_free number box es

remove-free :
    (number : ℕ) (box : Box) (es : List Entry)
    → is_free number box es ≡ true
    → remove number box es ≡ es
remove-free number box [] h = refl
remove-free number box (e ∷ es) h = ground (arith, remove-free number box es)

elem-nonempty : (row : ℕ) (rows : List ℕ) → elem row rows ≡ true → is_empty rows ≡ false
elem-nonempty row [] h = cc
elem-nonempty row (x ∷ xs) h = refl

module _ (t : RTree) (index_id : ℕ → ℕ) (laws : IsRTree t) where
  -- A search with one fence that raises nothing leaves the index as it was where the box of the
  -- fence is its own mirror image; else the fence stays in the index, under its swapped box.
  pub relevant_fences-leftover :
      (fence : GeoFence) (view_box : List ℤ) (i k : t.Index) (rows : List ℕ) (b : Box)
      → box_of fence.bounds ≡ ok b
      → is_free (index_id fence.id) b (t.entries i) ≡ true
      → relevant_fences t index_id (fence ∷ []) view_box i ≡ (ok rows, k)
      → t.entries k ≡ (
          if same_box (swap b) b
          then t.entries i
          else record { number = index_id fence.id; box = swap b; row = fence.id } ∷ t.entries i)
  unfolding relevant_fences generate_geo_fence_index clear_rtree_index check_box_intersection
  relevant_fences-leftover fence view_box i k rows b hb free h =
      let n = index_id fence.id in
      let hs = swapped-box fence.bounds b hb in
      elim (Result-cases (t.insert n (swap b) fence.id i)) [
        | inr (x, e) ↦ absurd (ground arith)
        | inl (j, e) ↦ elim (Result-cases (t.delete n b j)) [
          | inr (x, e1) ↦ absurd (ground arith)
          | inl (k', e1) ↦
              let put = laws.entries-insert n (swap b) fence.id i j e in
              let taken = laws.entries-delete n b j k' e1 in
              ground (arith, remove-free n b (t.entries i) free)
        ]
      ]

  generate-keeps :
      (fences : List GeoFence) (view : Box) (row : ℕ) (i k : t.Index)
      → elem row (rows_meeting view (t.entries i)) ≡ true
      → generate_geo_fence_index t index_id fences i ≡ (ok tt, k)
      → elem row (rows_meeting view (t.entries k)) ≡ true
  unfolding generate_geo_fence_index
  generate-keeps [] view row i k h e = ground arith
  generate-keeps (fence ∷ fences) view row i k h e = elim (Result-cases (swapped fence.bounds)) [
    | inr (x, e1) ↦ absurd (ground arith)
    | inl (b, e1) ↦ elim (Result-cases (t.insert (index_id fence.id) b fence.id i)) [
      | inr (x, e2) ↦ absurd (ground arith)
      | inl (j, e2) ↦
          let put = laws.entries-insert (index_id fence.id) b fence.id i j e2 in
          generate-keeps fences view row j k (ground arith) (ground arith)
    ]
  ]

  -- An entry that an earlier search has left and that meets the view box is found by every later
  -- search that looks and raises nothing, whatever the fences of its window.
  pub leftover-found :
      (fence : GeoFence) (fences : List GeoFence) (view_box : List ℤ) (view : Box) (row : ℕ)
      (i k : t.Index) (rows : List ℕ)
      → box_of view_box ≡ ok view
      → elem row (rows_meeting view (t.entries i)) ≡ true
      → relevant_fences t index_id (fence ∷ fences) view_box i ≡ (ok rows, k)
      → (elem row rows ≡ true) × (is_empty rows ≡ false)
  unfolding relevant_fences check_box_intersection
  leftover-found fence fences view_box view row i k rows hv h e =
      let make = generate_geo_fence_index t index_id (fence ∷ fences) in
      let look = check_box_intersection t index_id view_box in
      let clear = clear_rtree_index t index_id (fence ∷ fences) in
      let found = finally-ok (bind make (λ _. look)) clear i k rows e in
      let (u, e1, e2) = bind-ok make (λ _. look) i rows found in
      let kept = generate-keeps (fence ∷ fences) view row i (make i).1 h e1 in
      let same = laws.intersection-rows view (make i).1 rows row (ground arith) in
      (same ∙ kept, elem-nonempty row rows (same ∙ kept))
