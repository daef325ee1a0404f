-- ===== src/Deconfliction/Examples.antt =====
-- The theorems on the deconfliction at a concrete index, which is a list of entries.
use flight_blender.Prelude.{
  ℕ, ℤ, pos, ◌≡◌, refl, ap, sym, true, false, some, List, [], ◌∷◌, elem, is_empty, if◌then◌else◌,
}
use flight_blender.Exceptions.{Exc, runtime_error, ok, raise}
use flight_blender.World.{GeoFence, Db}
use flight_blender.Repositories.Declarations.{is_active_in_window}
use flight_blender.Repositories.GeoFences.{is_in_time_window}
use flight_blender.Declarations.Intersections.{DeconflictionResult}
use flight_blender.Samples.{fence, tables, nothing}
use flight_blender.Deconfliction.Index.{same_box, Box, Entry, remove, rows_meeting, RTree, IsRTree}
use flight_blender.Deconfliction.Fences.{
  generate_geo_fence_index, clear_rtree_index, check_box_intersection,
}
use flight_blender.Deconfliction.Engine.{
  DeconflictionRequest, relevant_fences, relevant_declarations, conclude, declarations_in_window,
  fences_in_window, check_deconfliction,
}
use flight_blender.Deconfliction.Verdict.{check_deconfliction-raises, check_deconfliction-verdict}
use flight_blender.Deconfliction.Leftovers.{swap, relevant_fences-leftover}

abbrev listed_tree : RTree
listed_tree = record {
  Index = List Entry;
  insert = λ number box row i. ok (record { number = number; box = box; row = row } ∷ i);
  delete = λ number box i. ok (remove number box i);
  intersection = λ box i. ok (rows_meeting box i);
  entries = λ i. i;
}

ok_injective : {A : Type 0} {a b : A} → ok a ≡ ok b → a ≡ b
ok_injective p = cc

listed_tree-IsRTree : IsRTree listed_tree
listed_tree-IsRTree = record {
  entries-insert = λ number box row i j h. sym (ok_injective h);
  entries-delete = λ number box i j h. sym (ok_injective h);
  intersection-rows = λ box i rows row h. ap (elem row) (sym (ok_injective h));
}

abbrev same_id : ℕ → ℕ
same_id id = id

abbrev new_operation : DeconflictionRequest
new_operation = record {
  start_datetime = 100;
  end_datetime = 200;
  view_box = pos 0 ∷ pos 0 ∷ pos 9 ∷ pos 9 ∷ [];
  ussp_network_enabled = false;
  declaration_id = some 8;
}

occupied : is_empty (declarations_in_window listed_tree same_id new_operation (tables 2)) ≡ false
unfolding is_active_in_window
occupied = refl

check_deconfliction-raises_example :
    let r = (check_deconfliction listed_tree same_id new_operation (tables 2) ([], [])).0 in
    ((e : Exc) × (r ≡ raise e))
    × ((fences : List ℕ)
        → (relevant_fences listed_tree same_id
            (fences_in_window listed_tree same_id new_operation (tables 2))
            new_operation.view_box
            []).0
          ≡ ok fences
        → r ≡ raise runtime_error)
check_deconfliction-raises_example =
    check_deconfliction-raises listed_tree same_id new_operation (tables 2) [] [] occupied

-- Fence 3 covers the box from (2, 2) to (5, 5), fence 4 a strip that is not its own mirror image.
abbrev covering : GeoFence
covering = fence 3 50 250 (pos 2 ∷ pos 2 ∷ pos 5 ∷ pos 5 ∷ [])

abbrev strip : GeoFence
strip = fence 4 50 250 (pos 2 ∷ pos 20 ∷ pos 5 ∷ pos 50 ∷ [])

abbrev fenced : Db
fenced = record (nothing.db) { fences = covering ∷ [] }

abbrev refusal : DeconflictionResult
refusal = record {
  all_relevant_fences = 3 ∷ [];
  all_relevant_declarations = [];
  is_approved = false;
  declaration_state = 8;
}

refuses : (check_deconfliction listed_tree same_id new_operation fenced ([], [])).0 ≡ ok refusal
unfolding check_deconfliction relevant_fences relevant_declarations conclude
    generate_geo_fence_index clear_rtree_index check_box_intersection is_in_time_window
refuses = refl

check_deconfliction-verdict_example :
    (is_empty (declarations_in_window listed_tree same_id new_operation fenced) ≡ true)
    × (refusal.all_relevant_declarations ≡ [])
    × ((relevant_fences listed_tree same_id
          (fences_in_window listed_tree same_id new_operation fenced)
          new_operation.view_box
          []).0
        ≡ ok refusal.all_relevant_fences)
    × (refusal.is_approved ≡ is_empty refusal.all_relevant_fences)
    × (refusal.declaration_state ≡ (
        if refusal.is_approved then (if new_operation.ussp_network_enabled then 0 else 1) else 8))
check_deconfliction-verdict_example =
    check_deconfliction-verdict listed_tree same_id new_operation fenced [] [] refusal refuses

abbrev strip_box : Box
strip_box = record { x_min = pos 2; y_min = pos 20; x_max = pos 5; y_max = pos 50 }

abbrev left_entry : Entry
left_entry = record { number = 4; box = swap strip_box; row = 4 }

leaves :
    relevant_fences listed_tree same_id (strip ∷ []) new_operation.view_box []
    ≡ (ok [], left_entry ∷ [])
unfolding relevant_fences generate_geo_fence_index clear_rtree_index check_box_intersection
leaves = refl

relevant_fences-leftover_example :
    (left_entry ∷ []) ≡ (if same_box (swap strip_box) strip_box then [] else left_entry ∷ [])
relevant_fences-leftover_example =
    relevant_fences-leftover listed_tree same_id listed_tree-IsRTree strip new_operation.view_box []
      (left_entry ∷ []) [] strip_box refl refl leaves

-- A view box over the mirror image of the strip, and a search whose only fence is elsewhere.
abbrev far_view : List ℤ
far_view = pos 30 ∷ pos 3 ∷ pos 40 ∷ pos 4 ∷ []

abbrev far_box : Box
far_box = record { x_min = pos 30; y_min = pos 3; x_max = pos 40; y_max = pos 4 }

finds :
    relevant_fences listed_tree same_id (covering ∷ []) far_view (left_entry ∷ [])
    ≡ (ok (4 ∷ []), left_entry ∷ [])
unfolding relevant_fences generate_geo_fence_index clear_rtree_index check_box_intersection
finds = refl

abbrev found : List ℕ
found = 4 ∷ []
