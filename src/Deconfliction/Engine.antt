-- ===== src/Deconfliction/Engine.antt =====
-- `DefaultDeconflictionEngine.check_deconfliction` (flight_blender/services/deconfliction_engine.py),
-- with the index of the declarations (flight_blender/utils/spatial_flight_declarations.py).
use flight_blender.Prelude.{
  ◌&&◌, ℕ, ℤ, Bool, Option, List, [], ◌∷◌, select, is_empty, if◌then◌else◌,
}
use flight_blender.Exceptions.{runtime_error, ok, raise, ◌>>=◌}
use flight_blender.World.{Declaration, GeoFence, Db}
use flight_blender.Repositories.Declarations.{is_active_in_window}
use flight_blender.Repositories.GeoFences.{is_in_time_window}
use flight_blender.Declarations.Intersections.{DeconflictionResult}
use flight_blender.Deconfliction.Index.{box_of, RTree}
use flight_blender.Deconfliction.Fences.{
  On, bind, step, finally, generate_geo_fence_index, clear_rtree_index, check_box_intersection,
}

-- `DeconflictionRequest`, the fields that the engine reads
pub record DeconflictionRequest : Type 0 where
  pub start_datetime : ℕ
  pub end_datetime : ℕ
  pub view_box : List ℤ
  pub ussp_network_enabled : Bool
  pub declaration_id : Option ℕ

module _ (t : RTree) (index_id : ℕ → ℕ) where
  open t use {Index, insert}

  unfoldable pub generate_flight_declaration_index : List Declaration → On Index (Unit {0})
  generate_flight_declaration_index [] i = (ok tt, i)
  generate_flight_declaration_index (d ∷ ds) i =
      bind (step λ j. box_of d.bounds >>= λ box. insert (index_id d.id) box d.id j)
        (λ _. generate_flight_declaration_index ds) i

  -- The fences of the window, on their index. No index is opened where there is none.
  unfoldable pub relevant_fences : List GeoFence → List ℤ → On Index (List ℕ)
  relevant_fences [] view_box i = (ok [], i)
  relevant_fences (fence ∷ fences) view_box i =
      finally
        (bind (generate_geo_fence_index t index_id (fence ∷ fences))
          (λ _. check_box_intersection t index_id view_box))
        (clear_rtree_index t index_id (fence ∷ fences)) i

  -- `asyncio.run(...)` in a coroutine: a loop is running, so it raises, and its argument is not run.
  abbrev run_in_loop : On Index (Unit {0})
  run_in_loop i = (raise runtime_error, i)

  unfoldable pub relevant_declarations : List Declaration → List ℤ → On Index (List ℕ)
  relevant_declarations [] view_box i = (ok [], i)
  relevant_declarations (d ∷ ds) view_box i =
      finally
        (bind (generate_flight_declaration_index (d ∷ ds))
          (λ _. check_box_intersection t index_id view_box))
        run_in_loop i

  -- The result from what was found. A declaration that is free starts in the state 0 or 1.
  unfoldable pub conclude : Bool → List ℕ → List ℕ → DeconflictionResult
  conclude ussp_network_enabled fences declarations =
      let free = is_empty fences && is_empty declarations in
      record {
        all_relevant_fences = fences;
        all_relevant_declarations = declarations;
        is_approved = free;
        declaration_state = if free then (if ussp_network_enabled then 0 else 1) else 8;
      }

  abbrev pub fences_in_window : DeconflictionRequest → Db → List GeoFence
  fences_in_window request db =
      select (is_in_time_window request.start_datetime request.end_datetime) db.fences

  abbrev pub declarations_in_window : DeconflictionRequest → Db → List Declaration
  declarations_in_window request db =
      select
        (is_active_in_window request.start_datetime request.end_datetime request.declaration_id)
        db.declarations

  -- The indexes of the fences and of the declarations are files that outlive the call.
  unfoldable pub check_deconfliction :
      DeconflictionRequest → Db → On (Index × Index) DeconflictionResult
  check_deconfliction request db (i, j) =
      let (found, i') = relevant_fences (fences_in_window request db) request.view_box i in
      elim found [
        | raise e ↦ (raise e, (i', j))
        | ok fences ↦
            let (others, j') =
              relevant_declarations (declarations_in_window request db) request.view_box j in
            (
              others >>= λ declarations.
                  ok (conclude request.ussp_network_enabled fences declarations),
              (i', j'),
            )
      ]
