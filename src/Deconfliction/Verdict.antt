-- ===== src/Deconfliction/Verdict.antt =====
-- What a check answers, and when it cannot answer.
use flight_blender.Prelude.{
  ℕ, ℤ, ◌≡◌, refl, true, false, List, [], ◌∷◌, arith, is_empty, if◌then◌else◌, inl, inr,
}
use flight_blender.Exceptions.{Exc, runtime_error, ok, raise, Result-cases}
use flight_blender.World.{Declaration, Db}
use flight_blender.Declarations.Intersections.{DeconflictionResult}
use flight_blender.Deconfliction.Index.{RTree}
use flight_blender.Deconfliction.Engine.{
  DeconflictionRequest, relevant_fences, relevant_declarations, conclude, fences_in_window,
  declarations_in_window, check_deconfliction,
}

module _ (t : RTree) (index_id : ℕ → ℕ) where
  -- With a declaration in the window the search on its index raises, whatever the index answers.
  relevant_declarations-raises :
      (ds : List Declaration) (view_box : List ℤ) (j : t.Index)
      → is_empty ds ≡ false
      → (relevant_declarations t index_id ds view_box j).0 ≡ raise runtime_error
  unfolding relevant_declarations
  relevant_declarations-raises [] view_box j h = cc
  relevant_declarations-raises (d ∷ ds) view_box j h = refl

  relevant_declarations-ok :
      (ds : List Declaration) (view_box : List ℤ) (j : t.Index) (rows : List ℕ)
      → (relevant_declarations t index_id ds view_box j).0 ≡ ok rows
      → (is_empty ds ≡ true) × (rows ≡ [])
  unfolding relevant_declarations
  relevant_declarations-ok [] view_box j rows h = (refl, cc)
  relevant_declarations-ok (d ∷ ds) view_box j rows h = cc

  module _ (request : DeconflictionRequest) (db : Db) (i j : t.Index) where
    -- Where an active declaration other than the new one overlaps the window, the check does not
    -- answer: it raises, RuntimeError where the search for the fences has gone well.
    pub check_deconfliction-raises :
        is_empty (declarations_in_window t index_id request db) ≡ false
        → let r = (check_deconfliction t index_id request db (i, j)).0 in
          ((e : Exc) × (r ≡ raise e))
          × ((fences : List ℕ)
              → (relevant_fences t index_id
                  (fences_in_window t index_id request db)
                  request.view_box
                  i).0
                ≡ ok fences
              → r ≡ raise runtime_error)
    unfolding check_deconfliction
    check_deconfliction-raises h =
        let found =
          relevant_fences t index_id (fences_in_window t index_id request db) request.view_box i in
        let raises =
          relevant_declarations-raises (declarations_in_window t index_id request db)
            request.view_box j h in
        elim (Result-cases found.0) [
          | inl (fences, e) ↦ ((runtime_error, ground arith), λ fs e'. ground arith)
          | inr (x, e) ↦ ((x, ground arith), λ fs e'. absurd (ground arith))
        ]

    -- A check that answers has seen no other active declaration in the window. It approves iff no
    -- fence was found, and the state is 8 where it refuses, else 0 or 1 as the network is enabled or
    -- not.
    pub check_deconfliction-verdict :
        (result : DeconflictionResult)
        → (check_deconfliction t index_id request db (i, j)).0 ≡ ok result
        → (is_empty (declarations_in_window t index_id request db) ≡ true)
          × (result.all_relevant_declarations ≡ [])
          × ((relevant_fences t index_id
                (fences_in_window t index_id request db)
                request.view_box
                i).0
              ≡ ok result.all_relevant_fences)
          × (result.is_approved ≡ is_empty result.all_relevant_fences)
          × (result.declaration_state
              ≡ (if result.is_approved then (if request.ussp_network_enabled then 0 else 1) else 8))
    unfolding check_deconfliction conclude
    check_deconfliction-verdict result h =
        let found =
          relevant_fences t index_id (fences_in_window t index_id request db) request.view_box i in
        let others =
          relevant_declarations t index_id (declarations_in_window t index_id request db)
            request.view_box j in
        elim (Result-cases found.0) [
          | inr (x, e) ↦ absurd (ground arith)
          | inl (fences, e) ↦ elim (Result-cases others.0) [
            | inr (x, e1) ↦ absurd (ground arith)
            | inl (rows, e1) ↦
                let (none_there, no_rows) =
                  relevant_declarations-ok (declarations_in_window t index_id request db)
                    request.view_box j rows e1 in
                (none_there, ground arith, ground arith, ground arith, ground arith)
          ]
        ]
