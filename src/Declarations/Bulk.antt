-- ===== src/Declarations/Bulk.antt =====
-- The counts of a bulk request.
use flight_blender.Prelude.{
  ℕ, ◌+◌, ◌≡◌, inl, inr, ◌↔◌, Bool, true, false, List, [], ◌∷◌, arith, length, length-append,
  if◌then◌else◌,
}
use flight_blender.Exceptions.{ok}
use flight_blender.Domain.{Settings}
use flight_blender.World.{World}
use flight_blender.Declarations.Requests.{Request, Body, message, Externals}
use flight_blender.Declarations.Creation.{
  count_one, answer, BulkResponse, bulk_from, bulk_create_flight_declarations,
}
use flight_blender.Declarations.Outcomes.{added, create_flight_declaration-Outcome}

-- The response `resp` and the world `w'` against those before `n` requests.
pub record Counts (acc resp : BulkResponse) (w w' : World) (n : ℕ) : Type 0 where
  pub all_counted : resp.submitted + resp.failed ≡ acc.submitted + acc.failed + n
  pub all_answered : length resp.results ≡ length acc.results + n
  pub rows_added :
      length w'.db.declarations + acc.submitted ≡ length w.db.declarations + resp.submitted

count_one-Counts :
    (idx : ℕ) (acc : BulkResponse) (data_body : Body) (success : Bool) (w w1 : World)
    → length w1.db.declarations ≡ length w.db.declarations + (if success then 1 else 0)
    → Counts acc (count_one idx acc data_body success) w w1 1
count_one-Counts idx acc data_body success w w1 h = record {
  all_counted = ground arith;
  all_answered =
      length-append acc.results (record { index = idx; success = success; body = data_body } ∷ []);
  rows_added = ground arith;
}

bulk_step :
    (settings : Settings) (ext : Externals) (idx : ℕ) (acc : BulkResponse) (id : ℕ) (r : Request)
    (rs : List (ℕ × Request)) (w w' : World) (resp : BulkResponse)
    → bulk_from settings ext idx acc ((id, r) ∷ rs) w ≡ (ok resp, w')
    → (acc' : BulkResponse) × (w1 : World) × Counts acc acc' w w1 1
      × (bulk_from settings ext (idx + 1) acc' rs w1 ≡ (ok resp, w'))
unfolding bulk_from
bulk_step settings ext idx acc id r rs w w' resp h =
    elim (create_flight_declaration-Outcome settings ext id r w) [
      | inl (text, e) ↦ (
        count_one idx acc (message text) false,
        w,
        count_one-Counts idx acc (message text) false w w (ground arith),
        ground arith,
      )
      | inr (inl (x, e)) ↦ absurd (ground arith)
      | inr (inr (d, passes, free, e)) ↦ (
        count_one idx acc (answer d).0 true,
        added d w,
        count_one-Counts idx acc (answer d).0 true w (added d w)
            (length-append w.db.declarations (d ∷ [])),
        ground arith,
      )
    ]

bulk_from-Counts :
    (settings : Settings) (ext : Externals) (idx : ℕ) (acc : BulkResponse) (rs : List (ℕ × Request))
    (w w' : World) (resp : BulkResponse)
    → bulk_from settings ext idx acc rs w ≡ (ok resp, w')
    → Counts acc resp w w' (length rs)
unfolding bulk_from
bulk_from-Counts settings ext idx acc [] w w' resp h = record {
  all_counted = ground arith;
  all_answered = ground arith;
  rows_added = ground arith;
}
bulk_from-Counts settings ext idx acc ((id, r) ∷ rs) w w' resp h =
    let (acc', w1, now, rest) = bulk_step settings ext idx acc id r rs w w' resp h in
    let later = bulk_from-Counts settings ext (idx + 1) acc' rs w1 w' resp rest in
    record { all_counted = ground arith; all_answered = ground arith; rows_added = ground arith }

-- A bulk request that ends without an exception counts every request once, as submitted or as failed,
-- answers each, adds one row for each submitted one, and is a 200 iff none has failed.
pub bulk_create-counts :
    (settings : Settings) (ext : Externals) (rs : List (ℕ × Request)) (w w' : World)
    (response : BulkResponse) (status : ℕ)
    → bulk_create_flight_declarations settings ext rs w ≡ (ok (response, status), w')
    → (response.submitted + response.failed ≡ length rs)
      × (length response.results ≡ length rs)
      × (length w'.db.declarations ≡ length w.db.declarations + response.submitted)
      × ((status ≡ 200) ↔ (response.failed ≡ 0))
unfolding bulk_create_flight_declarations
bulk_create-counts settings ext rs w w' response status h =
    let start : BulkResponse = record { submitted = 0; failed = 0; results = [] } in
    let counts = bulk_from-Counts settings ext 0 start rs w w' response (ground arith) in
    (ground arith, ground arith, ground arith, (λ e. ground arith, λ e. ground arith))
