-- ===== src/Declarations/Creation.antt =====
-- `_create_flight_declaration_record`, `create_flight_declaration` and
-- `bulk_create_flight_declarations` (flight_blender/services/flight_declarations_svc.py).
use flight_blender.Prelude.{
  ℕ, ◌+◌, Bool, none, some, String, List, [], ◌∷◌, ◌++◌, ltb, ◌==◌, if◌then◌else◌,
}
use flight_blender.Domain.{Settings}
use flight_blender.World.{Declaration, Action, pure, lift, ◌>>=◌}
use flight_blender.Repositories.Declarations.{create}
use flight_blender.Declarations.Requests.{Request, Body, message, created, Response, Externals}
use flight_blender.Declarations.Validation.{validate_geojson, validate_dates}
use flight_blender.Declarations.Intents.{new_declaration}

abbrev pub refused : String → Action Response
refused text = pure (message text, 400)

abbrev pub answer : Declaration → Response
answer d = (
  created (record {
    id = d.id;
    message = "Submitted Flight Declaration";
    is_approved = d.is_approved;
    state = d.state;
  }),
  200,
)

-- The three checks in their order, then the row. `id` is the `uuid4` of the new row.
unfoldable pub create_flight_declaration : Settings → Externals → ℕ → Request → Action Response
create_flight_declaration settings ext id r = elim (ext.load r) [
  | some errors ↦ refused errors
  | none ↦
      lift (validate_geojson ext.shape_is_valid r.flight_declaration_geo_json) >>= λ bad_geojson.
      elim bad_geojson [
        | some text ↦ refused text
        | none ↦ lift (validate_dates ext r.start_datetime r.end_datetime) >>= λ bad_dates.
            elim bad_dates [
              | some text ↦ refused text
              | none ↦ lift (new_declaration settings ext id r) >>= λ d.
                  create d >>= λ saved. pure (answer saved)
            ]
      ]
]

-- One entry of the results of a bulk request.
pub record BulkResult : Type 0 where
  pub index : ℕ
  pub success : Bool
  pub body : Body

pub record BulkResponse : Type 0 where
  pub submitted : ℕ
  pub failed : ℕ
  pub results : List BulkResult

-- The body of the loop of `bulk_create_flight_declarations`: the counts and the results with the
-- answer to the request at `idx`.
abbrev pub count_one : ℕ → BulkResponse → Body → Bool → BulkResponse
count_one idx acc data_body success = record {
  submitted = if success then acc.submitted + 1 else acc.submitted;
  failed = if success then acc.failed else acc.failed + 1;
  results = acc.results ++ record { index = idx; success = success; body = data_body } ∷ [];
}

unfoldable pub bulk_from :
    Settings → Externals → ℕ → BulkResponse → List (ℕ × Request) → Action BulkResponse
bulk_from settings ext idx acc [] = pure acc
bulk_from settings ext idx acc ((id, r) ∷ rs) =
    create_flight_declaration settings ext id r >>= λ (data_body, status_code).
    bulk_from settings ext (idx + 1) (count_one idx acc data_body (ltb status_code 400)) rs

-- Each request comes with the id that its row would have. 207 is a partial success.
unfoldable pub bulk_create_flight_declarations :
    Settings → Externals → List (ℕ × Request) → Action (BulkResponse × ℕ)
unfolding bulk_from
bulk_create_flight_declarations settings ext rs =
    bulk_from settings ext 0 (record { submitted = 0; failed = 0; results = [] }) rs >>= λ response.
    pure (response, if response.failed == 0 then 200 else 207)
