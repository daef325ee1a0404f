-- ===== src/Declarations/Examples.antt =====
-- The theorems on the service of declarations at concrete requests.
use flight_blender.Prelude.{
  ◌*◌, ◌-◌, drop, take, elem, ◌||◌, is_empty, ◌&&◌, leb, Bool, str_eq, ℕ, pos, ◌≡◌, refl, ◌↔◌, true,
  false, none, some, List, [], ◌∷◌, length, if◌then◌else◌, ◌+◌,
}
use flight_blender.Exceptions.{traverse, key_error, ok, raise}
use flight_blender.Json.{Json, num, str, arr, obj, nil, cons, end, field}
use flight_blender.World.{Declaration, World}
use flight_blender.Repositories.Tables.{IsDesc, order_by_desc, count}
use flight_blender.Repositories.Declarations.{is_listed, list, create}
use flight_blender.Samples.{offline, online, operation, flying, tables, boxes, nothing}
use flight_blender.Conformance.Engine.{is_time_between, check_declaration}
use flight_blender.Declarations.Requests.{created, message, Request, Externals}
use flight_blender.Declarations.Validation.{dates_ok, validate_geojson, validate_dates}
use flight_blender.Declarations.Intents.{
  new_declaration, build_partial_operational_intent, intent_of_features,
}
use flight_blender.Declarations.Creation.{
  create_flight_declaration, BulkResponse, bulk_from, bulk_create_flight_declarations,
}
use flight_blender.Declarations.Outcomes.{added, Outcome, create_flight_declaration-Outcome}
use flight_blender.Declarations.Bulk.{bulk_create-counts}
use flight_blender.Declarations.Unreadable.{created-unreadable}
use flight_blender.Declarations.Intersections.{DeconflictionResult, process_intersection_result}
use flight_blender.Declarations.Rejection.{rejected, process_intersection_result-effects}
use flight_blender.Repositories.Serialize.{serialize}
use flight_blender.Declarations.Updates.{Listing, listed, states, list_flight_declarations, page_of}
use flight_blender.Declarations.Paging.{list_flight_declarations-pages}
use flight_blender.Declarations.Viewport.{check_view_port}

-- A point with altitudes, from now on for an hour.
abbrev feature : Json
feature = obj (
    field "geometry" (str "point") (
      field "properties"
        (obj (field "min_altitude" (num (pos 0)) (field "max_altitude" (num (pos 100)) end))) end))

abbrev request : Request
request = record {
  originating_party = some "operator";
  submitted_by = none;
  approved_by = none;
  aircraft_id = some "drone";
  start_datetime = "start";
  end_datetime = "stop";
  flight_declaration_geo_json = obj (field "features" (arr (cons feature nil)) end);
  type_of_operation = some 1;
  flight_state = some 1;
}

abbrev refused_request : Request
refused_request = record request { flight_declaration_geo_json = obj end }

abbrev surroundings : Externals
surroundings = record {
  now = 1000;
  arrow_get = λ s. ok (if str_eq s "start" then 2000 else 3000);
  load = λ r. none;
  shape_is_valid = λ g. ok true;
  union_bounds = λ gs. ok (pos 1 ∷ pos 2 ∷ pos 3 ∷ pos 4 ∷ []);
}

create_flight_declaration-Outcome_example :
    Outcome offline surroundings 9 request nothing
      (create_flight_declaration offline surroundings 9 request nothing)
create_flight_declaration-Outcome_example =
    create_flight_declaration-Outcome offline surroundings 9 request nothing

abbrev two_requests : List (ℕ × Request)
two_requests = (9, request) ∷ (10, refused_request) ∷ []

drawn : validate_geojson surroundings.shape_is_valid request.flight_declaration_geo_json ≡ ok none
unfolding validate_geojson
drawn = refl

abbrev intent_json : Json
intent_json = obj (
    field "state" (str "Accepted") (
      field "priority" (num (pos 0)) (
        field "volumes"
          (arr (
            cons
              (obj (
                field "outline_polygon" (str "point") (
                  field "altitude_lower" (num (pos 0)) (
                    field "altitude_upper" (num (pos 100))
                      (field "time_start" (str "start") (field "time_end" (str "stop") end))))))
              nil))
          (field "off_nominal_volumes" (arr nil) end))))

abbrev created_row : Declaration
created_row = record {
  id = 9;
  operational_intent = some intent_json;
  flight_declaration_raw_geojson = some request.flight_declaration_geo_json;
  type_of_operation = 1;
  bounds = pos 1 ∷ pos 2 ∷ pos 3 ∷ pos 4 ∷ [];
  aircraft_id = "drone";
  state = 1;
  originating_party = "operator";
  submitted_by = none;
  approved_by = none;
  latest_telemetry_datetime = none;
  start_datetime = 2000;
  end_datetime = 3000;
  is_approved = true;
  created_at = 1000;
}

row_made : new_declaration offline surroundings 9 request ≡ ok created_row
unfolding new_declaration build_partial_operational_intent intent_of_features
row_made = refl

abbrev bulk_response : BulkResponse
bulk_response = record {
  submitted = 1;
  failed = 1;
  results =
      record {
        index = 0;
        success = true;
        body = created (record {
          id = 9;
          message = "Submitted Flight Declaration";
          is_approved = true;
          state = 1;
        });
      }
      ∷ record {
        index = 1;
        success = false;
        body = message "Flight declaration GeoJSON is required.";
      }
      ∷ [];
}

abbrev answered : ℕ
answered = 207

bulk_run :
    bulk_create_flight_declarations offline surroundings two_requests nothing
    ≡ (ok (bulk_response, answered), added created_row nothing)
unfolding bulk_create_flight_declarations bulk_from create_flight_declaration validate_geojson
    validate_dates dates_ok new_declaration build_partial_operational_intent intent_of_features
    create
bulk_run = refl

bulk_create-counts_example :
    (bulk_response.submitted + bulk_response.failed ≡ 2)
    × (length bulk_response.results ≡ 2)
    × (length (created_row ∷ []) ≡ 0 + bulk_response.submitted)
    × ((answered ≡ 200) ↔ (bulk_response.failed ≡ 0))
bulk_create-counts_example =
    bulk_create-counts offline surroundings two_requests nothing (added created_row nothing)
      bulk_response answered bulk_run

in_time : is_time_between 2000 3000 2500 ≡ true
unfolding is_time_between
in_time = refl

created-unreadable_example :
    check_declaration boxes 2500
      (tables 2)
      "drone"
      (pos 5, pos 5)
      (pos 60)
      (record created_row { state = 2 })
    ≡ raise key_error
created-unreadable_example =
    created-unreadable offline surroundings 9 request created_row drawn row_made boxes 2500 2
      (tables 2) (pos 5, pos 5) (pos 60) refl in_time

abbrev refusal : DeconflictionResult
refusal = record {
  all_relevant_fences = 3 ∷ [];
  all_relevant_declarations = [];
  is_approved = false;
  declaration_state = 8;
}

process_intersection_result-effects_example :
    let (r, w') = process_intersection_result online (operation 0) refusal (flying 0) in
    (w'.db ≡ (rejected (operation 0) 8 (flying 0)).db)
    × (w'.calls ≡ [])
    × (r
        ≡ ok (record {
          id = 7;
          message = "Submitted Flight Declaration";
          is_approved = false;
          state = 8;
        }))
process_intersection_result-effects_example =
    process_intersection_result-effects online (operation 0) (operation 0) refusal (flying 0) refl

abbrev three : List ℕ
three = 1 ∷ 2 ∷ 3 ∷ []

seen : check_view_port (pos 1 ∷ pos 2 ∷ pos 3 ∷ pos 4 ∷ []) ≡ true
unfolding check_view_port
seen = refl

-- The created row is listed, and its texts are written as they are read.
abbrev row_world : World
row_world = added created_row nothing

abbrev answered_listing : Listing
answered_listing = record {
  count = 1;
  results =
      record {
        id = 9;
        operational_intent = intent_json;
        originating_party = "operator";
        type_of_operation = 1;
        state = 1;
        is_approved = true;
        start_datetime = 2000;
        end_datetime = 3000;
        flight_declaration_geojson = request.flight_declaration_geo_json;
        flight_declaration_raw_geojson = request.flight_declaration_geo_json;
        bounds = pos 1 ∷ pos 2 ∷ pos 3 ∷ pos 4 ∷ [];
        approved_by = none;
        submitted_by = none;
      }
      ∷ [];
}

abbrev answered_ok : ℕ
answered_ok = 200

lists :
    list_flight_declarations 0 9000 (states (some (1 ∷ []))) 1 10 row_world
    ≡ (ok (listed answered_listing, answered_ok), row_world)
unfolding list_flight_declarations list page_of order_by_desc serialize is_listed
lists = refl

list_flight_declarations-pages_example :
    (row_world ≡ row_world)
    × (answered_ok ≡ 200)
    × ((items : List Declaration) × IsDesc (λ d. d.created_at) items
        × ((p : Declaration → Bool)
            → count p items
              ≡ count
                  (λ d.
                    (leb 0 d.start_datetime
                      && leb d.end_datetime 9000
                      && (is_empty {A = ℕ} (1 ∷ []) || elem d.state (1 ∷ [])))
                    && p d)
                  row_world.db.declarations)
        × (answered_listing.count ≡ length items)
        × (traverse serialize (take 10 (drop ((1 - 1) * 10) items)) ≡ ok answered_listing.results))
list_flight_declarations-pages_example =
    list_flight_declarations-pages 0 9000 1 10 answered_ok (some (1 ∷ [])) answered_listing
      row_world row_world lists
