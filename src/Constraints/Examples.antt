-- ===== src/Constraints/Examples.antt =====
-- The lookups of constraints after a run of writes.
use flight_blender.Prelude.{Option, pos, ◌≡◌, refl, true, false, none, some, [], ◌∷◌}
use flight_blender.Exceptions.{multiple_results_found, integrity_error, ok, raise}
use flight_blender.Constraints.Tables.{
  GeofenceRow, ConstraintDetail, CompositeConstraint, ConstraintDb, ReferencePayload,
}
use flight_blender.Constraints.Schema.{flush}
use flight_blender.Constraints.Repository.{
  create_composite_constraint, get_constraint_by_geofence_id,
}
use flight_blender.Constraints.Writes.{
  create_or_update_constraint_detail, create_or_update_constraint_reference,
  create_or_update_geofence, composite_of, create_or_update_composite_constraint, rewritten,
  new_reference,
}
use flight_blender.Constraints.Lookups.{
  empty, Reached, start, geofence_written, reference_written, detail_written, composite_written,
  Reached-lookups,
}

abbrev fence : GeofenceRow
fence = record {
  id = 1;
  raw_geo_fence = none;
  geozone = none;
  upper_limit = pos 120;
  lower_limit = pos 0;
  altitude_ref = 4;
  name = "zone";
  bounds = "0,0,1,1";
  status = 1;
  message = "Constraint from peer USS";
  is_test_dataset = false;
  start_datetime = 100;
  end_datetime = 200;
}

abbrev payload : ReferencePayload
payload = record {
  id = 10;
  ovn = some "a";
  uss_availability = "Normal";
  uss_base_url = "https://uss1";
  version = "1";
  manager = some "uss1";
  time_start = 100;
  time_end = 200;
}

abbrev composite : CompositeConstraint
composite = record {
  declaration_id = 7;
  bounds = "0,0,1,1";
  start_datetime = 100;
  end_datetime = 200;
  alt_max = pos 120;
  alt_min = pos 0;
  constraint_reference_id = 10;
  constraint_detail_id = 20;
}

abbrev detail : ConstraintDetail
detail = record { id = 20; geofence_id = some 1; volumes = "[]"; created_at = 50 }

abbrev fenced : ConstraintDb
fenced = record empty { geofences = fence ∷ [] }

abbrev referenced : ConstraintDb
referenced = record fenced { references = rewritten payload 1 7 (new_reference 50 payload) ∷ [] }

abbrev detailed : ConstraintDb
detailed = record referenced { details = detail ∷ [] }

abbrev written : ConstraintDb
written = record detailed { composites = composite ∷ [] }

fence_added : create_or_update_geofence fence empty ≡ ok (fence, fenced)
unfolding create_or_update_geofence flush
fence_added = refl

reference_added :
    create_or_update_constraint_reference 50 payload 1 7 fenced
    ≡ ok (rewritten payload 1 7 (new_reference 50 payload), referenced)
unfolding create_or_update_constraint_reference flush
reference_added = refl

detail_added : create_or_update_constraint_detail 20 50 "[]" 1 referenced ≡ ok (detail, detailed)
unfolding create_or_update_constraint_detail flush
detail_added = refl

composite_added : create_or_update_composite_constraint composite detailed ≡ ok (true, written)
unfolding create_or_update_composite_constraint flush
composite_added = refl

-- A second reference for the same geofence is refused.
second_refused :
    create_or_update_constraint_reference 60 (record payload { id = 11 }) 1 7 written
    ≡ raise integrity_error
unfolding create_or_update_constraint_reference flush
second_refused = refl

-- The plain write of a composite is accepted for a reference that has one, whose lookup then raises.
abbrev doubled : ConstraintDb
doubled = record written { composites = composite ∷ composite ∷ [] }

second_added : create_composite_constraint composite written ≡ ok (composite, doubled)
unfolding create_composite_constraint flush
second_added = refl

doubled_raises : composite_of 10 doubled ≡ raise multiple_results_found
unfolding composite_of
doubled_raises = refl

written-Reached : Reached written
written-Reached =
    composite_written composite
      (detail_written 20 50 1 "[]"
        (reference_written 50 1 7 payload (geofence_written fence start fence_added)
          reference_added)
        detail_added)
      composite_added

Reached-lookups_example :
    ((found : Option ConstraintDetail) × (get_constraint_by_geofence_id 1 written ≡ ok found))
    × ((found : Option CompositeConstraint) × (composite_of 1 written ≡ ok found))
Reached-lookups_example = Reached-lookups written-Reached 1
