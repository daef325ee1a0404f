-- ===== src/Scd/Examples.antt =====
-- The theorems on the numbers of operators and on closing a flight plan, at concrete data.
use flight_blender.Prelude.{
  ℕ, none, some, All, pos, ◌≡◌, ◌≢◌, ◌↔◌, refl, true, [], ◌∷◌, ◌++◌, arith, ◌==◌, ◌&&◌, str_eq,
  if◌then◌else◌,
}
use flight_blender.Exceptions.{parser_error, unbound_local_error, Result, key_error, ok, raise}
use flight_blender.Json.{Json, num, obj, arr, str, nil, field, end}
use flight_blender.Samples.{flying, nothing}
use flight_blender.Scd.Registration.{
  Text, gen_checksum, is_valid_registration, is_valid_serial_number,
}
use flight_blender.Scd.Checksum.{gen_checksum-detects}
use flight_blender.Scd.Shape.{IsRegistration, is_valid_registration_iff}
use flight_blender.Conformance.Volumes.{LatLngPoint, Altitude, Volume4d}
use flight_blender.Scd.Volumes.{validate_volumes, pre_operational_intent_creation_checks}
use flight_blender.Scd.Planning.{
  generate_operational_intent_state_from_planning_information, validate_flight_planning_test_data,
}
use flight_blender.Scd.Plans.{IsPlannable, validated-IsPlannable}
use flight_blender.Scd.Dss.{Dss}
use flight_blender.Scd.Closing.{flight_planning_deletion_success_response, delete_flight_plan}
use flight_blender.Scd.Closings.{Closes, delete_flight_plan-Closes}

-- "FIN87astrdge12k8-xyz", the country in small letters
abbrev country : Text
country = 102 ∷ 105 ∷ 110 ∷ []

abbrev base_start : Text
base_start = 56 ∷ 55 ∷ 97 ∷ 115 ∷ []

abbrev base_end : Text
base_end = 114 ∷ 100 ∷ 103 ∷ 101 ∷ 49 ∷ 50 ∷ 107 ∷ []

abbrev secure : Text
secure = 120 ∷ 121 ∷ 122 ∷ []

abbrev fin : Text
fin = country ++ (base_start ++ (116 ∷ base_end)) ++ 56 ∷ 45 ∷ secure

fin_valid : is_valid_registration fin ≡ ok true
unfolding is_valid_registration
fin_valid = refl

-- A capital letter in the identifier ends the check in an exception.
fin_capital :
    is_valid_registration (country ++ (base_start ++ (84 ∷ base_end)) ++ 56 ∷ 45 ∷ secure)
    ≡ raise key_error
unfolding is_valid_registration
fin_capital = refl

fin_checksum : gen_checksum (base_start ++ 116 ∷ (base_end ++ secure)) ≡ ok 56
unfolding gen_checksum
fin_checksum = refl

-- 't' for 'u'
gen_checksum-detects_example : gen_checksum (base_start ++ 117 ∷ (base_end ++ secure)) ≢ ok 56
gen_checksum-detects_example =
    gen_checksum-detects base_start (base_end ++ secure) 116 117 56 (λ e. omega arith) fin_checksum

is_valid_registration_iff_example : (is_valid_registration fin ≡ ok true) ↔ IsRegistration fin
is_valid_registration_iff_example = is_valid_registration_iff fin

-- "MFR1AABCDEFGHIJ", with ten characters after the length code
serial_number_valid :
    is_valid_serial_number
      (77 ∷ 70 ∷ 82 ∷ 49 ∷ 65 ∷ 65 ∷ 66 ∷ 67 ∷ 68 ∷ 69 ∷ 70 ∷ 71 ∷ 72 ∷ 73 ∷ 74 ∷ [])
    ≡ true
unfolding is_valid_serial_number
serial_number_valid = refl

-- A DSS that deletes the reference 70 at the version "ovn", and refuses any other as a conflict.
abbrev dss : Dss
dss = record {
  get_auth_token = ok (obj (field "access_token" (str "token") end));
  delete = λ id version. ok (record {
    status_code = if id == 70 && str_eq version "ovn" then 200 else 409;
    json =
        ok (
          obj (field "subscribers" (arr nil) (field "operational_intent_reference" (arr nil) end)));
  });
}

closed_answer :
    (delete_flight_plan dss 7 (flying 2)).0 ≡ ok flight_planning_deletion_success_response
unfolding delete_flight_plan
closed_answer = refl

closed_tables : (delete_flight_plan dss 7 (flying 2)).1.db ≡ nothing.db
unfolding delete_flight_plan
closed_tables = refl

delete_flight_plan-Closes_example : Closes dss 7 (flying 2) (delete_flight_plan dss 7 (flying 2))
delete_flight_plan-Closes_example = delete_flight_plan-Closes dss 7 (flying 2)

-- A clock that reads numbers
abbrev arrow_get : Json → Result ℕ
arrow_get (num (pos n)) = ok n
arrow_get _ = raise parser_error

abbrev vertex : LatLngPoint
vertex = record { lat = num (pos 1); lng = num (pos 2) }

abbrev altitude : Altitude
altitude = record { value = num (pos 50); reference = str "W84"; units = str "M" }

abbrev planned_volume : Volume4d
planned_volume = record {
  volume = record {
    outline_circle = none;
    outline_polygon = some (vertex ∷ vertex ∷ vertex ∷ []);
    altitude_lower = altitude;
    altitude_upper = altitude;
  };
  time_start = record { format = str "RFC3339"; value = num (pos 100000000) };
  time_end = record { format = str "RFC3339"; value = num (pos 50000000) };
}

volumes_checked : validate_volumes arrow_get 100000000 (planned_volume ∷ []) ≡ ok true
unfolding validate_volumes
volumes_checked = refl

times_checked :
    pre_operational_intent_creation_checks arrow_get 100000000 (planned_volume ∷ []) ≡ ok true
unfolding pre_operational_intent_creation_checks
times_checked = refl

validated-IsPlannable_example : All (IsPlannable arrow_get 100000000) (planned_volume ∷ [])
validated-IsPlannable_example =
    validated-IsPlannable arrow_get 100000000 (planned_volume ∷ []) volumes_checked times_checked

-- A state that the validator accepts and for which none is generated
contingent_raises :
    generate_operational_intent_state_from_planning_information "Contingent" "InUse"
    ≡ raise unbound_local_error
unfolding generate_operational_intent_state_from_planning_information
contingent_raises = refl

contingent_accepted :
    validate_flight_planning_test_data
      (record { uas_state = "Contingent"; usage_state = "InUse"; off_nominal_volumes = [] })
    ≡ true
unfolding validate_flight_planning_test_data
contingent_accepted = refl
