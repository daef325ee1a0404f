-- ===== src/World.antt =====
-- What the services read and write: the tables (models/), the queue of notifications and the calls
-- to the DSS. An action returns its result, or the exception that it raises, with the new world.
use flight_blender.Prelude.{ℕ, ℤ, Bool, Option, String, List, [], ◌∷◌, ◌++◌}
use flight_blender.Exceptions.{Exc, Result, ok, raise}
use flight_blender.Json.{JsonText}
use flight_blender.Scd.Dss.{Dss}

-- `FlightDeclarationORM`. Times are microseconds since the epoch, ids are only compared, and the
-- comma-joined text of `bounds` is kept as its numbers.
pub record Declaration : Type 0 where
  pub id : ℕ
  pub operational_intent : JsonText
  pub flight_declaration_raw_geojson : JsonText
  pub type_of_operation : ℕ
  pub bounds : List ℤ
  pub aircraft_id : String
  pub state : ℕ
  pub originating_party : String
  pub submitted_by : Option String
  pub approved_by : Option String
  pub latest_telemetry_datetime : Option ℕ
  pub start_datetime : ℕ
  pub end_datetime : ℕ
  pub is_approved : Bool
  pub created_at : ℕ

-- `FlightOperationTrackingORM`: the states that `deltas` holds, where `none` is the word "start".
pub record Tracking : Type 0 where
  pub flight_declaration_id : ℕ
  pub original_state : Option ℕ
  pub new_state : ℕ
  pub notes : String

-- `ConformanceRecordORM`
pub record ConformanceRow : Type 0 where
  pub flight_declaration_id : ℕ
  pub conformance_state : ℕ
  pub event_type : String
  pub description : String
  pub geofence_breach : Bool
  pub resolved : Bool
  pub created_at : ℕ

-- `FlightOperationalIntentReferenceORM`, the columns that the modelled code reads
pub record OpintReference : Type 0 where
  pub id : ℕ
  pub declaration_id : ℕ
  pub ovn : Option String
  pub state : String

-- `GeoFenceORM`, the columns that the modelled code reads
pub record GeoFence : Type 0 where
  pub id : ℕ
  pub raw_geo_fence : JsonText
  pub bounds : List ℤ
  pub status : ℕ
  pub is_test_dataset : Bool
  pub start_datetime : ℕ
  pub end_datetime : ℕ
  pub created_at : ℕ

pub record Db : Type 0 where
  pub declarations : List Declaration
  pub tracking : List Tracking
  pub conformance_records : List ConformanceRow
  pub references : List OpintReference
  pub fences : List GeoFence

-- One `send_operational_update_message.delay(...)`
pub record Message : Type 0 where
  pub flight_declaration_id : ℕ
  pub message_text : String
  pub level : String

-- A call that leaves the process: a DSS request, a task put on the queue, or a line of the log that
-- stands for a step which the source does not implement yet.
pub data Call : Type 0 where
  delete_operational_intent : ℕ → Option String → Call
  parse_stored_operational_intent_details : ℕ → Call
  submit_flight_declaration_to_dss : ℕ → Call
  log_info : String → ℕ → Call

-- The state, and what is outside: the DSS with its token service, and whether the reading of a stored
-- intent by `OperationalIntentReferenceHelper` returns.
pub record World : Type 0 where
  pub db : Db
  pub messages : List Message
  pub calls : List Call
  pub dss : Dss
  pub parse_stored : ℕ → Result (Unit {0})

abbrev pub Action {ℓ} : Type ℓ → Type ℓ
Action A = World → Result A × World

module _ {ℓ} {A : Type ℓ} where
  abbrev pub pure : A → Action A
  pure a w = (ok a, w)

  abbrev pub throw : Exc → Action A
  throw e w = (raise e, w)

  abbrev pub lift : Result A → Action A
  lift r w = (r, w)

  abbrev pub gets : (World → A) → Action A
  gets f w = (ok (f w), w)

abbrev pub modify : (World → World) → Action (Unit {0})
modify f w = (ok tt, f w)

infixl 5 ◌>>=◌ ◌>>◌
abbrev pub ◌>>=◌ {ℓ κ} : {A : Type ℓ} {B : Type κ} → Action A → (A → Action B) → Action B
◌>>=◌ m f w = let (r, w') = m w in elim r [ ok a ↦ f a w' | raise e ↦ (raise e, w') ]

abbrev pub ◌>>◌ {ℓ κ} : {A : Type ℓ} {B : Type κ} → Action A → Action B → Action B
m >> k = m >>= λ _. k

-- `async_task_session`: commit on success, roll the tables back on an exception. What has been
-- queued or sent stays so.
unfoldable pub session {ℓ} : {A : Type ℓ} → Action A → Action A
session m w =
    let (r, w') = m w in elim r [ ok a ↦ (ok a, w') | raise e ↦ (raise e, record w' { db = w.db }) ]

abbrev pub notify : ℕ → String → String → Action (Unit {0})
notify id text level = modify λ w. record w {
  messages =
      w.messages ++ record { flight_declaration_id = id; message_text = text; level = level } ∷ [];
}

abbrev pub call : Call → Action (Unit {0})
call c = modify λ w. record w { calls = w.calls ++ c ∷ [] }
