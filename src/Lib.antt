-- ===== src/Lib.antt =====
-- Flight Blender: the life of a flight operation, from its declaration to its end.
--
-- The program keeps flight declarations in a database, checks a new one against geofences and other
-- operations, and watches a flying operation: a periodic task compares its telemetry with what was
-- declared, and a check that fails changes the state of the operation, warns its operator and tells
-- the DSS. This library models that core of the Python package in src/flight_blender.
--
-- Parts and files:
--
-- - Domain.antt: src/flight_blender/config.py (`Settings`, the four fields that the modelled code
--   reads) and the active states of src/flight_blender/domain_types/common.py.
-- - World.antt: the tables of src/flight_blender/models, each row with the columns that the
--   modelled code reads; the queue of notifications; the calls that leave the process; what
--   the DSS, its token service and the reader of stored intents answer; and
--   `Action`, a function from a world to a result or an exception with the new world. `session` is
--   `async_task_session` of src/flight_blender/db/session.py.
-- - Exceptions.antt, Json.antt: exceptions as results, and JSON values with Python's access to
--   them.
-- - Repositories: src/flight_blender/repositories/flight_declarations_repo.py (Declarations.antt,
--   References.antt),
--   with `serialize` in Serialize.antt, conformance_repo.py (Conformance.antt) and
--   geo_fence_repo.py (GeoFences.antt). A query is a filter over a list of rows, `ORDER BY` a
--   stable sort (Tables.antt). Inserting a row whose key is taken, or that refers to no
--   declaration, raises; deleting a declaration deletes what refers to it. Keys, ReferenceKeys and Integrity say
--   when the tables agree with their keys.
-- - Conformance: src/flight_blender/services/conformance_svc.py. States.antt has the state classes
--   and the machine, Helper.antt `FlightOperationConformanceHelper`, Checks.antt the list of
--   checks, Volumes.antt `cast_to_volume4d`, Engine.antt `FlightBlenderConformanceEngine`,
--   Signals.antt the receivers of the two signals and `Signal.send` of
--   src/flight_blender/services/signals.py, Task.antt src/flight_blender/tasks/conformance_task.py,
--   Summary.antt `ConformanceOperations`. The theorems are in Lifecycle, Effects, Authorisation,
--   Extents, Fencing, Soundness, Receivers, Periodic, Verdicts and Rates.
-- - Declarations: src/flight_blender/services/flight_declarations_svc.py. Validation.antt,
--   Intents.antt and Creation.antt have `_create_flight_declaration_record` and its bulk form,
--   Updates.antt the listing and the operations on one declaration, Intersections.antt
--   `_process_intersection_result_sa`, Viewport.antt `_check_view_port`, Converter.antt
--   `OperationalIntentsConverter`, SetIntent.antt `set_operational_intent` with
--   `_run_deconfliction_sa`. The theorems are in Outcomes, Bulk, Unreadable, Rejection, Paging and
--   IntentOutcomes.
-- - Deconfliction: src/flight_blender/services/deconfliction_engine.py with the index factories of
--   src/flight_blender/utils/spatial_geo_fence.py and spatial_flight_declarations.py. The theorems
--   are in Verdict and Leftovers.
-- - Peers: the part of src/flight_blender/repositories/flight_declarations_repo.py that keeps the
--   operational intents of other USSs. Tables.antt has the rows, Writes.antt the three upserts. The
--   theorems are in Latest and Composites.
-- - Surveillance: src/flight_blender/services/surveillance_svc.py. Tables.antt has the rows of
--   src/flight_blender/models/surveillance_orm.py, Repository.antt
--   src/flight_blender/repositories/surveillance_repo.py, Health.antt the health of the sensors,
--   Sessions.antt the sessions with src/flight_blender/tasks/scheduler.py and surveillance_task.py,
--   Metrics.antt and SensorMetrics.antt the metrics, Service.antt the listings, Tracks.antt the
--   default fusion of tracks with the store of active tracks in
--   src/flight_blender/clients/redis_client.py.
--   Log.antt says what the tables tell of the health. The theorems are in Refinement, Starts,
--   Expiry, Tiling, Probability, Groups and Fusion.
-- - Feed: src/flight_blender/services/flight_feed_svc.py. Tables.antt has the rows, Repository.antt
--   src/flight_blender/repositories/flight_feed_repo.py, Ingest.antt the way of observations to the
--   table with src/flight_blender/tasks/flight_feed_task.py, Readings.antt `get_air_traffic` and
--   `ObservationReadOperations`, Telemetry.antt `submit_telemetry`. The theorems are in Stored,
--   Latest, Gaps, Dispatches and Timestamps.
-- - Scd: src/flight_blender/services/scd_svc.py. Registration.antt has the validators of the
--   numbers of an operator and of an aircraft, Planning.antt and Volumes.antt those of planning
--   data in src/flight_blender/utils/scd_helpers.py with the state of a planned flight, Dss.antt
--   and Closing.antt `delete_flight_plan` with `SCDOperations.delete_operational_intent` of
--   src/flight_blender/clients/dss_scd_client.py. The theorems are in Checksum, Dash, Shape, Plans
--   and Closings.
-- - Constraints: src/flight_blender/repositories/constraint_repo.py with the tables of
--   src/flight_blender/models/constraint_orm.py. Schema.antt has what the database enforces,
--   Repository.antt and Writes.antt the operations. The theorems are in Keeping and Lookups.
-- - Samples.antt and the Examples files: concrete data and the theorems at it.
--
-- The engine reads the tables that the service and the repositories write; the task hands a code to
-- a receiver; the work of the receiver, where it runs, writes the state, the history and the record
-- in one session and runs the handler of the new state. The service of declarations creates the rows; the result of the
-- deconfliction decides whether a row is refused or submitted.
--
-- Choices of the model. Times are microseconds since the epoch and the clock is an argument. Floats
-- of positions are only compared and are integers in units of 10⁻⁷; the metrics of surveillance are
-- exact integers, rounded to the nearest where the source rounds. Ids and state codes are numbers
-- that are only compared, and an id in a path is parsed already. A text column that holds JSON is
-- the value that is read from it, or nothing where the text is no JSON. The part of a message that
-- names an operation is left out, since the message has the id. The work that a receiver starts
-- runs at once outside of a loop; in the loop of the periodic task it is cancelled, since nothing
-- awaits it. Recursion is structural, but for the division of observations
-- into chunks, which takes their number as fuel, and a chunk is never empty.
--
-- Interfaces to code of other packages: `Geometry` (Shapely: building a polygon, a point within
-- it), `Externals` (arrow, marshmallow, Shapely's validity and bounds), `RTree` with the laws
-- `IsRTree` (rtree), `Shapes` (Shapely and pyproj: shapes, circles, mappings and bounds), `Engine`
-- (the plugin for the deconfliction, with a state of its own), `Dss` (the token service and the
-- DSS), and the hash of an id, which is any function.
--
-- Not modelled: the bulk form of set_operational_intent, the conversion from GeoJSON to volumes,
-- the plugin that generates volumes, and the network queries of the service of declarations; the
-- writes of subscribers, details and composite intents of its repository; the metric calculator of
-- the surveillance service, whose reader is no part of the code; `upsert_flight_plan` of the strategic coordination, the other requests to the DSS, the messages
-- of tracks, signed telemetry, remote identification, the services of geofences and USS, the
-- service of constraints, and authorisation. Routers, schemas, the clients of Redis and of the
-- broker are input and output.
pub mod Prelude
pub mod Exceptions
pub mod Json
pub mod Domain
pub mod World
pub mod Repositories
pub mod Conformance
pub mod Declarations
pub mod Deconfliction
pub mod Peers
pub mod Surveillance
pub mod Feed
pub mod Scd
pub mod Constraints
pub mod Samples
