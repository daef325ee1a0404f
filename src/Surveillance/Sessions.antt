-- ===== src/Surveillance/Sessions.antt =====
-- The sessions of `SurveillanceOperations`, the tasks that `TaskSchedulerService` puts on the queue
-- (tasks/scheduler.py), and the heartbeat task (tasks/surveillance_task.py). The broker is the test
-- `accepts` of a task's name: whether `send_task` returns or raises.
use flight_blender.Prelude.{
  ℕ, ◌+◌, ◌*◌, ◌-◌, Bool, true, false, not, ◌&&◌, ◌||◌, Option, none, some, List, [], ◌∷◌, ◌++◌,
  ◌==◌, leb, ltb, if◌then◌else◌, is_some, any,
}
use flight_blender.Surveillance.Tables.{SurveillanceDb}
use flight_blender.Surveillance.Repository.{
  record_track_event, get_session_by_id, create_session, delete_session, record_heartbeat_event,
}
use flight_blender.Surveillance.Health.{Reply, error, error_about, status}

abbrev pub seconds : ℕ → ℕ
seconds n = n * 1000000

-- The task names that a session uses.
pub data TaskName : Type 0 where
  send_heartbeat_to_consumer send_and_generate_track_to_consumer : TaskName

-- A task on the queue, with its argument and `expires_iso`.
pub record Task : Type 0 where
  pub name : TaskName
  pub session_id : ℕ
  pub expires : Option ℕ

-- The key `stop_task_<id>` in Redis, with the time that it is kept until.
pub record StopKey : Type 0 where
  pub session_id : ℕ
  pub kept_until : ℕ

pub record SessionWorld : Type 0 where
  pub db : SurveillanceDb
  pub queue : List Task
  pub stop_keys : List StopKey

-- `app.send_task`, with the exception turned into the result.
unfoldable pub send_task : (TaskName → Bool) → Task → SessionWorld → Bool × SessionWorld
send_task accepts task w =
    if accepts task.name then (true, record w { queue = w.queue ++ task ∷ [] }) else (false, w)

unfoldable pub schedule_surveillance_heartbeat :
    (TaskName → Bool) → ℕ → ℕ → SessionWorld → Bool × SessionWorld
unfolding send_task
schedule_surveillance_heartbeat accepts now session_id = send_task accepts (record {
  name = send_heartbeat_to_consumer;
  session_id = session_id;
  expires = some (now + seconds 60);
})

unfoldable pub schedule_surveillance_track :
    (TaskName → Bool) → ℕ → ℕ → SessionWorld → Bool × SessionWorld
unfolding send_task
schedule_surveillance_track accepts now session_id = send_task accepts (record {
  name = send_and_generate_track_to_consumer;
  session_id = session_id;
  expires = some (now + seconds 60);
})

unfoldable pub cancel_session_tasks : ℕ → ℕ → SessionWorld → SessionWorld
cancel_session_tasks now session_id w = record w {
  stop_keys =
      w.stop_keys ++ record { session_id = session_id; kept_until = now + seconds 300 } ∷ [];
}

pub data SessionAction : Type 0 where
  start stop : SessionAction

unfoldable pub start_surveillance_session :
    (TaskName → Bool) → ℕ → ℕ → SessionWorld → Reply × SessionWorld
unfolding schedule_surveillance_heartbeat schedule_surveillance_track
start_surveillance_session accepts now session_id w =
    if is_some (get_session_by_id session_id w.db)
    then ((error "Surveillance monitoring heartbeat task already exists", 400), w)
    else let (created, db) = create_session session_id (now + seconds 1800) w.db in
      if not created
      then ((error "Failed to create surveillance session", 500), record w { db = db })
      else let (heartbeat_ok, w1) =
          schedule_surveillance_heartbeat accepts now session_id (record w { db = db }) in
        if not heartbeat_ok
        then (
          (error "Failed to create surveillance monitoring heartbeat task", 500),
          record w1 { db = delete_session session_id w1.db },
        )
        else let (track_ok, w2) = schedule_surveillance_track accepts now session_id w1 in
          if not track_ok
          then (
            (error "Failed to create surveillance monitoring track task", 500),
            record w2 { db = delete_session session_id w2.db },
          )
          else ((status "Surveillance monitoring heartbeat started", 200), w2)

-- Any action but `start` stops.
unfoldable pub start_stop_surveillance_session :
    (TaskName → Bool) → ℕ → ℕ → SessionAction → SessionWorld → Reply × SessionWorld
unfolding start_surveillance_session cancel_session_tasks
start_stop_surveillance_session accepts now session_id start w =
    start_surveillance_session accepts now session_id w
start_stop_surveillance_session accepts now session_id stop w =
    if is_some (get_session_by_id session_id w.db)
    then (
      (status "Surveillance monitoring tasks removed successfully", 200),
      cancel_session_tasks now session_id w,
    )
    else ((error_about "Invalid surveillance_session_id provided" session_id, 400), w)

-- `r.exists("stop_task_...")`, and `expires_iso and arrow.utcnow() > arrow.get(expires_iso)`
abbrev pub is_stopped : ℕ → ℕ → SessionWorld → Bool
is_stopped now session_id w =
    any (λ k. k.session_id == session_id && ltb now k.kept_until) w.stop_keys

abbrev pub is_expired : ℕ → Task → Bool
is_expired now task = elim task.expires [ none ↦ false | some e ↦ ltb e now ]

-- One run of the heartbeat task, taken from the queue: `published` is whether the message went out,
-- at `dispatched`; `latency` is the greatest delay that is on time. `apply_async` queues it again.
unfoldable pub send_heartbeat : ℕ → ℕ → ℕ → Bool → Task → SessionWorld → SessionWorld
send_heartbeat latency now dispatched published task w =
    if is_stopped now task.session_id w || is_expired now task
    then w
    else let (_, db) =
        record_heartbeat_event dispatched task.session_id now
          (published && leb (dispatched - now) latency && leb (now - dispatched) latency) w.db in
      record w { db = db; queue = w.queue ++ task ∷ [] }

-- One run of the track task: `tracked` is whether the plugin gave any track.
unfoldable pub send_and_generate_track : ℕ → ℕ → Bool → Task → SessionWorld → SessionWorld
send_and_generate_track now dispatched tracked task w =
    if is_stopped now task.session_id w || is_expired now task
    then w
    else let (_, db) = record_track_event dispatched task.session_id now tracked w.db in
      record w { db = db; queue = w.queue ++ task ∷ [] }
