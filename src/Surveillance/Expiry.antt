-- ===== src/Surveillance/Expiry.antt =====
-- The tasks of sessions queue themselves again: until when they do so, and what they record.
use flight_blender.Prelude.{
  ◌==◌, find, ◌⊎◌, inr, inl, ℕ, zero, suc, ◌+◌, ◌≤◌, ◌<◌, ◌≡◌, refl, Bool, true, none, some, List,
  [], ◌∷◌, ◌++◌, arith, length, ap, ◌∙◌, All,
}
use flight_blender.Surveillance.Tables.{SurveillanceDb, Session}
use flight_blender.Surveillance.Repository.{
  record_track_event, record_heartbeat_event, get_session_by_id,
}
use flight_blender.Surveillance.Sessions.{
  Task, TaskName, SessionWorld, send_heartbeat_to_consumer, send_and_generate_track_to_consumer,
  seconds, send_heartbeat, send_and_generate_track,
}
use flight_blender.Surveillance.Starts.{started, start-accepted, heartbeat_task, track_task}

-- What the outside gives to one run of a task: the time, the time after the message, whether the
-- message went out, and whether there was a track.
pub record Tick : Type 0 where
  pub now : ℕ
  pub dispatched : ℕ
  pub published : Bool
  pub tracked : Bool

unfoldable pub run_task : ℕ → Tick → Task → SessionWorld → SessionWorld
run_task latency t task w = elim task.name [
  | send_heartbeat_to_consumer ↦ send_heartbeat latency t.now t.dispatched t.published task w
  | send_and_generate_track_to_consumer ↦
      send_and_generate_track t.now t.dispatched t.tracked task w
]

-- The worker takes any task from the queue and runs it, each time after `since`. The number counts the
-- runs.
pub data Runs (latency since : ℕ) : SessionWorld → ℕ → SessionWorld → Type 0 where
  none_left : {w : SessionWorld} → Runs latency since w zero w
  run_next :
      {w w' : SessionWorld} {n : ℕ} (before after : List Task) (task : Task) (t : Tick)
      → w.queue ≡ before ++ task ∷ after
      → since < t.now
      → Runs latency since (run_task latency t task (record w { queue = before ++ after })) n w'
      → Runs latency since w (suc n) w'

abbrev pub Expires : ℕ → Task → Type 0
Expires since task = (e : ℕ) × (task.expires ≡ some e) × (e ≤ since)

All-split :
    (P : Task → Type 0) (xs ys : List Task) (x : Task)
    → All P (xs ++ x ∷ ys)
    → P x × All P (xs ++ ys)
All-split P [] ys x h = h
All-split P (z ∷ xs) ys x h = let (p, rest) = All-split P xs ys x h.1 in (p, (h.0, rest))

run_task-expired :
    (latency since : ℕ) (t : Tick) (task : Task) (w : SessionWorld)
    → Expires since task
    → since < t.now
    → run_task latency t task w ≡ w
unfolding run_task send_heartbeat send_and_generate_track
run_task-expired latency since t task w (e, expires, early) late = ground arith

length-middle : (xs ys : List Task) (x : Task) → length (xs ++ x ∷ ys) ≡ suc (length (xs ++ ys))
length-middle [] ys x = refl
length-middle (z ∷ xs) ys x = omega (arith, length-middle xs ys x)

-- Past the time at which its tasks expire, a queue only shrinks: each run takes a task away, and
-- nothing is recorded.
pub Runs-end :
    {latency since n : ℕ} {w w' : SessionWorld}
    → Runs latency since w n w'
    → All (Expires since) w.queue
    → (w'.db ≡ w.db) × (length w'.queue + n ≡ length w.queue)
Runs-end none_left h = (refl, omega arith)
Runs-end {latency} {since} {w = w} (run_next before after task t e late rest) h =
    let rest_world : SessionWorld = record w { queue = before ++ after } in
    let (expires, others) = All-split (Expires since) before after task (rw e at h) in
    let idle = run_task-expired latency since t task rest_world expires late in
    let (db, count) = Runs-end rest (rw idle others) in
    (
      db ∙ ap (λ (x : SessionWorld). x.db) idle,
      omega (
        arith,
        count,
        ap (λ (x : SessionWorld). length x.queue) idle,
        length-middle before after task,
        ap length e,
      ),
    )

-- A run leaves the table of sessions as it is, and puts its task back as it was or drops it.
run_task-keeps :
    (latency : ℕ) (t : Tick) (task : Task) (w : SessionWorld)
    → ((run_task latency t task w).db.sessions ≡ w.db.sessions)
      × (((run_task latency t task w).queue ≡ w.queue)
          ⊎ ((run_task latency t task w).queue ≡ w.queue ++ task ∷ []))
unfolding run_task send_heartbeat send_and_generate_track record_heartbeat_event record_track_event
run_task-keeps latency t task w = ground arith

All-end : (P : Task → Type 0) (xs : List Task) (x : Task) → All P xs → P x → All P (xs ++ x ∷ [])
All-end P [] x h p = (p, tt)
All-end P (y ∷ xs) x h p = (h.0, All-end P xs x h.1 p)

length-end : (xs : List Task) (x : Task) → length (xs ++ x ∷ []) ≡ suc (length xs)
length-end [] x = refl
length-end (y ∷ xs) x = omega (arith, length-end xs x)

-- Whenever the tasks run, no task gets more time and the queue does not grow.
pub Runs-keep :
    (deadline : ℕ) {latency early n : ℕ} {w w' : SessionWorld}
    → Runs latency early w n w'
    → All (Expires deadline) w.queue
    → (w'.db.sessions ≡ w.db.sessions)
      × All (Expires deadline) w'.queue
      × (length w'.queue ≤ length w.queue)
Runs-keep deadline none_left h = (refl, h, omega arith)
Runs-keep deadline {latency} {w = w} (run_next before after task t e late rest) h =
    let rest_world : SessionWorld = record w { queue = before ++ after } in
    let (expires, others) = All-split (Expires deadline) before after task (rw e at h) in
    let (sessions, queue) = run_task-keeps latency t task rest_world in
    elim queue [
      | inl dropped ↦
          let (s, all, fewer) = Runs-keep deadline rest (rw dropped others) in
          (
            s ∙ sessions,
            all,
            omega (arith, fewer, ap length dropped, length-middle before after task, ap length e),
          )
      | inr back ↦
          let (s, all, fewer) =
            Runs-keep deadline rest
              (rw back (All-end (Expires deadline) (before ++ after) task others expires)) in
          (
            s ∙ sessions,
            all,
            omega (
              arith,
              fewer,
              ap length back,
              length-end (before ++ after) task,
              length-middle before after task,
              ap length e,
            ),
          )
    ]

-- A session that is started on an empty queue: its tasks run in any order after `early`, and then each
-- time later than one minute after the start. From then on they run twice at most in all, and no
-- table changes, although the session is in the table as valid for thirty minutes.
pub started-expire :
    (accepts : TaskName → Bool) (now id latency early : ℕ) (w : SessionWorld)
    → ((name : TaskName) → accepts name ≡ true)
    → get_session_by_id id w.db ≡ none
    → w.queue ≡ []
    → {n1 n2 : ℕ} {w1 w2 : SessionWorld} → Runs latency early (started accepts now id w).1 n1 w1
    → Runs latency (now + seconds 60) w1 n2 w2
    → (get_session_by_id id w2.db ≡ some (record { id = id; valid_until = now + seconds 1800 }))
      × (w2.db ≡ w1.db)
      × (length w2.queue + n2 ≤ 2)
unfolding get_session_by_id
started-expire accepts now id latency early w all fresh empty early_runs late_runs =
    let (code, session, queued, keys) = start-accepted accepts now id w all fresh in
    let queue : (started accepts now id w).1.queue
        ≡ heartbeat_task now id ∷ track_task now id ∷ [] =
      queued ∙ ap (λ (q : List Task). q ++ heartbeat_task now id ∷ track_task now id ∷ []) empty in
    let (sessions, expire, fewer) = Runs-keep (now + seconds 60) early_runs (
      rw queue
        ((now + seconds 60, refl, omega arith), ((now + seconds 60, refl, omega arith), tt))) in
    let (db, count) = Runs-end late_runs expire in
    (
      ap (λ (x : SurveillanceDb). find (λ s. s.id == id) x.sessions) db
          ∙ (ap (λ (x : List Session). find (λ s. s.id == id) x) sessions ∙ session),
      db,
      omega (arith, count, fewer, ap length queue),
    )
