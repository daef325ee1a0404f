-- ===== src/Surveillance/Starts.antt =====
-- What starting and stopping a session does.
use flight_blender.Prelude.{
  ℕ, ◌+◌, ◌≡◌, refl, Bool, true, ◌&&◌, Option, none, some, List, [], ◌∷◌, ◌++◌, arith, ◌==◌,
  if◌then◌else◌, find,
}
use mathlib.Core.List.{append-nil, append_assoc}
use flight_blender.Repositories.Tables.{delete_where}
use flight_blender.Surveillance.Tables.{Session}
use flight_blender.Surveillance.Repository.{get_session_by_id, create_session, delete_session}
use flight_blender.Surveillance.Sessions.{
  Task, TaskName, SessionWorld, start, stop, send_heartbeat_to_consumer,
  send_and_generate_track_to_consumer, seconds, start_surveillance_session,
  start_stop_surveillance_session, cancel_session_tasks,
}

find-snoc :
    (k v : ℕ) (ss : List Session)
    → find (λ s. s.id == k) ss ≡ none
    → find (λ s. s.id == k) (ss ++ record { id = k; valid_until = v } ∷ [])
      ≡ some (record { id = k; valid_until = v })
find-snoc k v [] h = ground arith
find-snoc k v (s ∷ ss) h = ground (arith, find-snoc k v ss)

delete-find :
    (k : ℕ) (ss : List Session) → find (λ s. s.id == k) (delete_where (λ s. s.id == k) ss) ≡ none
delete-find k [] = refl
delete-find k (s ∷ ss) = ground (arith, delete-find k ss)

abbrev pub heartbeat_task : ℕ → ℕ → Task
heartbeat_task now id = record {
  name = send_heartbeat_to_consumer;
  session_id = id;
  expires = some (now + seconds 60);
}

abbrev pub track_task : ℕ → ℕ → Task
track_task now id = record {
  name = send_and_generate_track_to_consumer;
  session_id = id;
  expires = some (now + seconds 60);
}

-- The code of the reply, the session of the id, and what is added to the queue.
abbrev pub Started : ℕ → Option Session → List Task → ℕ → SessionWorld → ℕ × SessionWorld → Type 0
Started id session tasks code w (code', w') =
    (code' ≡ code)
    × (get_session_by_id id w'.db ≡ session)
    × (w'.queue ≡ w.queue ++ tasks)
    × (w'.stop_keys ≡ w.stop_keys)

module _ (accepts : TaskName → Bool) (now id : ℕ) (w : SessionWorld) where
  abbrev pub started : ℕ × SessionWorld
  started = let (reply, w') = start_surveillance_session accepts now id w in (reply.1, w')

  -- Where the id is free: if the broker takes both tasks, the reply is 200, the session is in the table
  -- for thirty minutes and both tasks are queued; if not, the reply is 500 and there is no session, but
  -- a heartbeat task that the broker took stays queued.
  pub start-fresh :
      get_session_by_id id w.db ≡ none
      → Started id
          (if accepts send_heartbeat_to_consumer && accepts send_and_generate_track_to_consumer
            then some (record { id = id; valid_until = now + seconds 1800 })
            else none)
          (if accepts send_heartbeat_to_consumer
            then if accepts send_and_generate_track_to_consumer
              then heartbeat_task now id ∷ track_task now id ∷ []
              else heartbeat_task now id ∷ []
            else [])
          (if accepts send_heartbeat_to_consumer && accepts send_and_generate_track_to_consumer
            then 200
            else 500)
          w
          started
  unfolding start_surveillance_session get_session_by_id create_session delete_session
  start-fresh fresh = ground (
    arith,
    find-snoc id (now + seconds 1800) w.db.sessions fresh,
    delete-find id (w.db.sessions ++ record { id = id; valid_until = now + seconds 1800 } ∷ []),
    append_assoc w.queue (heartbeat_task now id ∷ []) (track_task now id ∷ []),
    append-nil w.queue,
  )

  pub start-accepted :
      ((name : TaskName) → accepts name ≡ true)
      → get_session_by_id id w.db ≡ none
      → Started id
          (some (record { id = id; valid_until = now + seconds 1800 }))
          (heartbeat_task now id ∷ track_task now id ∷ [])
          200
          w
          started
  start-accepted all fresh =
      rw (all send_heartbeat_to_consumer, all send_and_generate_track_to_consumer) at
        (start-fresh fresh)

  -- A session that is in the table is not started again, and nothing changes.
  pub start-known :
      (s : Session) → get_session_by_id id w.db ≡ some s → (started.0 ≡ 400) × (started.1 ≡ w)
  unfolding start_surveillance_session
  start-known s known = ground arith

-- The codes of three calls in a row: start, stop, start.
abbrev pub start_stop_start :
    (TaskName → Bool) → ℕ → ℕ → ℕ → ℕ → SessionWorld → (ℕ × ℕ × ℕ) × SessionWorld × SessionWorld
start_stop_start accepts t1 t2 t3 id w =
    let (r1, w1) = start_stop_surveillance_session accepts t1 id start w in
    let (r2, w2) = start_stop_surveillance_session accepts t2 id stop w1 in
    let (r3, w3) = start_stop_surveillance_session accepts t3 id start w2 in
    ((r1.1, r2.1, r3.1), w2, w3)

-- A session that was started and stopped is not started again: the call is refused and changes
-- nothing.
pub restart-refused :
    (accepts : TaskName → Bool) (t1 t2 t3 id : ℕ) (w : SessionWorld)
    → ((name : TaskName) → accepts name ≡ true)
    → get_session_by_id id w.db ≡ none
    → let (codes, w2, w3) = start_stop_start accepts t1 t2 t3 id w in
      (codes ≡ (200, 200, 400)) × (w3 ≡ w2)
unfolding start_stop_surveillance_session cancel_session_tasks
restart-refused accepts t1 t2 t3 id w all fresh = ground (
  arith,
  all send_heartbeat_to_consumer,
  all send_and_generate_track_to_consumer,
  start-accepted accepts t1 id w all fresh,
  start-known accepts t3 id (cancel_session_tasks t2 id (started accepts t1 id w).1)
      (record { id = id; valid_until = t1 + seconds 1800 }),
)
