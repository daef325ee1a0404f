-- ===== src/Feed/Gaps.antt =====
-- What the readings of one client leave out: the rows of a reading, by the reading before it.
use flight_blender.Prelude.{
  ℕ, ◌+◌, ◌-◌, ℤ, ◌≡◌, refl, ◌∙◌, Bool, ◌&&◌, none, List, [], ◌∷◌, ◌==◌, arith, ltb, leb,
  if◌then◌else◌, select, find,
}
use flight_blender.Repositories.Tables.{count, count-order_by, count-select, delete_where}
use flight_blender.Feed.Tables.{ObservationRow, FeedDb}
use flight_blender.Feed.Repository.{get_recent_flight_observations}
use flight_blender.Feed.Readings.{
  ReadingKey, is_live, after_datetime, remember, get_flight_observations,
}

abbrev pub five_minutes : ℕ
five_minutes = 300000000

find-forgotten :
    (t session_id : ℕ) (keys : List ReadingKey)
    → find (is_live t session_id) (delete_where (λ k. k.session_id == session_id) keys) ≡ none
find-forgotten t session_id [] = refl
find-forgotten t session_id (k ∷ keys) = ground (arith, find-forgotten t session_id keys)

-- The time from which a second reading takes rows.
abbrev pub cutoff : ℕ → ℕ → ℕ
cutoff t1 t2 = if ltb t2 (t1 + five_minutes) then t1 else t2 - 20000000

after_datetime-remember :
    (t1 t2 session_id : ℕ) (keys : List ReadingKey)
    → after_datetime t2 session_id (remember t1 session_id keys) ≡ cutoff t1 t2
unfolding after_datetime remember
after_datetime-remember t1 t2 session_id keys = ground (arith, find-forgotten t2 session_id keys)

count-recent :
    (p : ObservationRow → Bool) (from : ℕ) (db : FeedDb)
    → count p (get_recent_flight_observations from db)
      ≡ count (λ r. leb from r.created_at && p r) db.observations
unfolding get_recent_flight_observations
count-recent p from db =
    count-order_by p (λ r. r.created_at) (select (λ r. leb from r.created_at) db.observations)
    ∙ count-select p (λ r. leb from r.created_at) db.observations

-- Two readings of a session without a box, the second within five minutes of the first: the second has
-- each row of the table that was stored at or after the time of the first, as often as the table has it,
-- where the session has no reading in between. After five minutes or more it has the rows of the last twenty seconds only.
pub get_flight_observations-since :
    (contains : List ℤ → ℤ → ℤ → Bool) (t1 t2 session_id : ℕ) (keys : List ReadingKey)
    (db1 db2 : FeedDb) (p : ObservationRow → Bool)
    → let (rows1, keys1) = get_flight_observations contains none t1 session_id keys db1 in
      let (rows2, keys2) = get_flight_observations contains none t2 session_id keys1 db2 in
      count p rows2 ≡ count (λ r. leb (cutoff t1 t2) r.created_at && p r) db2.observations
unfolding get_flight_observations
get_flight_observations-since contains t1 t2 session_id keys db1 db2 p =
    rw (after_datetime-remember t1 t2 session_id keys) (count-recent p (cutoff t1 t2) db2)
