-- ===== src/Feed/Stored.antt =====
-- What is in the table and in the stream after the tasks of a request have run.
use flight_blender.Prelude.{
  sym, ℕ, zero, suc, ◌-◌, ◌≤◌, ◌<◌, ◌≡◌, refl, ap, Option, some, List, [], ◌∷◌, ◌++◌, arith,
  if◌then◌else◌, is_empty, map, take, drop, length, All,
}
use mathlib.Core.List.{append-nil, append_assoc, map-append}
use flight_blender.Feed.Tables.{Observation, FeedDb}
use flight_blender.Feed.Repository.{row_of}
use flight_blender.Feed.Ingest.{
  ObservationIn, to_observations, chunks, set_air_traffic, parse_all,
  bulk_write_incoming_air_traffic_data, run_queue,
}

abbrev pub concat {ℓ} : {A : Type ℓ} → List (List A) → List A
concat [] = []
concat (xs ∷ xss) = xs ++ concat xss

module _ {ℓ} {A : Type ℓ} where
  take-drop : (n : ℕ) (xs : List A) → take n xs ++ drop n xs ≡ xs
  take-drop zero xs = refl
  take-drop (suc n) [] = refl
  take-drop (suc n) (x ∷ xs) = ap (λ ys. x ∷ ys) (take-drop n xs)

  length-drop : (n : ℕ) (xs : List A) → length (drop n xs) ≡ length xs - n
  length-drop zero xs = omega arith
  length-drop (suc n) [] = omega arith
  length-drop (suc n) (x ∷ xs) = omega (arith, length-drop n xs)

  length-take : (n : ℕ) (xs : List A) → length (take n xs) ≤ n
  length-take zero xs = omega arith
  length-take (suc n) [] = omega arith
  length-take (suc n) (x ∷ xs) = omega (arith, length-take n xs)

  -- Nothing is lost, doubled or moved by the division into chunks, and no chunk is too long.
  pub concat-chunks :
      (size fuel : ℕ) (xs : List A)
      → 0 < size
      → length xs ≤ fuel
      → concat (chunks size fuel xs) ≡ xs
  unfolding chunks
  concat-chunks size zero [] h le = refl
  concat-chunks size zero (x ∷ xs) h le = absurd (omega arith)
  concat-chunks size (suc n) [] h le = refl
  concat-chunks size (suc n) (x ∷ xs) h le =
      rw (concat-chunks size n (drop size (x ∷ xs)) h (omega (arith, length-drop size (x ∷ xs))))
        (take-drop size (x ∷ xs))

  pub chunks-All : (size fuel : ℕ) (xs : List A) → All (λ c. length c ≤ size) (chunks size fuel xs)
  unfolding chunks
  chunks-All size zero xs = tt
  chunks-All size (suc n) [] = tt
  chunks-All size (suc n) (x ∷ xs) =
      (length-take size (x ∷ xs), chunks-All size n (drop size (x ∷ xs)))

-- What a payload adds to the table and to the stream.
abbrev pub added : ℕ → List Observation → FeedDb × List Observation → FeedDb × List Observation
added now os (db, stream) =
    (record db { observations = db.observations ++ map (row_of now) os }, stream ++ os)

added-nil :
    (now : ℕ) (db : FeedDb) (stream : List Observation) → added now [] (db, stream) ≡ (db, stream)
added-nil now db stream = simp append-nil

added-append :
    (now : ℕ) (xs ys : List Observation) (db : FeedDb) (stream : List Observation)
    → added now ys (added now xs (db, stream)) ≡ added now (xs ++ ys) (db, stream)
added-append now xs ys db stream = simp (append_assoc, map-append)

added_unless_empty :
    (now : ℕ) (os : List Observation) (db : FeedDb) (stream : List Observation)
    → (if is_empty os then (db, stream) else added now os (db, stream)) ≡ added now os (db, stream)
added_unless_empty now [] db stream = sym (added-nil now db stream)
added_unless_empty now (o ∷ os) db stream = refl

module _ {ℓ} {J : Type ℓ} (parse : J → Option Observation) where
  parse_all-append :
      (xs ys : List J) → parse_all parse (xs ++ ys) ≡ parse_all parse xs ++ parse_all parse ys
  parse_all-append [] ys = refl
  parse_all-append (x ∷ xs) ys = ground (arith, parse_all-append xs ys)

  bulk_write-added :
      (now : ℕ) (payload : List J) (s : FeedDb × List Observation)
      → bulk_write_incoming_air_traffic_data parse now payload s
        ≡ added now (parse_all parse payload) s
  unfolding bulk_write_incoming_air_traffic_data
  bulk_write-added now payload (db, stream) =
      added_unless_empty now (parse_all parse payload) db stream

  run_queue-added :
      (now : ℕ) (ps : List (List J)) (s : FeedDb × List Observation)
      → run_queue parse now ps s ≡ added now (parse_all parse (concat ps)) s
  unfolding run_queue
  run_queue-added now [] (db, stream) = sym (added-nil now db stream)
  run_queue-added now (p ∷ ps) (db, stream) =
      rw (bulk_write-added now p (db, stream), run_queue-added now ps, parse_all-append)
        (added-append now (parse_all parse p) (parse_all parse (concat ps)) db stream)

  parse_all-map :
      (encode : Observation → J)
      → ((o : Observation) → parse (encode o) ≡ some o)
      → (os : List Observation) → parse_all parse (map encode os) ≡ os
  parse_all-map encode decodes [] = refl
  parse_all-map encode decodes (o ∷ os) =
      rw (decodes o) (ap (λ r. o ∷ r) (parse_all-map encode decodes os))

  -- Where dacite reads what `asdict` writes: once the tasks that a request queues have run, the table
  -- has one more row for each observation of the body, in order, and the stream has these observations.
  pub set_air_traffic-stored :
      (encode : Observation → J)
      → ((o : Observation) → parse (encode o) ≡ some o)
      → (now session_id : ℕ) (body : List ObservationIn) (db : FeedDb) (stream : List Observation)
      → run_queue parse now (set_air_traffic encode session_id body) (db, stream) ≡ (
        record db {
          observations = db.observations ++ map (row_of now) (to_observations session_id body);
        },
        stream ++ to_observations session_id body,
      )
  unfolding set_air_traffic
  set_air_traffic-stored encode decodes now session_id body db stream =
      let os = to_observations session_id body in
      rw (
        run_queue-added now (set_air_traffic encode session_id body) (db, stream),
        concat-chunks 250 (length (map encode os)) (map encode os) (omega arith) (omega arith),
        parse_all-map encode decodes os,
      )
