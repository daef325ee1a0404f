-- ===== src/Feed/Dispatches.antt =====
-- What `submit_telemetry` hands to the dispatcher.
use flight_blender.Prelude.{
  ℕ, ◌≡◌, refl, ◌∙◌, Bool, true, false, ◌⊎◌, inl, inr, Option, none, some, List, [], ◌∷◌, ◌++◌, all,
  is_some, Option-cases,
}
use mathlib.Core.List.{append-nil, append_assoc}
use flight_blender.Exceptions.{Exc, Result, ok, raise}
use flight_blender.Json.{Json}
use flight_blender.World.{Declaration}
use flight_blender.Feed.Telemetry.{
  Parsed, TelemetryObservation, TelemetryReply, Refusal, submitted, Payload, read_flight,
  check_operation, submit_flights,
}

-- Each payload has the observations of the one before it and one more.
abbrev pub prefixes {ℓ} : {A : Type ℓ} → List A → List A → List (List A)
prefixes before [] = []
prefixes before (x ∷ xs) = (before ++ x ∷ []) ∷ prefixes (before ++ x ∷ []) xs

abbrev pub is_submitted : Result TelemetryReply → Bool
is_submitted (ok submitted) = true
is_submitted _ = false

-- The observation of a flight that is read, and whose operation is active and in an allowed state.
abbrev pub keep_allowed {ℓ} :
    {S : Type ℓ}
    → ℕ
    → List Declaration
    → List ℕ
    → Result (Refusal ⊎ TelemetryObservation S)
    → Option (TelemetryObservation S)
keep_allowed now declarations allowed_states (raise e) = none
keep_allowed now declarations allowed_states (ok (inl reply)) = none
keep_allowed now declarations allowed_states (ok (inr o)) =
    elim (check_operation now declarations allowed_states o.operation_id) [
      | some reply ↦ none
      | none ↦ some o
    ]

read-cases {ℓ} :
    {S : Type ℓ} (r : Result (Refusal ⊎ TelemetryObservation S))
    → ((e : Exc) × (r ≡ raise e))
      ⊎ (((why : Refusal) × (r ≡ ok (inl why))) ⊎ ((o : TelemetryObservation S) × (r ≡ ok (inr o))))
read-cases (raise e) = inl (e, refl)
read-cases (ok (inl why)) = inr (inl (why, refl))
read-cases (ok (inr o)) = inr (inr (o, refl))

module _ {ℓ} {S : Type ℓ} (parse_states : Json → Parsed S)
    (parse_details : Json → Parsed (Option ℕ)) (now : ℕ) (declarations : List Declaration)
    (allowed_states : List ℕ) where
  abbrev pub accepted : Json → Option (TelemetryObservation S)
  accepted flight =
      keep_allowed now declarations allowed_states (read_flight parse_states parse_details flight)

  -- The observations of the flights before the first that is not accepted.
  abbrev pub accepted_before : List Json → Payload S
  accepted_before [] = []
  accepted_before (f ∷ fs) =
      let rest = accepted_before fs in elim (accepted f) [ none ↦ [] | some o ↦ o ∷ rest ]

  -- The payloads that are dispatched, whatever the reply is: one for each flight before the first that
  -- is not accepted, with the observations of all flights up to it. The request is answered as submitted
  -- exactly when all flights are accepted.
  pub submit_flights-prefixes :
      (observations : Payload S) (flights : List Json) (sent : List (Payload S))
      → let (reply, sent') =
          submit_flights parse_states parse_details now declarations allowed_states observations
            flights sent in
        (sent' ≡ sent ++ prefixes observations (accepted_before flights))
        × (is_submitted reply ≡ all (λ f. is_some (accepted f)) flights)
  unfolding submit_flights
  submit_flights-prefixes observations [] sent = (simp append-nil, refl)
  submit_flights-prefixes observations (f ∷ fs) sent =
      elim (read-cases (read_flight parse_states parse_details f)) [
        | inl (e, read) ↦ rw (read, submit_flights, accepted_before) (simp append-nil, refl)
        | inr (inl (why, read)) ↦ rw (read, submit_flights, accepted_before) (simp append-nil, refl)
        | inr (inr (o, read)) ↦
            elim (Option-cases (check_operation now declarations allowed_states o.operation_id)) [
              | inr (why, refuses) ↦
                  rw (read, submit_flights, accepted_before, keep_allowed, refuses)
                    (simp append-nil, refl)
              | inl passes ↦
                  let (sent_lem, reply) =
                    submit_flights-prefixes (observations ++ o ∷ []) fs
                      (sent ++ (observations ++ o ∷ []) ∷ []) in
                  rw (read, submit_flights, accepted_before, keep_allowed, passes)
                    (sent_lem ∙ append_assoc sent _ _, reply)
            ]
      ]
