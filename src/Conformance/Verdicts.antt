-- ===== src/Conformance/Verdicts.antt =====
-- The codes of the checks against their names, and the verdicts of the receivers against the
-- transitions that the state machine knows.
use flight_blender.Prelude.{
  sym, ℕ, ◌≤◌, ◌≡◌, refl, ap, ◌∙◌, ◌⊎◌, inl, inr, some, String, arith, eq_iff,
}
use flight_blender.Exceptions.{Result-cases, value_error, ok, raise}
use flight_blender.Conformance.States.{
  State, not_submitted, activated, nonconforming, on_event, get_status,
}
use flight_blender.Conformance.Checks.{state_code}
use flight_blender.Conformance.Signals.{telemetry_verdict, opint_verdict}

-- A code has a name iff it is one of 2 to 13; any other raises `ValueError`.
pub state_code_iff :
    (n : ℕ)
    → (((2 ≤ n) × (n ≤ 13)) × ((name : String) × (state_code n ≡ ok name)))
      ⊎ (¬ ((2 ≤ n) × (n ≤ 13)) × (state_code n ≡ raise value_error))
unfolding state_code
state_code_iff n = elim (Result-cases (state_code n)) [
  | inl (name, e) ↦ inl (ground arith, (name, e))
  | inr (x, e) ↦ inr (ground arith, ground arith)
]

opint_verdict-shape :
    (code event : String) (new_state : ℕ)
    → (opint_verdict code).change ≡ some (event, new_state)
    → (new_state ≡ 4)
      × (((code ≡ "C9a") × (event ≡ "timeout")) ⊎ (event ≡ "flight_blender_confirms_contingent"))
unfolding opint_verdict
opint_verdict-shape code event new_state h = ground (arith, eq_iff code "C9a")

telemetry_verdict-shape :
    (code event : String) (new_state : ℕ)
    → (telemetry_verdict code).change ≡ some (event, new_state)
    → (event ≡ "flight_blender_confirms_contingent")
      ⊎ ((event ≡ "ua_departs_early_late")
          ⊎ (((code ≡ "C7a") ⊎ (code ≡ "C7b"))
              × (event ≡ "ua_exits_coordinated_op_intent")
              × (new_state ≡ 3)))
unfolding telemetry_verdict
telemetry_verdict-shape code event new_state h =
    ground (arith, eq_iff code "C7a", eq_iff code "C7b")

on_event-confirms : (s : State) → on_event s "flight_blender_confirms_contingent" ≡ s
unfolding on_event
on_event-confirms not_submitted = refl
on_event-confirms _ = refl

on_event-departs : (s : State) → on_event s "ua_departs_early_late" ≡ s
unfolding on_event
on_event-departs not_submitted = refl
on_event-departs _ = refl

on_event-timeout :
    (s : State) → get_status (on_event s "timeout") ≡ 4 → (get_status s ≡ 4) ⊎ (s ≡ nonconforming)
unfolding on_event get_status
on_event-timeout not_submitted h = absurd (omega arith)
on_event-timeout s h = ground arith

on_event-exits :
    (s : State)
    → get_status (on_event s "ua_exits_coordinated_op_intent") ≡ 3
    → (get_status s ≡ 3) ⊎ (s ≡ activated)
unfolding on_event get_status
on_event-exits not_submitted h = absurd (omega arith)
on_event-exits s h = ground arith

-- The change that a failed authorisation check makes is one that the state machine allows only where
-- a nonconforming operation times out by C9a, or where the operation has the new state already.
pub opint_verdict-on_event :
    (code event : String) (new_state : ℕ) (s : State)
    → (opint_verdict code).change ≡ some (event, new_state)
    → get_status (on_event s event) ≡ new_state
    → (get_status s ≡ new_state) ⊎ ((s ≡ nonconforming) × (code ≡ "C9a"))
opint_verdict-on_event code event new_state s h p =
    let (four, way) = opint_verdict-shape code event new_state h in
    elim way [
      | inl (named, e) ↦
          elim (on_event-timeout s (ap (λ x. get_status (on_event s x)) (sym e) ∙ p ∙ four)) [
            | inl q ↦ inl (q ∙ sym four)
            | inr q ↦ inr (q, named)
          ]
      | inr e ↦ inl (
          ap get_status (sym (on_event-confirms s))
          ∙ ap (λ x. get_status (on_event s x)) (sym e)
          ∙ p)
    ]

-- The change that a failed telemetry check makes is one that the state machine allows only where an
-- activated operation leaves its volumes by C7a or C7b, or where it has the new state already.
pub telemetry_verdict-on_event :
    (code event : String) (new_state : ℕ) (s : State)
    → (telemetry_verdict code).change ≡ some (event, new_state)
    → get_status (on_event s event) ≡ new_state
    → (get_status s ≡ new_state) ⊎ ((s ≡ activated) × ((code ≡ "C7a") ⊎ (code ≡ "C7b")))
telemetry_verdict-on_event code event new_state s h p =
    elim (telemetry_verdict-shape code event new_state h) [
      | inl e ↦ inl (
          ap get_status (sym (on_event-confirms s))
          ∙ ap (λ x. get_status (on_event s x)) (sym e)
          ∙ p)
      | inr (inl e) ↦ inl (
          ap get_status (sym (on_event-departs s))
          ∙ ap (λ x. get_status (on_event s x)) (sym e)
          ∙ p)
      | inr (inr (named, e, three)) ↦
          elim (on_event-exits s (ap (λ x. get_status (on_event s x)) (sym e) ∙ p ∙ three)) [
            | inl q ↦ inl (q ∙ sym three)
            | inr q ↦ inr (q, named)
          ]
    ]
