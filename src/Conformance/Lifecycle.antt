-- ===== src/Conformance/Lifecycle.antt =====
-- The state classes implement the transition relation of ASTM F3548-21, and what follows for the
-- whole life of an operation.
use mathlib.Core.Path.{subst}
use flight_blender.Prelude.{
  ℕ, ◌<◌, ◌≡◌, refl, sym, ap, ◌∙◌, ◌==◌, ==_iff, ◌≢◌, ◌↔◌, ◌⊎◌, inl, inr, Bool, true, false, some,
  String, List, [], ◌∷◌, arith, eq_iff,
}
use flight_blender.Exceptions.{attribute_error, ok, raise}
use flight_blender.Conformance.States.{
  State, State-discrete, not_submitted, accepted, activated, ended, nonconforming, contingent,
  withdrawn, cancelled, rejected, on_event, match_state, get_status, run,
  verify_operation_state_transition,
}

-- The edges of the standard's diagram, each with the event that takes it.
pub data Transition : State → String → State → Type 0 where
  dss_accepts : {e : String} → e ≡ "dss_accepts" → Transition not_submitted e accepted
  withdraws : {e : String} → e ≡ "operator_withdraws" → Transition not_submitted e withdrawn
  cancels : {e : String} → e ≡ "operator_cancels" → Transition not_submitted e cancelled
  activates : {e : String} → e ≡ "operator_activates" → Transition accepted e activated
  ends_accepted : {e : String} → e ≡ "operator_confirms_ended" → Transition accepted e ended
  departs :
      {e : String}
      → e ≡ "ua_departs_early_late_outside_op_intent"
      → Transition accepted e nonconforming
  ends_activated : {e : String} → e ≡ "operator_confirms_ended" → Transition activated e ended
  exits : {e : String} → e ≡ "ua_exits_coordinated_op_intent" → Transition activated e nonconforming
  initiates : {e : String} → e ≡ "operator_initiates_contingent" → Transition activated e contingent
  returns :
      {e : String}
      → e ≡ "operator_return_to_coordinated_op_intent"
      → Transition nonconforming e activated
  ends_nonconforming :
      {e : String} → e ≡ "operator_confirms_ended" → Transition nonconforming e ended
  times_out : {e : String} → e ≡ "timeout" → Transition nonconforming e contingent
  confirms :
      {e : String} → e ≡ "operator_confirms_contingent" → Transition nonconforming e contingent
  ends_contingent : {e : String} → e ≡ "operator_confirms_ended" → Transition contingent e ended

ruleset edges = (
  dss_accepts, withdraws, cancels, activates, ends_accepted, departs, ends_activated, exits,
  initiates, returns, ends_nonconforming, times_out, confirms, ends_contingent,
)

Transition-on_event : {s t : State} {e : String} → Transition s e t → (on_event s e ≡ t) × (t ≢ s)
unfolding on_event
Transition-on_event (dss_accepts p) = rw p (refl, λ q. cc)
Transition-on_event (withdraws p) = rw p (refl, λ q. cc)
Transition-on_event (cancels p) = rw p (refl, λ q. cc)
Transition-on_event (activates p) = rw p (refl, λ q. cc)
Transition-on_event (ends_accepted p) = rw p (refl, λ q. cc)
Transition-on_event (departs p) = rw p (refl, λ q. cc)
Transition-on_event (ends_activated p) = rw p (refl, λ q. cc)
Transition-on_event (exits p) = rw p (refl, λ q. cc)
Transition-on_event (initiates p) = rw p (refl, λ q. cc)
Transition-on_event (returns p) = rw p (refl, λ q. cc)
Transition-on_event (ends_nonconforming p) = rw p (refl, λ q. cc)
Transition-on_event (times_out p) = rw p (refl, λ q. cc)
Transition-on_event (confirms p) = rw p (refl, λ q. cc)
Transition-on_event (ends_contingent p) = rw p (refl, λ q. cc)

on_event-Transition : (s : State) (e : String) → on_event s e ≢ s → Transition s e (on_event s e)
unfolding on_event
on_event-Transition not_submitted e h = grind (arith, edges, eq_iff)
on_event-Transition _ e h = grind (arith, edges, eq_iff)

-- A state class takes an event exactly along the edges of the diagram: it moves to another state iff
-- the diagram has that edge, and any other event leaves it where it is.
pub on_event-iff-Transition :
    (s t : State) (e : String) → Transition s e t ↔ ((on_event s e ≡ t) × (t ≢ s))
on_event-iff-Transition s t e = (
  Transition-on_event,
  λ (p, q). subst (Transition s e) p (on_event-Transition s e (λ r. q (sym p ∙ r))),
)

-- The codes and the classes correspond one to one, and any code above 8 has no class.
pub match_state-get_status : (n : ℕ) (s : State) → (match_state n ≡ some s) ↔ (n ≡ get_status s)
unfolding match_state get_status
match_state-get_status n s = ground arith

get_status_injective : (s t : State) → get_status s ≡ get_status t → s ≡ t
get_status_injective s t p = cc (
  (match_state-get_status (get_status t) s).1 (sym p),
  (match_state-get_status (get_status t) t).1 refl,
)

verify-eq :
    (s : State) (n : ℕ) (e : String)
    → verify_operation_state_transition (get_status s) n e ≡ ok (get_status (on_event s e) == n)
unfolding verify_operation_state_transition
verify-eq s n e = rw ((match_state-get_status (get_status s) s).1 refl)

verify-on_event :
    (s t : State) (e : String)
    → (verify_operation_state_transition (get_status s) (get_status t) e ≡ ok true)
      ↔ (on_event s e ≡ t)
verify-on_event s t e = (
  λ h. get_status_injective _ _ ((==_iff _ _).0 (ok_injective (sym (verify-eq s _ e) ∙ h))),
  λ p. verify-eq s _ e ∙ ap ok ((==_iff _ _).1 (ap get_status p)),
)
  where
    ok_injective : {a b : Bool} → ok a ≡ ok b → a ≡ b
    ok_injective p = cc

-- The check of a change of state passes iff the event is an edge between the two states, or it asks
-- for no change and the event is no edge of the state.
pub verify-iff-Transition :
    (s t : State) (e : String)
    → (verify_operation_state_transition (get_status s) (get_status t) e ≡ ok true)
      ↔ (Transition s e t ⊎ ((t ≡ s) × ((u : State) → ¬ Transition s e u)))
verify-iff-Transition s t e =
    (λ h. split ((verify-on_event s t e).0 h), λ h. (verify-on_event s t e).1 (join h))
  where
    split : on_event s e ≡ t → Transition s e t ⊎ ((t ≡ s) × ((u : State) → ¬ Transition s e u))
    split p = elim (State-discrete t s) [
      | yes q ↦ inr (q, λ u x. let (p', ne) = Transition-on_event x in ne (sym p' ∙ p ∙ q))
      | no q ↦ inl ((on_event-iff-Transition s t e).1 (p, q))
    ]

    join : Transition s e t ⊎ ((t ≡ s) × ((u : State) → ¬ Transition s e u)) → on_event s e ≡ t
    join (inl x) = (Transition-on_event x).0
    join (inr (q, none_fits)) = elim (State-discrete (on_event s e) s) [
      | yes r ↦ r ∙ sym q
      | no r ↦ absurd (none_fits _ (on_event-Transition s e r))
    ]

-- From an unknown code the check raises `AttributeError`: `match_state` has returned `False`.
pub verify_unknown :
    (n new_state : ℕ) (e : String)
    → 8 < n
    → verify_operation_state_transition n new_state e ≡ raise attribute_error
unfolding verify_operation_state_transition
verify_unknown n new_state e h = ground arith

-- Which states an operation can still reach.
abbrev pub can_reach : State → State → Bool
can_reach not_submitted rejected = false
can_reach not_submitted _ = true
can_reach accepted not_submitted = false
can_reach accepted withdrawn = false
can_reach accepted cancelled = false
can_reach accepted rejected = false
can_reach accepted _ = true
can_reach activated activated = true
can_reach activated nonconforming = true
can_reach activated contingent = true
can_reach activated ended = true
can_reach activated _ = false
can_reach nonconforming activated = true
can_reach nonconforming nonconforming = true
can_reach nonconforming contingent = true
can_reach nonconforming ended = true
can_reach nonconforming _ = false
can_reach contingent contingent = true
can_reach contingent ended = true
can_reach contingent _ = false
can_reach ended ended = true
can_reach ended _ = false
can_reach withdrawn withdrawn = true
can_reach withdrawn _ = false
can_reach cancelled cancelled = true
can_reach cancelled _ = false
can_reach rejected rejected = true
can_reach rejected _ = false

abbrev all_states : List State
all_states =
    not_submitted ∷ accepted ∷ activated ∷ ended ∷ nonconforming ∷ contingent ∷ withdrawn
    ∷ cancelled ∷ rejected ∷ []

-- The events that lead from one state to another, where there are any.
abbrev pub route : State → State → List String
route not_submitted accepted = "dss_accepts" ∷ []
route not_submitted activated = "dss_accepts" ∷ "operator_activates" ∷ []
route not_submitted nonconforming = "dss_accepts" ∷ "ua_departs_early_late_outside_op_intent" ∷ []
route not_submitted contingent =
    "dss_accepts" ∷ "operator_activates" ∷ "operator_initiates_contingent" ∷ []
route not_submitted ended = "dss_accepts" ∷ "operator_confirms_ended" ∷ []
route not_submitted withdrawn = "operator_withdraws" ∷ []
route not_submitted cancelled = "operator_cancels" ∷ []
route accepted activated = "operator_activates" ∷ []
route accepted nonconforming = "ua_departs_early_late_outside_op_intent" ∷ []
route accepted contingent = "operator_activates" ∷ "operator_initiates_contingent" ∷ []
route accepted ended = "operator_confirms_ended" ∷ []
route activated nonconforming = "ua_exits_coordinated_op_intent" ∷ []
route activated contingent = "operator_initiates_contingent" ∷ []
route activated ended = "operator_confirms_ended" ∷ []
route nonconforming activated = "operator_return_to_coordinated_op_intent" ∷ []
route nonconforming contingent = "timeout" ∷ []
route nonconforming ended = "operator_confirms_ended" ∷ []
route contingent ended = "operator_confirms_ended" ∷ []
route _ _ = []

run-route : (s t : State) → can_reach s t ≡ true → run s (route s t) ≡ t
unfolding run on_event
run-route not_submitted not_submitted h = refl
run-route _ _ h = ground arith

can_reach_refl : (s : State) → can_reach s s ≡ true
can_reach_refl not_submitted = refl
can_reach_refl _ = refl

can_reach-on_event :
    (s t : State) (e : String) → can_reach (on_event s e) t ≡ true → can_reach s t ≡ true
unfolding on_event
can_reach-on_event s t e h = ground arith

can_reach-run : (s : State) (es : List String) → can_reach s (run s es) ≡ true
unfolding run
can_reach-run s [] = can_reach_refl s
can_reach-run s (e ∷ es) =
    can_reach-on_event s (run (on_event s e) es) e (can_reach-run (on_event s e) es)

-- The table says exactly which states events can lead to: a state is reached by some sequence of
-- events iff the table allows it. So an ended, withdrawn, cancelled or rejected operation stays so
-- for ever, and no event rejects an operation.
pub run-iff-can_reach :
    (s t : State) → ((es : List String) × (run s es ≡ t)) ↔ (can_reach s t ≡ true)
run-iff-can_reach s t = (
  λ (es, p). subst (λ u. can_reach s u ≡ true) p (can_reach-run s es),
  λ h. (route s t, run-route s t h),
)
