-- ===== src/Conformance/Authorisation.antt =====
-- What the answers of the authorisation check mean (`FlightBlenderConformanceEngine`).
use flight_blender.Prelude.{
  ℕ, ◌+◌, ◌≤◌, ◌≡◌, refl, ap, ◌↔◌, ◌⊎◌, inl, inr, true, false, some, String, arith, ◌==◌, find,
  is_some, Option-cases,
}
use flight_blender.Exceptions.{ok}
use flight_blender.Domain.{Settings}
use flight_blender.World.{Declaration, OpintReference, Db}
use flight_blender.Conformance.Checks.{state_code}
use flight_blender.Conformance.Signals.{opint_verdict}
use flight_blender.Conformance.Engine.{
  fifteen_seconds, check_flight_operational_intent_reference_conformance,
}

-- The declaration and its latest telemetry pass: state activated, nonconforming or contingent, and
-- telemetry at most fifteen seconds away from now.
pub record IsLive (now : ℕ) (d : Declaration) : Type 0 where
  pub t : ℕ
  pub state_live : (d.state ≡ 2) ⊎ ((d.state ≡ 3) ⊎ (d.state ≡ 4))
  pub reported : d.latest_telemetry_datetime ≡ some t
  pub not_stale : now ≤ t + fifteen_seconds
  pub not_ahead : t ≤ now + fifteen_seconds

module _ (settings : Settings) (now : ℕ) (db : Db) (id : ℕ) where
  -- The authorisation check answers 1 iff the declaration exists, its state is activated,
  -- nonconforming or contingent, its telemetry is at most fifteen seconds away from now, and, where
  -- the network is enabled, the DSS reference exists.
  pub opint_check_iff :
      (check_flight_operational_intent_reference_conformance settings now db id ≡ 1) ↔ (
        ((settings.ussp_network_enabled ≡ false)
          ⊎ (is_some (find (λ (r : OpintReference). r.declaration_id == id) db.references) ≡ true))
        × ((d : Declaration) × (find (λ (e : Declaration). e.id == id) db.declarations ≡ some d)
            × IsLive now d))
  unfolding check_flight_operational_intent_reference_conformance
  opint_check_iff = (only_if, if_all)
    where
      only_if :
          check_flight_operational_intent_reference_conformance settings now db id ≡ 1
          → ((settings.ussp_network_enabled ≡ false)
              ⊎ (is_some (find (λ (r : OpintReference). r.declaration_id == id) db.references)
                  ≡ true))
            × ((d : Declaration) × (find (λ (e : Declaration). e.id == id) db.declarations ≡ some d)
                × IsLive now d)
      only_if h = elim (Option-cases (find (λ (e : Declaration). e.id == id) db.declarations)) [
        | inl e ↦ absurd (ground arith)
        | inr (d, e) ↦ elim (Option-cases d.latest_telemetry_datetime) [
          | inl f ↦ absurd (ground arith)
          | inr (t, f) ↦ (
            ground arith,
            (
              d,
              e,
              record {
                t = t;
                state_live = ground arith;
                reported = f;
                not_stale = ground arith;
                not_ahead = ground arith;
              },
            ),
          )
        ]
      ]

      if_all :
          ((settings.ussp_network_enabled ≡ false)
              ⊎ (is_some (find (λ (r : OpintReference). r.declaration_id == id) db.references)
                  ≡ true))
            × ((d : Declaration) × (find (λ (e : Declaration). e.id == id) db.declarations ≡ some d)
                × IsLive now d)
          → check_flight_operational_intent_reference_conformance settings now db id ≡ 1
      if_all (authorised, (d, e, live)) = ground arith

  opint_check-codes :
      let code = check_flight_operational_intent_reference_conformance settings now db id in
      (code ≡ 1) ⊎ ((code ≡ 10) ⊎ ((code ≡ 11) ⊎ ((code ≡ 12) ⊎ (code ≡ 13))))
  unfolding check_flight_operational_intent_reference_conformance
  opint_check-codes = ground arith

  -- Every other answer has a name among the checks, and its verdict is a change to the state 4.
  pub opint_check-named :
      let code = check_flight_operational_intent_reference_conformance settings now db id in
      (code ≡ 1)
      ⊎ ((name : String) × (event : String) × (state_code code ≡ ok name)
          × ((opint_verdict name).change ≡ some (event, 4)))
  unfolding state_code opint_verdict
  opint_check-named = elim opint_check-codes [
    | inl e ↦ inl e
    | inr (inl e) ↦ inr ("C9a", "timeout", ap state_code e, refl)
    | inr (inr (inl e)) ↦ inr ("C9b", "flight_blender_confirms_contingent", ap state_code e, refl)
    | inr (inr (inr (inl e))) ↦
        inr ("C10", "flight_blender_confirms_contingent", ap state_code e, refl)
    | inr (inr (inr (inr e))) ↦
        inr ("C11", "flight_blender_confirms_contingent", ap state_code e, refl)
  ]
