-- ===== src/Domain.antt =====
-- The constants that the domains share (domain_types/common.py) and the settings that the modelled
-- code reads (config.py).
use flight_blender.Prelude.{ℕ, Bool, String, List, [], ◌∷◌}

-- `ACTIVE_OPERATIONAL_STATES`. A state column holds a code of `OPERATION_STATES`: 0 not submitted,
-- 1 accepted, 2 activated, 3 nonconforming, 4 contingent, 5 ended, 6 withdrawn, 7 cancelled, 8
-- rejected. The program compares codes for equality only, so any other integer behaves as a number
-- that is none of them.
abbrev pub active_operational_states : List ℕ
active_operational_states = 1 ∷ 2 ∷ 3 ∷ 4 ∷ []

pub record Settings : Type 0 where
  pub ussp_network_enabled : Bool
  pub enable_conformance_monitoring : Bool
  pub auto_submit_to_dss : Bool
  pub amqp_url : String
