-- ===== src/Repositories/Examples.antt =====
-- The theorems on the tables at concrete rows.
use flight_blender.Prelude.{ℕ, Option, none}
use flight_blender.World.{World}
use flight_blender.Repositories.Declarations.{create, update, delete, add_state_history_entry}
use flight_blender.Repositories.References.{
  OpintReferencePayload, create_opint_reference, update_opint_reference_ovn,
}
use flight_blender.Samples.{operation, nothing}

-- Operation 7 is created, activated with its history, gets a reference in two writes, and is deleted.
abbrev made : World
made = (create (operation 1) nothing).1

abbrev active : World
active = (update 7 (λ d. record d { state = 2 }) made).1

abbrev logged : World
logged = (add_state_history_entry 7 1 2 "activated" active).1

abbrev payload : OpintReferencePayload
payload = record { id = 70; ovn = none; state = "Accepted" }

abbrev referenced : World
referenced = (create_opint_reference 7 payload logged).1

abbrev versioned : World
versioned = (update_opint_reference_ovn 70 "ovn" referenced).1

abbrev gone : World
gone = (delete 7 versioned).1

abbrev none_left_out : Option ℕ
none_left_out = none
