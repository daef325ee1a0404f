-- ===== src/Peers/Examples.antt =====
-- The theorems on peer intents at concrete payloads.
use flight_blender.Prelude.{ℕ, pos, ◌≡◌, ◌≢◌, some, [], ◌∷◌, ◌==◌, find}
use flight_blender.Json.{arr, nil}
use flight_blender.Peers.Tables.{PeerDetail, PeerReference, PeerTables, CompositePayload}
use flight_blender.Peers.Writes.{
  create_or_update_peer_opint_detail, create_or_update_peer_opint_reference,
  create_or_update_peer_composite_opint,
}
use flight_blender.Peers.Latest.{peer_reference-latest}
use flight_blender.Peers.Composites.{
  IsIntact, Reached, start, detail, reference, composite, Reached-IsIntact,
}

abbrev empty : PeerTables
empty = record { details = []; references = []; composites = [] }

abbrev details : PeerDetail
details = record { id = 0; volumes = arr nil; off_nominal_volumes = arr nil; priority = 1 }

abbrev first_reference : PeerReference
first_reference = record {
  id = 0;
  uss_availability = "Normal";
  ovn = some "a";
  manager = "uss1";
  uss_base_url = "https://uss1";
  version = "1";
  state = "Accepted";
  time_start = 100;
  time_end = 200;
  subscription_id = "s";
}

abbrev later_reference : PeerReference
later_reference = record first_reference { ovn = some "b"; manager = "uss2"; state = "Activated" }

abbrev referenced : PeerTables
referenced = record empty { references = record first_reference { id = 5 } ∷ [] }

peer_reference-latest_example :
    let tables' = create_or_update_peer_opint_reference 5 later_reference referenced in
    (find (λ r. r.id == 5) tables'.references
      ≡ some (record later_reference { id = 5; manager = "uss1" }))
    × ((j : ℕ)
        → j ≢ 5
        → find (λ r. r.id == j) tables'.references ≡ find (λ r. r.id == j) referenced.references)
    × (tables'.details ≡ [])
    × (tables'.composites ≡ [])
peer_reference-latest_example = peer_reference-latest 5 later_reference referenced

abbrev payload : CompositePayload
payload = record {
  bounds = "0,0,1,1";
  start_datetime = 100;
  end_datetime = 200;
  alt_max = pos 90;
  alt_min = pos 10;
}

-- A composite is refused before its reference is there, written after it, and written again.
abbrev one : PeerTables
one = create_or_update_peer_opint_detail 5 details empty

abbrev two : PeerTables
two = (create_or_update_peer_composite_opint 5 payload one).1

abbrev three : PeerTables
three = create_or_update_peer_opint_reference 5 first_reference two

abbrev four : PeerTables
four = (create_or_update_peer_composite_opint 5 payload three).1

abbrev five : PeerTables
five = (create_or_update_peer_composite_opint 5 payload four).1

five-Reached : Reached five
five-Reached = composite 5 payload (
    composite 5 payload
      (reference 5 first_reference (composite 5 payload (detail 5 details start))))

Reached-IsIntact_example : IsIntact five
Reached-IsIntact_example = Reached-IsIntact five-Reached
