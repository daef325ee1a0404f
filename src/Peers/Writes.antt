-- ===== src/Peers/Writes.antt =====
-- The three upserts of `SQLAlchemyFlightDeclarationRepository` for peer intents. A payload is a row
-- of which the id is not read.
use flight_blender.Prelude.{ℕ, Bool, true, false, not, ◌||◌, ◌==◌, find, is_some, if◌then◌else◌}
use flight_blender.Repositories.Upserts.{upsert}
use flight_blender.Peers.Tables.{
  PeerDetail, PeerReference, PeerComposite, PeerTables, CompositePayload,
}

unfoldable pub create_or_update_peer_opint_detail : ℕ → PeerDetail → PeerTables → PeerTables
create_or_update_peer_opint_detail peer_id payload tables = record tables {
  details =
      upsert (λ r. r.id == peer_id)
        (λ r. record r {
          volumes = payload.volumes;
          off_nominal_volumes = payload.off_nominal_volumes;
          priority = payload.priority;
        })
        (record payload { id = peer_id }) tables.details;
}

-- The manager is written only with a new row.
unfoldable pub create_or_update_peer_opint_reference : ℕ → PeerReference → PeerTables → PeerTables
create_or_update_peer_opint_reference peer_id payload tables = record tables {
  references =
      upsert (λ r. r.id == peer_id) (λ r. record payload { id = r.id; manager = r.manager })
        (record payload { id = peer_id }) tables.references;
}

abbrev pub retime : CompositePayload → PeerComposite → PeerComposite
retime payload r = record r {
  start_datetime = payload.start_datetime;
  end_datetime = payload.end_datetime;
  alt_max = payload.alt_max;
  alt_min = payload.alt_min;
}

abbrev pub new_composite : ℕ → CompositePayload → PeerComposite
new_composite operation_id payload = record {
  bounds = payload.bounds;
  start_datetime = payload.start_datetime;
  end_datetime = payload.end_datetime;
  alt_max = payload.alt_max;
  alt_min = payload.alt_min;
  operational_intent_details_id = operation_id;
  operational_intent_reference_id = operation_id;
}

-- The bounds are written only with a new row.
unfoldable pub write_composite : ℕ → CompositePayload → PeerTables → PeerTables
write_composite operation_id payload tables = record tables {
  composites =
      upsert (λ r. r.operational_intent_details_id == operation_id) (retime payload)
        (new_composite operation_id payload) tables.composites;
}

-- `False` where the details or the reference are not there.
unfoldable pub create_or_update_peer_composite_opint :
    ℕ → CompositePayload → PeerTables → Bool × PeerTables
create_or_update_peer_composite_opint operation_id payload tables =
    if not (is_some (find (λ r. r.id == operation_id) tables.details))
      || not (is_some (find (λ r. r.id == operation_id) tables.references))
    then (false, tables)
    else (true, write_composite operation_id payload tables)
