-- ===== src/Peers/Composites.antt =====
-- The composites of peers, and the keys that they name.
use flight_blender.Prelude.{
  Bool-cases, ℕ, ◌≤◌, ◌≡◌, refl, Bool, true, ◌&&◌, List, [], ◌∷◌, ◌++◌, arith, ◌==◌, find, is_some,
  if◌then◌else◌, inl, inr, All,
}
use flight_blender.Repositories.Tables.{set_where, count}
use flight_blender.Repositories.Upserts.{upsert, is_some-upsert, count-upsert}
use flight_blender.Peers.Tables.{
  PeerDetail, PeerReference, PeerComposite, PeerTables, CompositePayload,
}
use flight_blender.Peers.Writes.{
  retime, new_composite, write_composite, create_or_update_peer_opint_detail,
  create_or_update_peer_opint_reference, create_or_update_peer_composite_opint,
}

abbrev pub knows : PeerTables → ℕ → Bool
knows tables id =
    is_some (find (λ (r : PeerDetail). r.id == id) tables.details)
    && is_some (find (λ (r : PeerReference). r.id == id) tables.references)

-- Every composite names details and a reference that are there, by one id, and no other composite
-- names the same details.
pub record IsIntact (tables : PeerTables) : Type 0 where
  pub named :
      All
        (λ (c : PeerComposite).
          (c.operational_intent_reference_id ≡ c.operational_intent_details_id)
          × (knows tables c.operational_intent_details_id ≡ true))
        tables.composites
  pub alone :
      (id : ℕ)
      → count (λ (c : PeerComposite). c.operational_intent_details_id == id) tables.composites ≤ 1

All-imp :
    {A : Type 0} {P Q : A → Type 0} (xs : List A) → ((a : A) → P a → Q a) → All P xs → All Q xs
All-imp [] f h = tt
All-imp (x ∷ xs) f h = (f x h.0, All-imp xs f h.1)

module _ {A : Type 0} (P : A → Type 0) (fits : A → Bool) (change : A → A)
    (keeps : (a : A) → P a → P (change a)) where
  All-set : (rows : List A) → All P rows → All P (set_where fits change rows)
  All-set [] h = tt
  All-set (x ∷ xs) h = ground (arith, keeps x h.0, All-set xs h.1)

  All-snoc : (new : A) (rows : List A) → P new → All P rows → All P (rows ++ new ∷ [])
  All-snoc new [] n h = (n, tt)
  All-snoc new (x ∷ xs) n h = (h.0, All-snoc new xs n h.1)

  All-upsert : (new : A) (rows : List A) → P new → All P rows → All P (upsert fits change new rows)
  All-upsert new rows n h = ground (arith, All-set rows h, All-snoc new rows n h)

-- Writing details or a reference keeps the composites intact.
detail-IsIntact :
    (peer_id : ℕ) (payload : PeerDetail) (tables : PeerTables)
    → IsIntact tables
    → IsIntact (create_or_update_peer_opint_detail peer_id payload tables)
unfolding create_or_update_peer_opint_detail
detail-IsIntact peer_id payload tables h = record {
  named =
      All-imp tables.composites
        (λ c p. (
          p.0,
          ground (
            arith,
            is_some-upsert (λ r. r.id) (λ (r : PeerDetail). record payload { id = r.id })
                (λ r. refl) peer_id c.operational_intent_details_id
                (record payload { id = peer_id }) tables.details,
            p.1,
          ),
        ))
        h.named;
  alone = h.alone;
}

reference-IsIntact :
    (peer_id : ℕ) (payload : PeerReference) (tables : PeerTables)
    → IsIntact tables
    → IsIntact (create_or_update_peer_opint_reference peer_id payload tables)
unfolding create_or_update_peer_opint_reference
reference-IsIntact peer_id payload tables h = record {
  named =
      All-imp tables.composites
        (λ c p. (
          p.0,
          ground (
            arith,
            is_some-upsert (λ r. r.id)
                (λ (r : PeerReference). record payload { id = r.id; manager = r.manager })
                (λ r. refl) peer_id c.operational_intent_details_id
                (record payload { id = peer_id }) tables.references,
            p.1,
          ),
        ))
        h.named;
  alone = h.alone;
}

write_composite-IsIntact :
    (id : ℕ) (payload : CompositePayload) (tables : PeerTables)
    → knows tables id ≡ true
    → IsIntact tables
    → IsIntact (write_composite id payload tables)
unfolding write_composite
write_composite-IsIntact id payload tables known h = record {
  named =
      All-upsert
        (λ (c : PeerComposite).
          (c.operational_intent_reference_id ≡ c.operational_intent_details_id)
          × (knows tables c.operational_intent_details_id ≡ true))
        (λ c. c.operational_intent_details_id == id) (retime payload) (λ c p. p)
        (new_composite id payload) tables.composites (refl, known) h.named;
  alone = λ j.
      count-upsert (λ (c : PeerComposite). c.operational_intent_details_id) (retime payload)
        (λ c. refl) id j (new_composite id payload) tables.composites refl (h.alone j);
}

-- A composite is written iff its details and its reference are there, and else nothing is changed.
pub composite-written :
    (id : ℕ) (payload : CompositePayload) (tables : PeerTables)
    → create_or_update_peer_composite_opint id payload tables
      ≡ (knows tables id, if knows tables id then write_composite id payload tables else tables)
unfolding create_or_update_peer_composite_opint
composite-written id payload tables = ground arith

-- The tables that the upserts lead to from empty ones, in any order, refused writes included.
pub data Reached : PeerTables → Type 0 where
  start : Reached (record { details = []; references = []; composites = [] })
  detail :
      (id : ℕ) (payload : PeerDetail) {tables : PeerTables}
      → Reached tables
      → Reached (create_or_update_peer_opint_detail id payload tables)
  reference :
      (id : ℕ) (payload : PeerReference) {tables : PeerTables}
      → Reached tables
      → Reached (create_or_update_peer_opint_reference id payload tables)
  composite :
      (id : ℕ) (payload : CompositePayload) {tables : PeerTables}
      → Reached tables
      → Reached (create_or_update_peer_composite_opint id payload tables).1

-- In all tables that the upserts lead to from empty ones, every composite names details and a
-- reference that are there, both by one id, and no two composites name the same details.
pub Reached-IsIntact : {tables : PeerTables} → Reached tables → IsIntact tables
Reached-IsIntact start = record { named = tt; alone = λ id. omega arith }
Reached-IsIntact (detail id payload {tables = tables} r) =
    detail-IsIntact id payload tables (Reached-IsIntact r)
Reached-IsIntact (reference id payload {tables = tables} r) =
    reference-IsIntact id payload tables (Reached-IsIntact r)
Reached-IsIntact (composite id payload {tables = tables} r) =
    let h = Reached-IsIntact r in
    elim (Bool-cases (knows tables id)) [
      | inl e ↦
          rw (composite-written id payload tables, e)
            (write_composite-IsIntact id payload tables e h)
      | inr e ↦ rw (composite-written id payload tables, e) h
    ]
