-- ===== src/Ingest/Steps.antt =====
-- One iteration of ingest: what it leaves of a stored row, and what it sends.
use solver.Prelude.{
  ℕ, zero, suc, ◌≡◌, refl, ◌∙◌, true, ◌&&◌, none, some, List, [], ◌∷◌, ◌++◌, ◌⊎◌, inl, inr, In,
  Bool-cases, Option-cases, nat_eq, arith, contains, is_some, null,
}
use solver.Prelude.Maps.{get}
use solver.Order.{OrderId}
use solver.Matcher.{IngestOrder}
use solver.Status.{onchain_nullified}
use solver.Db.{Db, OrderRow, insert_notes_batch, mark_orders_onchain_nullified, is_open}
use solver.Db.Statuses.{with_status, get-mark_orders_onchain_nullified}
use solver.Db.Inserts.{
  contains-In, insert_orders-kept, insert_orders-stored, insert_notes_batch-reports,
}
use solver.Ingest.{
  ParsedOrder, SyncResult, IngestInput, accepted, note_rows, order_rows, ingest_order_of, forward,
  ingest_orders, ingest_synced, ingest_once,
}

abbrev pub sent_ids : List IngestOrder → List OrderId
sent_ids [] = []
sent_ids (o ∷ os) = o.note_id ∷ sent_ids os

abbrev pub all_sent_ids : List (List IngestOrder) → List OrderId
all_sent_ids [] = []
all_sent_ids (f ∷ fs) = sent_ids f ++ all_sent_ids fs

-- Only the orders that the database reports as new are sent.
pub forward-sent :
    (room : ℕ) (inserted : List OrderId) (os : List ParsedOrder) (i : OrderId)
    → In i (sent_ids (forward room inserted os).0)
    → contains i inserted ≡ true
unfolding forward ingest_order_of
forward-sent room inserted [] i m = elim m [ ]
forward-sent zero inserted (o ∷ os) i m = elim (Bool-cases (contains o.note.id inserted)) [
  | inr old ↦ forward-sent zero inserted os i (rw (forward, old) at m)
  | inl new ↦ absurd (rw (forward, new) at m)
]
forward-sent (suc left) inserted (o ∷ os) i m = elim (Bool-cases (contains o.note.id inserted)) [
  | inr old ↦ forward-sent (suc left) inserted os i (rw (forward, old) at m)
  | inl new ↦ elim (rw (forward, new) at m) [
    | inl e ↦ rw e new
    | inr later ↦ forward-sent left inserted os i later
  ]
]

-- The row that an iteration leaves of a stored one: the same, or an open one that was nullified.
abbrev pub IngestKept : OrderId → OrderRow → Db → Type 0
IngestKept i row d =
    (get i d.orders ≡ some row)
    ⊎ ((is_open row.status ≡ true) × (get i d.orders ≡ some (with_status onchain_nullified row)))

pub ingest_orders-kept :
    (d : Db) (consumed : List OrderId) (input : IngestInput) (block : ℕ) (os : List ParsedOrder)
    (i : OrderId) {row : OrderRow}
    → get i d.orders ≡ some row
    → get i (ingest_orders d consumed input block os).db.orders ≡ some row
unfolding ingest_orders insert_notes_batch
ingest_orders-kept d consumed input block os i g = elim (Bool-cases (null os)) [
  | inl e ↦ rw (ingest_orders, e) g
  | inr e ↦ elim (Bool-cases input.batch_write) [
    | inr f ↦ rw (ingest_orders, e, f) g
    | inl f ↦
        rw (ingest_orders, e, f) (insert_orders-kept (order_rows input.now os) d.orders [] i g)
  ]
]

-- An order that an iteration sends was not stored, and is stored then.
pub ingest_orders-sent :
    (d : Db) (consumed : List OrderId) (input : IngestInput) (block : ℕ) (os : List ParsedOrder)
    (i : OrderId)
    → In i (sent_ids (ingest_orders d consumed input block os).forwarded)
    → (get i d.orders ≡ none)
      × (is_some (get i (ingest_orders d consumed input block os).db.orders) ≡ true)
unfolding ingest_orders insert_notes_batch
ingest_orders-sent d consumed input block os i m = elim (Bool-cases (null os)) [
  | inl e ↦ absurd (rw (ingest_orders, e) at m)
  | inr e ↦ elim (Bool-cases input.batch_write) [
    | inr f ↦ absurd (rw (ingest_orders, e, f) at m)
    | inl f ↦
        let rows = order_rows input.now os in
        let new =
          contains-In i _ (forward-sent input.room _ os i (rw (ingest_orders, e, f) at m)) in
        let first = (insert_notes_batch-reports d (note_rows os) rows block i).0 new in
        (first.1, rw (ingest_orders, e, f) (insert_orders-stored rows d.orders [] i first.0))
  ]
]

pub mark-missing :
    (d : Db) (ids : List OrderId) (i : OrderId)
    → get i (mark_orders_onchain_nullified d ids).0.orders ≡ none
    → get i d.orders ≡ none
mark-missing d ids i g = elim (Option-cases (get i d.orders)) [
  | inl h ↦ h
  | inr (row, h) ↦ absurd (cc (g, get-mark_orders_onchain_nullified d ids i h))
]

pub mark-kept :
    (d : Db) (ids : List OrderId) (i : OrderId) (row : OrderRow)
    → get i d.orders ≡ some row
    → IngestKept i row (mark_orders_onchain_nullified d ids).0
mark-kept d ids i row g = elim (Bool-cases (contains row.note_id ids && is_open row.status)) [
  | inr same ↦ inl (get-mark_orders_onchain_nullified d ids i g ∙ rw same refl)
  | inl closes ↦
      inr (ground (arith, closes), get-mark_orders_onchain_nullified d ids i g ∙ rw closes refl)
]

pub ingest_synced-sent :
    (d : Db) (input : IngestInput) (r : SyncResult) (i : OrderId)
    → In i (sent_ids (ingest_synced d input r).forwarded)
    → (get i d.orders ≡ none) × (is_some (get i (ingest_synced d input r).db.orders) ≡ true)
unfolding ingest_synced ingest_orders
ingest_synced-sent d input r i m = elim (Bool-cases (null r.consumed_notes)) [
  | inl e ↦
      let s =
        ingest_orders-sent d [] input r.block_num (accepted r.new_notes) i
          (rw (ingest_synced, e) at m) in
      (s.0, rw (ingest_synced, e) s.1)
  | inr e ↦ elim (Bool-cases input.consumed_write) [
    | inr f ↦ absurd (rw (ingest_synced, e, f) at m)
    | inl f ↦
        let s =
          ingest_orders-sent (mark_orders_onchain_nullified d r.consumed_notes).0 r.consumed_notes
            input r.block_num (accepted r.new_notes) i (rw (ingest_synced, e, f) at m) in
        (mark-missing d r.consumed_notes i s.0, rw (ingest_synced, e, f) s.1)
  ]
]

pub ingest_synced-kept :
    (d : Db) (input : IngestInput) (r : SyncResult) (i : OrderId) (row : OrderRow)
    → get i d.orders ≡ some row
    → IngestKept i row (ingest_synced d input r).db
unfolding ingest_synced mark_orders_onchain_nullified ingest_orders
ingest_synced-kept d input r i row g = elim (Bool-cases (null r.consumed_notes)) [
  | inl e ↦
      rw (ingest_synced, e)
        (inl (ingest_orders-kept d [] input r.block_num (accepted r.new_notes) i g))
  | inr e ↦ elim (Bool-cases input.consumed_write) [
    | inr f ↦ rw (ingest_synced, e, f) (inl g)
    | inl f ↦
        rw (ingest_synced, e, f)
          (elim (mark-kept d r.consumed_notes i row g) [
            | inl k ↦
                inl (
                  ingest_orders-kept _ r.consumed_notes input r.block_num (accepted r.new_notes) i
                    k)
            | inr k ↦ inr (
              k.0,
              ingest_orders-kept _ r.consumed_notes input r.block_num (accepted r.new_notes) i k.1,
            )
          ])
  ]
]

pub ingest_once-sent :
    (d : Db) (input : IngestInput) (i : OrderId)
    → In i (sent_ids (ingest_once d input).forwarded)
    → (get i d.orders ≡ none) × (is_some (get i (ingest_once d input).db.orders) ≡ true)
unfolding ingest_once
ingest_once-sent d input i m = elim (Option-cases input.sync) [
  | inl e ↦ absurd (rw (ingest_once, e) at m)
  | inr (r, e) ↦
      let s = ingest_synced-sent d input r i (rw (ingest_once, e) at m) in
      (s.0, rw (ingest_once, e) s.1)
]

pub ingest_once-kept :
    (d : Db) (input : IngestInput) (i : OrderId) (row : OrderRow)
    → get i d.orders ≡ some row
    → IngestKept i row (ingest_once d input).db
unfolding ingest_once
ingest_once-kept d input i row g = elim (Option-cases input.sync) [
  | inl e ↦ rw (ingest_once, e) (inl g)
  | inr (r, e) ↦ rw (ingest_once, e) (ingest_synced-kept d input r i row g)
]
