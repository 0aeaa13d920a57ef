-- ===== src/Ingest/Closing.antt =====
-- What an iteration of ingest does with an order that its sync reports consumed.
use solver.Prelude.{
  ℕ, zero, suc, ◌≡◌, refl, ◌∙◌, true, false, none, some, List, [], ◌∷◌, ◌⊎◌, inl, inr, In,
  Bool-cases, Option-cases, if◌then◌else◌, ◌==◌, nat_eq, arith, contains, null,
}
use solver.Prelude.Maps.{get}
use solver.Order.{OrderId}
use solver.Status.{active, onchain_nullified}
use solver.Db.{Db, OrderRow, insert_notes_batch, mark_orders_onchain_nullified, is_open}
use solver.Db.Statuses.{with_status, get-mark_orders_onchain_nullified, get-set_where-none}
use solver.Db.Inserts.{
  ids_of, contains-In, first_row, insert_orders-first, insert_notes_batch-reports,
}
use solver.Ingest.{
  ParsedOrder, SyncResult, IngestInput, Ingested, accepted, note_rows, order_rows, ingest_order_of,
  forward, ingest_orders, ingest_synced, ingest_once,
}
use solver.Ingest.Steps.{sent_ids, ingest_orders-kept, ingest_once-sent}

-- Where the batch is written, an order whose id is free is stored as active and sent to the matcher,
-- unless the channel closes, which ends the iteration with an error. Otherwise nothing is stored.
abbrev pub IsTaken : OrderId → IngestInput → List ParsedOrder → Ingested → Type 0
IsTaken i input os r =
    ((get i r.db.orders ≡ none)
      × ((input.batch_write ≡ false) ⊎ (contains i (ids_of (order_rows input.now os)) ≡ false)))
    ⊎ ((row : OrderRow) × (get i r.db.orders ≡ some row)
        × In row (order_rows input.now os)
        × (row.status ≡ active)
        × (In i (sent_ids r.forwarded) ⊎ (r.done ≡ false)))

-- The two ends of an order that the sync reports consumed.
abbrev pub IsClosedOrTaken : OrderId → Db → IngestInput → List ParsedOrder → Ingested → Type 0
IsClosedOrTaken i d input os r =
    ((row : OrderRow) × (get i d.orders ≡ some row)
      × (get i r.db.orders
          ≡ some (if is_open row.status then with_status onchain_nullified row else row))
      × ¬ In i (sent_ids r.forwarded))
    ⊎ ((get i d.orders ≡ none) × IsTaken i input os r)

In-contains : (i : OrderId) (ids : List OrderId) → In i ids → contains i ids ≡ true
In-contains i [] m = elim m [ ]
In-contains i (j ∷ ids) (inl e) = ground arith
In-contains i (j ∷ ids) (inr m) = let later = In-contains i ids m in ground arith

-- Every new order is sent, or the channel was closed.
forward-sends :
    (room now : ℕ) (inserted : List OrderId) (os : List ParsedOrder) (i : OrderId)
    → contains i (ids_of (order_rows now os)) ≡ true
    → contains i inserted ≡ true
    → In i (sent_ids (forward room inserted os).0) ⊎ ((forward room inserted os).1 ≡ false)
unfolding forward order_rows ingest_order_of
forward-sends room now inserted [] i m new = absurd (cc)
forward-sends zero now inserted (o ∷ os) i m new = elim (Bool-cases (contains o.note.id inserted)) [
  | inl first ↦ rw (forward, first) (inr refl)
  | inr old ↦ elim (Bool-cases (i == o.note.id)) [
    | inl same ↦ let at : i ≡ o.note.id = ground arith in absurd (cc (rw at at new, old))
    | inr other ↦ rw (forward, old) (forward-sends zero now inserted os i (ground arith) new)
  ]
]
forward-sends (suc left) now inserted (o ∷ os) i m new =
    elim (Bool-cases (contains o.note.id inserted)) [
      | inl first ↦ elim (Bool-cases (i == o.note.id)) [
        | inl same ↦ rw (forward, first) (inl (inl (ground arith)))
        | inr other ↦ elim (forward-sends left now inserted os i (ground arith) new) [
          | inl later ↦ rw (forward, first) (inl (inr later))
          | inr closed ↦ rw (forward, first) (inr closed)
        ]
      ]
      | inr old ↦ elim (Bool-cases (i == o.note.id)) [
        | inl same ↦ let at : i ≡ o.note.id = ground arith in absurd (cc (rw at at new, old))
        | inr other ↦
            rw (forward, old) (forward-sends (suc left) now inserted os i (ground arith) new)
      ]
    ]

-- A row of the batch is active.
first_row-active :
    (now : ℕ) (os : List ParsedOrder) (i : OrderId)
    → ((first_row i (order_rows now os) ≡ none) × (contains i (ids_of (order_rows now os)) ≡ false))
      ⊎ ((row : OrderRow) × (first_row i (order_rows now os) ≡ some row)
          × In row (order_rows now os)
          × (row.status ≡ active)
          × (contains i (ids_of (order_rows now os)) ≡ true))
unfolding order_rows
first_row-active now [] i = inl (refl, refl)
first_row-active now (o ∷ os) i = elim (Bool-cases (i == o.note.id)) [
  | inl same ↦ rw same (inr (_, refl, inl refl, refl, refl))
  | inr other ↦ elim (first_row-active now os i) [
    | inl (missing, off) ↦ rw other (inl (missing, off))
    | inr (row, found, member, status, on) ↦ rw other (inr (row, found, inr member, status, on))
  ]
]

ingest_orders-IsTaken :
    (d : Db) (consumed : List OrderId) (input : IngestInput) (block : ℕ) (os : List ParsedOrder)
    (i : OrderId)
    → get i d.orders ≡ none
    → IsTaken i input os (ingest_orders d consumed input block os)
unfolding ingest_orders insert_notes_batch order_rows
ingest_orders-IsTaken d consumed input block os i g = elim (Bool-cases (null os)) [
  | inl e ↦ rw (ingest_orders, e) (inl (g, inr (nothing os e)))
  | inr e ↦ elim (Bool-cases input.batch_write) [
    | inr f ↦ rw (ingest_orders, e, f) (inl (g, inl refl))
    | inl f ↦
        let rows = order_rows input.now os in
        let stored = insert_orders-first rows d.orders [] i g in
        elim (first_row-active input.now os i) [
          | inl (missing, off) ↦ rw (ingest_orders, e, f) (inl (stored ∙ missing, inr off))
          | inr (row, found, member, status, on) ↦
              let reported =
                (insert_notes_batch-reports d (note_rows os) rows block i).1
                  (contains-In i (ids_of rows) on, g) in
              rw (ingest_orders, e, f)
                (inr (
                  row,
                  stored ∙ found,
                  member,
                  status,
                  forward-sends input.room input.now _ os i on (In-contains i _ reported),
                ))
        ]
  ]
]
  where
    nothing :
        (os : List ParsedOrder)
        → null os ≡ true
        → contains i (ids_of (order_rows input.now os)) ≡ false
    nothing [] h = refl
    nothing (o ∷ os) h = absurd (cc (h))

mark-keeps_none :
    (d : Db) (ids : List OrderId) (i : OrderId)
    → get i d.orders ≡ none
    → get i (mark_orders_onchain_nullified d ids).0.orders ≡ none
unfolding mark_orders_onchain_nullified
mark-keeps_none d ids i g = get-set_where-none _ onchain_nullified d.orders i g

some_consumed : (i : OrderId) (ids : List OrderId) → contains i ids ≡ true → null ids ≡ false
some_consumed i [] h = absurd (cc (h))
some_consumed i (j ∷ ids) h = refl

-- After an iteration whose consumed notes were written, an order that its sync reports consumed is
-- in one of two states, provided that rows are stored under their own ids. Where it was stored before
-- the sync, it is nullified if it was open, it is as it was otherwise, and it is not sent to the
-- matcher. Where it was not stored, the sync does not close it: if the same sync brings it as a new
-- order and the batch is written, it is stored as active, and it is sent to the matcher or the
-- iteration ends with the error of a closed channel; otherwise it is not stored.
pub ingest_once-IsClosedOrTaken :
    (d : Db) (input : IngestInput) (r : SyncResult) (i : OrderId)
    → input.sync ≡ some r
    → input.consumed_write ≡ true
    → contains i r.consumed_notes ≡ true
    → ((row : OrderRow) → get i d.orders ≡ some row → row.note_id ≡ i)
    → IsClosedOrTaken i d input (accepted r.new_notes) (ingest_once d input)
unfolding ingest_once ingest_synced ingest_orders
ingest_once-IsClosedOrTaken d input r i synced written consumed own =
    let marked = (mark_orders_onchain_nullified d r.consumed_notes).0 in
    let os = accepted r.new_notes in
    let done : ingest_once d input ≡ ingest_orders marked r.consumed_notes input r.block_num os =
      rw (ingest_once, synced, ingest_synced, some_consumed i r.consumed_notes consumed, written)
        refl in
    elim (Option-cases (get i d.orders)) [
      | inr (row, stored) ↦
          let closed =
            get-mark_orders_onchain_nullified d r.consumed_notes i stored
            ∙ rw (own row stored, consumed) refl in
          left_closed row stored
            (rw done (ingest_orders-kept marked r.consumed_notes input r.block_num os i closed))
      | inl missing ↦ inr (
        missing,
        rw done (
            ingest_orders-IsTaken marked r.consumed_notes input r.block_num os i
              (mark-keeps_none d r.consumed_notes i missing)),
      )
    ]
  where
    left_closed :
        (row : OrderRow)
        → get i d.orders ≡ some row
        → get i (ingest_once d input).db.orders
          ≡ some (if is_open row.status then with_status onchain_nullified row else row)
        → IsClosedOrTaken i d input (accepted r.new_notes) (ingest_once d input)
    left_closed row stored closed =
        inl (row, stored, closed, λ m. cc (stored, (ingest_once-sent d input i m).0))
