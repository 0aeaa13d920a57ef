-- ===== src/Executor/Refeed.antt =====
-- Which orders of a batch go back to the matcher: the rebuilt ones, and the partition of a batch
-- by what is consumed on chain.
use solver.Prelude.{
  ℕ, zero, suc, ◌≤◌, ◌≡◌, refl, ap, ◌∙◌, Bool, true, false, not, some, List, [], ◌∷◌, inl, inr,
  Bool-cases, Option-cases, if◌then◌else◌, ◌==◌, nat_eq, arith, contains, length, is_some, All,
}
use solver.Order.{OrderId}
use solver.Matcher.{FilledNote, IngestOrder}
use solver.Ingest.{Note, from_note}
use solver.Ingest.Steps.{sent_ids}
use solver.Executor.{
  refed_order, rebuild_ingest_order, rebuild_all_orders, refeed_orders, Classified, classify_notes,
  source_note_ids,
}

-- Every note of the batch can be parsed again, with both amounts above zero.
abbrev pub AllParsed : List Note → Type 0
AllParsed notes = All (λ note. is_some (from_note note) ≡ true) notes

rebuilt :
    (filled : FilledNote) (note : Note)
    → is_some (from_note note) ≡ true
    → (o : IngestOrder) × (rebuild_ingest_order filled note ≡ some o) × (o.note_id ≡ filled.note_id)
unfolding rebuild_ingest_order refed_order
rebuilt filled note h = elim (Option-cases (from_note note)) [
  | inl e ↦ absurd (cc (rw e at h))
  | inr (parsed, e) ↦ (refed_order filled parsed, rw (rebuild_ingest_order, e) refl, refl)
]

-- All the orders of the batch are rebuilt, under their ids and in their order.
pub rebuild_all_orders-ids :
    (fs : List FilledNote) (notes : List Note)
    → length notes ≡ length fs
    → AllParsed notes
    → (orders : List IngestOrder) × (rebuild_all_orders fs notes ≡ some orders)
      × (sent_ids orders ≡ source_note_ids fs)
unfolding rebuild_all_orders source_note_ids
rebuild_all_orders-ids [] notes h parsed = ([], refl, refl)
rebuild_all_orders-ids (filled ∷ fs) [] h parsed = absurd (omega arith)
rebuild_all_orders-ids (filled ∷ fs) (note ∷ notes) h parsed =
    let (o, e, own) = rebuilt filled note parsed.0 in
    let (orders, es, ids) = rebuild_all_orders-ids fs notes (omega arith) parsed.1 in
    (o ∷ orders, rw (rebuild_all_orders, e, es) refl, cc (own, ids))

pub refeed_orders_room :
    (room : ℕ) (orders : List IngestOrder)
    → length orders ≤ room
    → refeed_orders room orders ≡ orders
unfolding refeed_orders
refeed_orders_room room [] h = refl
refeed_orders_room zero (o ∷ orders) h = absurd (omega arith)
refeed_orders_room (suc room) (o ∷ orders) h =
    ap (λ os. o ∷ os) (refeed_orders_room room orders (omega arith))

pub length-sent_ids : (orders : List IngestOrder) → length (sent_ids orders) ≡ length orders
length-sent_ids [] = refl
length-sent_ids (o ∷ orders) = ap suc (length-sent_ids orders)

pub length-source_note_ids : (fs : List FilledNote) → length (source_note_ids fs) ≡ length fs
unfolding source_note_ids
length-source_note_ids [] = refl
length-source_note_ids (f ∷ fs) = ap suc (length-source_note_ids fs)

-- What the classification answers: each id of the batch is on exactly the side that the chain puts
-- it on, and the orders are those of the active side.
abbrev pub IsPartition : List OrderId → List FilledNote → Classified → Type 0
IsPartition consumed_ids fs c =
    ((i : OrderId)
      → contains i c.consumed
        ≡ (if contains i consumed_ids then contains i (source_note_ids fs) else false))
    × ((i : OrderId)
        → contains i c.active_ids
          ≡ (if not (contains i consumed_ids) then contains i (source_note_ids fs) else false))
    × (sent_ids c.active_orders ≡ c.active_ids)
    × (length c.active_ids ≤ length fs)

none_classified : (t : Bool) → false ≡ (if t then false else false)
none_classified true = refl
none_classified false = refl

-- A list that holds the ids of `ids` on one side of a test, where one more id is on that side.
cons_on :
    (side : OrderId → Bool) (id : OrderId) (ids xs : List OrderId) (i : OrderId)
    → side id ≡ true
    → contains i xs ≡ (if side i then contains i ids else false)
    → contains i (id ∷ xs) ≡ (if side i then contains i (id ∷ ids) else false)
cons_on side id ids xs i here h = elim (Bool-cases (i == id)) [
  | inl e ↦ let same : i ≡ id = ground arith in rw (e, same, here) refl
  | inr e ↦ rw (e, h) refl
]

-- The same where the id is on the other side.
cons_off :
    (side : OrderId → Bool) (id : OrderId) (ids xs : List OrderId) (i : OrderId)
    → side id ≡ false
    → contains i xs ≡ (if side i then contains i ids else false)
    → contains i xs ≡ (if side i then contains i (id ∷ ids) else false)
cons_off side id ids xs i here h = elim (Bool-cases (i == id)) [
  | inl e ↦ let same : i ≡ id = ground arith in h ∙ rw (same, here) refl
  | inr e ↦ h ∙ rw (e) refl
]

pub classify_notes-IsPartition :
    (consumed_ids : List OrderId) (fs : List FilledNote) (notes : List Note)
    → length notes ≡ length fs
    → AllParsed notes
    → (c : Classified) × (classify_notes consumed_ids fs notes ≡ some c)
      × IsPartition consumed_ids fs c
unfolding classify_notes source_note_ids
classify_notes-IsPartition consumed_ids [] notes h parsed = (
  _,
  refl,
  (
    λ i. none_classified (contains i consumed_ids),
    λ i. none_classified (not (contains i consumed_ids)),
    refl,
    omega arith,
  ),
)
classify_notes-IsPartition consumed_ids (filled ∷ fs) [] h parsed = absurd (omega arith)
classify_notes-IsPartition consumed_ids (filled ∷ fs) (note ∷ notes) h parsed =
    let gone_ids = λ (i : OrderId). contains i consumed_ids in
    let live_ids = λ (i : OrderId). not (contains i consumed_ids) in
    let (o, e, own) = rebuilt filled note parsed.0 in
    let (c, es, parts) = classify_notes-IsPartition consumed_ids fs notes (omega arith) parsed.1 in
    let ids = source_note_ids fs in
    elim (Bool-cases (contains filled.note_id consumed_ids)) [
      | inl gone ↦ (
        record c { consumed = filled.note_id ∷ c.consumed },
        rw (classify_notes, gone, es) refl,
        (
          λ i. cons_on gone_ids filled.note_id ids c.consumed i gone (parts.0 i),
          λ i. cons_off live_ids filled.note_id ids c.active_ids i (rw gone refl) (parts.1 i),
          parts.2,
          omega (arith, parts.3),
        ),
      )
      | inr stays ↦ (
        record c {
          active_ids = filled.note_id ∷ c.active_ids;
          active_orders = o ∷ c.active_orders;
        },
        rw (classify_notes, stays, e, es) refl,
        (
          λ i. cons_off gone_ids filled.note_id ids c.consumed i stays (parts.0 i),
          λ i. cons_on live_ids filled.note_id ids c.active_ids i (rw stays refl) (parts.1 i),
          cc (own, parts.2),
          omega (arith, parts.3),
        ),
      )
    ]
