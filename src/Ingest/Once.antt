-- ===== src/Ingest/Once.antt =====
-- What ingest keeps of the stored orders, and that it sends no order to the matcher a second time.
use solver.Prelude.{
  ◌≡◌, refl, true, none, some, List, [], ◌∷◌, inl, inr, In, In-append_cases, Option-cases, nat_eq,
  is_some,
}
use solver.Prelude.Maps.{get}
use solver.Order.{OrderId}
use solver.Db.{Db, OrderRow}
use solver.Ingest.{IngestInput, ingest_once, run_ingest}
use solver.Ingest.Steps.{sent_ids, all_sent_ids, IngestKept, ingest_once-sent, ingest_once-kept}

-- Whatever the client, the database writes and the matcher's channel do, a stored order is never
-- lost and its terms never change: after any number of iterations its row is the same, or its
-- status was open (active or settling) and is now nullified on chain.
run_ingest-kept :
    (inputs : List IngestInput) (d : Db) (i : OrderId) (row : OrderRow)
    → get i d.orders ≡ some row
    → IngestKept i row (run_ingest d inputs).0
unfolding run_ingest
run_ingest-kept [] d i row g = inl g
run_ingest-kept (input ∷ inputs) d i row g = elim (ingest_once-kept d input i row g) [
  | inl k ↦ run_ingest-kept inputs (ingest_once d input).db i row k
  | inr k ↦ elim (run_ingest-kept inputs (ingest_once d input).db i _ k.1) [
    | inl later ↦ inr (k.0, later)
    | inr later ↦ inr (k.0, later.1)
  ]
]

run_ingest-stored :
    (inputs : List IngestInput) (d : Db) (i : OrderId)
    → is_some (get i d.orders) ≡ true
    → is_some (get i (run_ingest d inputs).0.orders) ≡ true
run_ingest-stored inputs d i s = elim (Option-cases (get i d.orders)) [
  | inl e ↦ absurd (cc (rw e at s))
  | inr (row, e) ↦ elim (run_ingest-kept inputs d i row e) [
    | inl k ↦ rw k refl
    | inr k ↦ rw k.1 refl
  ]
]

run_ingest-sent_new :
    (inputs : List IngestInput) (d : Db) (i : OrderId)
    → In i (all_sent_ids (run_ingest d inputs).1)
    → get i d.orders ≡ none
unfolding run_ingest
run_ingest-sent_new [] d i m = elim m [ ]
run_ingest-sent_new (input ∷ inputs) d i m =
    elim (In-append_cases i (sent_ids (ingest_once d input).forwarded) _ m) [
      | inl now ↦ (ingest_once-sent d input i now).0
      | inr later ↦ elim (Option-cases (get i d.orders)) [
        | inl e ↦ e
        | inr (row, e) ↦
            let gone = run_ingest-sent_new inputs (ingest_once d input).db i later in
            elim (ingest_once-kept d input i row e) [
              | inl k ↦ absurd (cc (gone, k))
              | inr k ↦ absurd (cc (gone, k.1))
            ]
      ]
    ]

run_ingest-sent_stored :
    (inputs : List IngestInput) (d : Db) (i : OrderId)
    → In i (all_sent_ids (run_ingest d inputs).1)
    → is_some (get i (run_ingest d inputs).0.orders) ≡ true
unfolding run_ingest
run_ingest-sent_stored [] d i m = elim m [ ]
run_ingest-sent_stored (input ∷ inputs) d i m =
    elim (In-append_cases i (sent_ids (ingest_once d input).forwarded) _ m) [
      | inl now ↦
          run_ingest-stored inputs (ingest_once d input).db i (ingest_once-sent d input i now).1
      | inr later ↦ run_ingest-sent_stored inputs (ingest_once d input).db i later
    ]

-- An order that any of the first iterations sent to the matcher is sent by none of the iterations
-- that follow on the database those leave.
pub run_ingest-sent_once :
    (d : Db) (before after : List IngestInput) (i : OrderId)
    → In i (all_sent_ids (run_ingest d before).1)
    → ¬ In i (all_sent_ids (run_ingest (run_ingest d before).0 after).1)
run_ingest-sent_once d before after i sent again =
    let stored = run_ingest-sent_stored before d i sent in
    let missing = run_ingest-sent_new after (run_ingest d before).0 i again in
    absurd (cc (rw missing at stored))
