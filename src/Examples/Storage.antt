-- ===== src/Examples/Storage.antt =====
-- A database with one order, a sync that brings a second one and reports the first consumed, and
-- the same sync again.
use solver.Prelude.{◌≡◌, refl, sym, ◌∙◌, true, some, [], ◌∷◌, inl, In, nat_eq, eq_of_some}
use solver.Prelude.Maps.{get, insert}
use solver.Order.{OrderId}
use solver.Status.{active, same_status, as_str}
use solver.Db.{
  OrderRow, Db, insert_notes, insert_orders, insert_notes_batch, set_where,
  mark_orders_onchain_nullified, is_open,
}
use solver.Ingest.{
  Note, from_note, parsed_order, SyncResult, IngestInput, accepted, note_rows, order_rows,
  ingest_order_of, forward, ingest_orders, ingest_synced, ingest_once, run_ingest,
}
use solver.Ingest.Steps.{all_sent_ids}
use solver.Ingest.Once.{run_ingest-sent_once}
use solver.Ingest.Closing.{IsClosedOrTaken, ingest_once-IsClosedOrTaken}

program : Unit {0}
unfolding get insert insert_notes insert_orders insert_notes_batch set_where
    mark_orders_onchain_nullified is_open same_status as_str from_note parsed_order accepted
    note_rows order_rows ingest_order_of forward ingest_orders ingest_synced ingest_once run_ingest
program = tt

abbrev row_of : OrderId → OrderRow
row_of id = record {
  note_id = id;
  account_id = 100;
  requested_asset = 8;
  requested_amount = 5;
  offered_asset = 7;
  offered_amount = 10;
  timestamp = 0;
  status = active;
}

abbrev stored : Db
stored = record {
  last_fetched_block = 0;
  notes = [];
  orders = (1, row_of 1) ∷ [];
  generated_notes = [];
  registered_tokens = [];
}

abbrev note : Note
note = record {
  id = 2;
  is_pswap_script = true;
  pswap = some (record { offered_asset = (7, 10); requested_asset = (8, 5); creator_id = 100 });
  bytes = 2 ∷ [];
}

abbrev sync : SyncResult
sync = record { block_num = 5; new_notes = note ∷ []; consumed_notes = 1 ∷ [] }

abbrev input : IngestInput
input = record { sync = some sync; consumed_write = true; batch_write = true; room = 4; now = 50 }

sent : In 2 (all_sent_ids (run_ingest stored (input ∷ [])).1)
unfolding program
sent = inl refl

run_ingest-sent_once_example :
    ¬ In 2 (all_sent_ids (run_ingest (run_ingest stored (input ∷ [])).0 (input ∷ [])).1)
run_ingest-sent_once_example = run_ingest-sent_once stored (input ∷ []) (input ∷ []) 2 sent

row_1 : get 1 stored.orders ≡ some (row_of 1)
unfolding program
row_1 = refl

own_1 : (row : OrderRow) → get 1 stored.orders ≡ some row → row.note_id ≡ 1
own_1 row g = let same : row_of 1 ≡ row = eq_of_some (sym row_1 ∙ g) in rw (← same) refl

ingest_once-IsClosedOrTaken_example :
    IsClosedOrTaken 1 stored input (accepted sync.new_notes) (ingest_once stored input)
ingest_once-IsClosedOrTaken_example =
    ingest_once-IsClosedOrTaken stored input sync 1 refl refl refl own_1

-- The second order is new and consumed in the same sync: it is stored as active, and sent.
abbrev late_input : IngestInput
late_input = record input { sync = some (record sync { consumed_notes = 2 ∷ [] }) }

late_row :
    get 2 (ingest_once stored late_input).db.orders ≡ some (record (row_of 2) { timestamp = 50 })
unfolding program
late_row = refl

late_sent : In 2 (all_sent_ids (run_ingest stored (late_input ∷ [])).1)
unfolding program
late_sent = inl refl
