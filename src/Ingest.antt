-- ===== src/Ingest.antt =====
-- crates/solver/src/ingest/ingest.rs: one iteration of the ingest loop, and
-- crates/solver/src/types.rs: `Order::from_note`. What the Miden client answers to `sync_state`, and
-- what its note library says of a note (its id, whether it carries the PSWAP script, its terms, its
-- bytes), are inputs. So are the outcomes of the two database writes and the number of orders that
-- the matcher's channel takes before it closes.
pub mod Steps
pub mod Once
pub mod Closing
use solver.Prelude.{
  ℕ, zero, suc, Bool, true, false, ◌||◌, not, Option, none, some, List, [], ◌∷◌, ◌==◌, nat_eq,
  if◌then◌else◌, contains, null, ◌>>=◌,
}
use solver.Order.{OrderId, TokenId, Amount}
use solver.Matcher.{Bytes, IngestOrder}
use solver.Status.{active}
use solver.Wire.{Asset}
use solver.Db.{AccountId, NoteRow, OrderRow, Db, insert_notes_batch, mark_orders_onchain_nullified}

-- The terms of a PSWAP note, as its library reads them.
pub record Pswap : Type 0 where
  pub offered_asset : Asset
  pub requested_asset : Asset
  pub creator_id : AccountId

pub record Note : Type 0 where
  pub id : OrderId
  pub is_pswap_script : Bool
  pub pswap : Option Pswap
  pub bytes : Bytes

pub record ParsedOrder : Type 0 where
  pub note : Note
  pub offered_faucet_id : TokenId
  pub offered_amount : Amount
  pub requested_faucet_id : TokenId
  pub requested_amount : Amount
  pub creator_id : AccountId

unfoldable pub parsed_order : Note → Pswap → ParsedOrder
parsed_order note p = record {
  note = note;
  offered_faucet_id = p.offered_asset.0;
  offered_amount = p.offered_asset.1;
  requested_faucet_id = p.requested_asset.0;
  requested_amount = p.requested_asset.1;
  creator_id = p.creator_id;
}

unfoldable pub from_note : Note → Option ParsedOrder
from_note note = note.pswap >>= λ p.
    if p.offered_asset.1 == 0 || p.requested_asset.1 == 0 then none else some (parsed_order note p)

pub record SyncResult : Type 0 where
  pub block_num : ℕ
  pub new_notes : List Note
  pub consumed_notes : List OrderId

-- The orders of the notes that carry the script and can be parsed.
unfoldable pub accepted : List Note → List ParsedOrder
accepted [] = []
accepted (note ∷ notes) =
    let rest = accepted notes in
    if not note.is_pswap_script
    then rest
    else elim (from_note note) [ none ↦ rest | some o ↦ o ∷ rest ]

unfoldable pub note_rows : List ParsedOrder → List NoteRow
note_rows [] = []
note_rows (o ∷ os) =
    record { note_id = o.note.id; account_id = o.creator_id; raw_data = o.note.bytes }
    ∷ note_rows os

unfoldable pub order_rows : ℕ → List ParsedOrder → List OrderRow
order_rows now [] = []
order_rows now (o ∷ os) =
    record {
      note_id = o.note.id;
      account_id = o.creator_id;
      requested_asset = o.requested_faucet_id;
      requested_amount = o.requested_amount;
      offered_asset = o.offered_faucet_id;
      offered_amount = o.offered_amount;
      timestamp = now;
      status = active;
    }
    ∷ order_rows now os

unfoldable pub ingest_order_of : ParsedOrder → IngestOrder
ingest_order_of o = record {
  note_id = o.note.id;
  offered_token = o.offered_faucet_id;
  requested_token = o.requested_faucet_id;
  offered_amount = o.offered_amount;
  requested_amount = o.requested_amount;
  raw_note_data = o.note.bytes;
}

-- The last loop: the first-seen orders go to the matcher until its channel is closed, which is an
-- error.
unfoldable pub forward : ℕ → List OrderId → List ParsedOrder → List IngestOrder × Bool
forward room inserted [] = ([], true)
forward room inserted (o ∷ os) =
    let skipped = forward room inserted os in
    let sent : List IngestOrder × Bool = elim room [
      | ℕ.zero ↦ ([], false)
      | ℕ.suc left ↦ let (rest, done) = forward left inserted os in (ingest_order_of o ∷ rest, done)
    ] in
    if contains o.note.id inserted then sent else skipped

-- What the environment does in one iteration.
pub record IngestInput : Type 0 where
  pub sync : Option SyncResult
  pub consumed_write : Bool
  pub batch_write : Bool
  pub room : ℕ
  pub now : ℕ

-- The database that an iteration leaves, what it sent to the matcher, and whether it ended well.
pub record Ingested : Type 0 where
  pub db : Db
  pub consumed : List OrderId
  pub forwarded : List IngestOrder
  pub done : Bool

unfoldable pub ingest_orders : Db → List OrderId → IngestInput → ℕ → List ParsedOrder → Ingested
ingest_orders d consumed input block_num orders =
    let (stored, inserted) =
      insert_notes_batch d (note_rows orders) (order_rows input.now orders) block_num in
    let (forwarded, done) = forward input.room inserted orders in
    if null orders
    then record { db = d; consumed = consumed; forwarded = []; done = true }
    else if not input.batch_write
    then record { db = d; consumed = consumed; forwarded = []; done = false }
    else record { db = stored; consumed = consumed; forwarded = forwarded; done = done }

unfoldable pub ingest_synced : Db → IngestInput → SyncResult → Ingested
ingest_synced d input r =
    if null r.consumed_notes
    then ingest_orders d [] input r.block_num (accepted r.new_notes)
    else if not input.consumed_write
    then record { db = d; consumed = []; forwarded = []; done = false }
    else ingest_orders (mark_orders_onchain_nullified d r.consumed_notes).0 r.consumed_notes input
        r.block_num (accepted r.new_notes)

unfoldable pub ingest_once : Db → IngestInput → Ingested
ingest_once d input = elim input.sync [
  | none ↦ record { db = d; consumed = []; forwarded = []; done = false }
  | some r ↦ ingest_synced d input r
]

-- `run_ingest`: an iteration that failed is logged, and the next one starts from its database. The
-- result is the last database and, for each iteration, what was forwarded.
unfoldable pub run_ingest : Db → List IngestInput → Db × List (List IngestOrder)
run_ingest d [] = (d, [])
run_ingest d (input ∷ inputs) =
    let r = ingest_once d input in
    let (last, later) = run_ingest r.db inputs in (last, r.forwarded ∷ later)
