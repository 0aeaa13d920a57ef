-- ===== src/Executor.antt =====
-- crates/solver/src/executor/executor.rs: one batch through the executor, and its loop. The node
-- (Submit), the PSWAP library (Flow), the nullifier check, the outcome of each database write, the
-- room in the matcher's channel and the clock are inputs. A batch's note ids stand for their bytes.
pub mod Rows
pub mod Branches
pub mod Refeed
pub mod Within
pub mod Elsewhere
pub mod Writes
use solver.Prelude.{
  ℕ, zero, suc, ◌-◌, Bool, true, false, not, Option, none, some, List, [], ◌∷◌, ◌++◌, ◌==◌, nat_eq,
  pair_eq, if◌then◌else◌, contains, null, ◌>>=◌, ◌&&◌,
}
use solver.Order.{OrderId}
use solver.Book.{Pair}
use solver.Matcher.{FilledNote, ExecutionBatch, IngestOrder}
use solver.Status.{OrderStatus, active, settling, executed}
use solver.Db.{AccountId, Db, update_orders_status, mark_orders_onchain_nullified}
use solver.Ingest.{Note, ParsedOrder, from_note}
use solver.Flow.{PswapLib, BatchComponents, prepare_batch_components}
use solver.Submit.{
  SubmitOutcome, success, rpc_exhausted, tx_error, build_failed, cancelled, Chain,
  submit_with_rpc_backoff,
}
use solver.SwapEta.{SettlementStats, new_stats, record_settlement}

unfoldable pub refed_order : FilledNote → ParsedOrder → IngestOrder
refed_order filled parsed = record {
  note_id = filled.note_id;
  offered_token = parsed.offered_faucet_id;
  requested_token = parsed.requested_faucet_id;
  offered_amount = parsed.offered_amount;
  requested_amount = parsed.requested_amount;
  raw_note_data = filled.raw_note_data;
}

unfoldable pub rebuild_ingest_order : FilledNote → Note → Option IngestOrder
rebuild_ingest_order filled note = from_note note >>= λ parsed. some (refed_order filled parsed)

unfoldable pub rebuild_all_orders : List FilledNote → List Note → Option (List IngestOrder)
rebuild_all_orders [] notes = some []
rebuild_all_orders (filled ∷ fs) [] = some []
rebuild_all_orders (filled ∷ fs) (note ∷ notes) = rebuild_ingest_order filled note >>= λ order.
    rebuild_all_orders fs notes >>= λ orders. some (order ∷ orders)

-- The orders that the channel takes before it is closed.
unfoldable pub refeed_orders : ℕ → List IngestOrder → List IngestOrder
refeed_orders room [] = []
refeed_orders zero (order ∷ orders) = []
refeed_orders (suc room) (order ∷ orders) = order ∷ refeed_orders room orders

pub record Classified : Type 0 where
  pub consumed : List OrderId
  pub active_ids : List OrderId
  pub active_orders : List IngestOrder

unfoldable pub classify_notes : List OrderId → List FilledNote → List Note → Option Classified
classify_notes consumed_ids [] notes =
    some (record { consumed = []; active_ids = []; active_orders = [] })
classify_notes consumed_ids (filled ∷ fs) [] =
    some (record { consumed = []; active_ids = []; active_orders = [] })
classify_notes consumed_ids (filled ∷ fs) (note ∷ notes) =
    let rest = classify_notes consumed_ids fs notes in
    if contains filled.note_id consumed_ids
    then (rest >>= λ c. some (record c { consumed = filled.note_id ∷ c.consumed }))
    else (rebuild_ingest_order filled note >>= λ order. rest >>= λ c. some (record c {
      active_ids = filled.note_id ∷ c.active_ids;
      active_orders = order ∷ c.active_orders;
    }))

-- What the environment does with a batch: `check_consumed_notes` answers with the ids that are
-- consumed on chain, and each write succeeds or fails.
pub record ExecInput : Type 0 where
  pub chain : BatchComponents → Chain
  pub settling_write : Bool
  pub executed_write : Bool
  pub revert_write : Bool
  pub consumed_ids : List Note → Option (List OrderId)
  pub classify_conn : Bool
  pub nullify_write : Bool
  pub active_write : Bool
  pub room : ℕ

-- The database that the batch leaves, the orders sent back to the matcher, and `Ok` or `Err`.
pub record Outcome : Type 0 where
  pub db : Db
  pub refed : List IngestOrder
  pub ok : Bool

unfoldable pub failed : Db → List IngestOrder → Outcome
failed d refed = record { db = d; refed = refed; ok = false }

unfoldable pub source_note_ids : List FilledNote → List OrderId
source_note_ids [] = []
source_note_ids (filled ∷ fs) = filled.note_id ∷ source_note_ids fs

-- A write that fails leaves the rows as they are, and the error is only logged.
unfoldable pub revert_to_active : Bool → Db → List OrderId → Db
revert_to_active written d ids = if written then (update_orders_status d ids active).0 else d

unfoldable pub revert_and_refeed : ExecInput → Db → List FilledNote → List Note → Outcome
revert_and_refeed input d fs notes =
    failed (revert_to_active input.revert_write d (source_note_ids fs))
      (elim (rebuild_all_orders fs notes) [
        | none ↦ []
        | some orders ↦ refeed_orders input.room orders
      ])

-- The writes that follow the classification; each is skipped where it would touch no id.
unfoldable pub write_classified : ExecInput → Db → Classified → Outcome
write_classified input d c =
    let nullified = if null c.consumed then d else (mark_orders_onchain_nullified d c.consumed).0 in
    let reverted =
      if null c.active_ids
      then nullified
      else (update_orders_status nullified c.active_ids active).0 in
    if not (null c.consumed) && not input.nullify_write
    then failed d []
    else if not (null c.active_ids) && not input.active_write
    then failed nullified []
    else failed reverted (refeed_orders input.room c.active_orders)

unfoldable pub classify_failure : ExecInput → Db → List FilledNote → List Note → Outcome
classify_failure input d fs notes =
    elim (input.consumed_ids notes >>= λ consumed_ids. classify_notes consumed_ids fs notes) [
      | none ↦ failed d []
      | some c ↦ if input.classify_conn then write_classified input d c else failed d []
    ]

-- The `match` on the outcome of the submission.
unfoldable pub settle_outcome :
    ExecInput → Db → List FilledNote → List Note → SubmitOutcome → Outcome
settle_outcome input d fs notes success =
    if input.executed_write
    then record {
      db = (update_orders_status d (source_note_ids fs) executed).0;
      refed = [];
      ok = true;
    }
    else failed d []
settle_outcome input d fs notes rpc_exhausted = revert_and_refeed input d fs notes
settle_outcome input d fs notes build_failed = revert_and_refeed input d fs notes
settle_outcome input d fs notes cancelled = failed d []
settle_outcome input d fs notes tx_error = classify_failure input d fs notes

unfoldable pub submit_batch :
    ExecInput → Db → List FilledNote → List Note → BatchComponents → Outcome
submit_batch input d fs notes components =
    let settled = (update_orders_status d (source_note_ids fs) settling).0 in
    if input.settling_write
    then (elim (submit_with_rpc_backoff (input.chain components)).outcome [
      | none ↦ failed settled []
      | some outcome ↦ settle_outcome input settled fs notes outcome
    ])
    else failed d []

unfoldable pub execute_batch : PswapLib → AccountId → ExecInput → Db → ExecutionBatch → Outcome
execute_batch lib solver_id input d batch = elim (prepare_batch_components lib batch solver_id) [
  | none ↦ failed d []
  | some prepared ↦ submit_batch input d batch.filled_notes prepared.1 prepared.0
]

-- One sample for each note of a settled batch that can be parsed.
unfoldable pub record_notes : PswapLib → ℕ → List FilledNote → SettlementStats → SettlementStats
record_notes lib now [] stats = stats
record_notes lib now (filled ∷ fs) stats =
    record_notes lib now fs (elim (lib.read_note filled.raw_note_data >>= λ note. from_note note) [
      | none ↦ stats
      | some parsed ↦
          record_settlement stats (parsed.offered_faucet_id, parsed.requested_faucet_id) now
            (now - filled.arrival_unix)
    ])

pub record Executor : Type 0 where
  pub db : Db
  pub stats : SettlementStats
  pub refed : List IngestOrder

-- The body of the loop, for a batch received at a time.
unfoldable pub handle_batch :
    PswapLib → AccountId → Executor → ExecInput → ℕ → ExecutionBatch → Executor
handle_batch lib solver_id e input now batch =
    let r = execute_batch lib solver_id input e.db batch in
    if null batch.filled_notes then e else record {
      db = r.db;
      stats = if r.ok then record_notes lib now batch.filled_notes e.stats else e.stats;
      refed = e.refed ++ r.refed;
    }

unfoldable pub executor_loop :
    PswapLib → AccountId → Executor → List (ExecutionBatch × ExecInput × ℕ) → Executor
executor_loop lib solver_id e [] = e
executor_loop lib solver_id e ((batch, input, now) ∷ batches) =
    executor_loop lib solver_id (handle_batch lib solver_id e input now batch) batches

-- `run_executor`, up to the closed channel or the shutdown.
unfoldable pub run_executor :
    PswapLib → AccountId → Db → List (ExecutionBatch × ExecInput × ℕ) → Executor
run_executor lib solver_id d batches =
    executor_loop lib solver_id (record { db = d; stats = new_stats; refed = [] }) batches
