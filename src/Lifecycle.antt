-- ===== src/Lifecycle.antt =====
-- The life cycle of a stored order: what ingest (crates/solver/src/ingest/ingest.rs), the executor
-- (crates/solver/src/executor/executor.rs) and the recovery at start-up
-- (crates/solver/src/db/db.rs) do to the shared database, in any order. Each is one step.
use solver.Prelude.{
  ◌≡◌, refl, ◌∙◌, Bool, true, false, some, List, [], inl, inr, if◌then◌else◌, contains, nat_eq,
  arith,
}
use solver.Prelude.Maps.{get}
use solver.Order.{OrderId}
use solver.Matcher.{ExecutionBatch}
use solver.Status.{OrderStatus, active, settling, onchain_nullified, same_status}
use solver.Db.{
  AccountId, OrderRow, Db, is_open, update_orders_status, mark_orders_onchain_nullified,
  reset_all_settling_to_active,
}
use solver.Db.Statuses.{
  with_status, get-update_orders_status, get-mark_orders_onchain_nullified, get-set_where,
}
use solver.Ingest.{IngestInput, ingest_once}
use solver.Ingest.Steps.{ingest_once-kept}
use solver.Flow.{PswapLib}
use solver.Executor.{ExecInput, source_note_ids, execute_batch}
use solver.Executor.Elsewhere.{execute_batch-IsUntouched}
use solver.Executor.Writes.{execute_batch-invariant}

-- A step, with the ids of the orders that the executor settles in it.
pub data Step : List OrderId → Db → Db → Type 0 where
  ingest : (d : Db) (input : IngestInput) → Step [] d (ingest_once d input).db
  execute :
      (d : Db) (lib : PswapLib) (solver_id : AccountId) (input : ExecInput) (batch : ExecutionBatch)
      → Step (source_note_ids batch.filled_notes) d (execute_batch lib solver_id input d batch).db
  recover : (d : Db) → Step [] d (reset_all_settling_to_active d).0

pub data Run (d : Db) : Db → Type 0 where
  start : Run d d
  step : {e f : Db} {ids : List OrderId} → Run d e → Step ids e f → Run d f

-- The runs in which the executor settles no batch with the order.
pub data RunWithout (i : OrderId) (d : Db) : Db → Type 0 where
  start_without : RunWithout i d d
  step_without :
      {e f : Db} {ids : List OrderId}
      → RunWithout i d e
      → Step ids e f
      → contains i ids ≡ false
      → RunWithout i d f

-- The order is stored with the terms of the row, under some status.
abbrev pub HasTerms : OrderId → OrderRow → Db → Type 0
HasTerms i row d = (s : OrderStatus) × (get i d.orders ≡ some (with_status s row))

chosen-HasTerms :
    (i : OrderId) (row : OrderRow) (t : Bool) (s new : OrderStatus) (d : Db)
    → get i d.orders ≡ some (if t then with_status new (with_status s row) else with_status s row)
    → HasTerms i row d
chosen-HasTerms i row true s new d h = (new, h)
chosen-HasTerms i row false s new d h = (s, h)

get-reset_all_settling_to_active :
    (d : Db) (i : OrderId) {row : OrderRow}
    → get i d.orders ≡ some row
    → get i (reset_all_settling_to_active d).0.orders
      ≡ some (if same_status row.status settling then with_status active row else row)
unfolding reset_all_settling_to_active
get-reset_all_settling_to_active d i g =
    get-set_where (λ row. same_status row.status settling) active d.orders i g

Step-HasTerms :
    (i : OrderId) (row : OrderRow) {ids : List OrderId} {d e : Db}
    → Step ids d e
    → HasTerms i row d
    → HasTerms i row e
Step-HasTerms i row (ingest d input) (s, stored) =
    elim (ingest_once-kept d input i (with_status s row) stored) [
      | inl same ↦ (s, same)
      | inr closed ↦ (onchain_nullified, closed.1)
    ]
Step-HasTerms i row (recover d) (s, stored) =
    chosen-HasTerms i row (same_status s settling) s active (reset_all_settling_to_active d).0
      (get-reset_all_settling_to_active d i stored)
Step-HasTerms i row (execute d lib solver_id input batch) h =
    execute_batch-invariant (HasTerms i row)
      (λ d' ids new held.
        chosen-HasTerms i row _ held.0 new (update_orders_status d' ids new).0
          (get-update_orders_status d' ids new i held.1))
      (λ d' ids held.
        chosen-HasTerms i row _ held.0 onchain_nullified (mark_orders_onchain_nullified d' ids).0
          (get-mark_orders_onchain_nullified d' ids i held.1))
      lib solver_id input d batch h

-- In any run of ingest, executor and recovery, whatever fails in it, a stored order stays stored
-- with the terms it came with; only its status changes.
pub Run-HasTerms :
    (i : OrderId) (row : OrderRow) {d e : Db} → Run d e → HasTerms i row d → HasTerms i row e
Run-HasTerms i row start h = h
Run-HasTerms i row (step run s) h = Step-HasTerms i row s (Run-HasTerms i row run h)

settling_is_open : (s : OrderStatus) → is_open s ≡ false → same_status s settling ≡ false
unfolding is_open
settling_is_open s h = ground arith

Step-closed :
    (i : OrderId) (row : OrderRow) {ids : List OrderId} {d e : Db}
    → Step ids d e
    → contains i ids ≡ false
    → row.note_id ≡ i
    → is_open row.status ≡ false
    → get i d.orders ≡ some row
    → get i e.orders ≡ some row
Step-closed i row (ingest d input) off own closed stored =
    elim (ingest_once-kept d input i row stored) [
      | inl same ↦ same
      | inr opened ↦ absurd (cc (closed, opened.0))
    ]
Step-closed i row (recover d) off own closed stored =
    get-reset_all_settling_to_active d i stored ∙ rw (settling_is_open row.status closed) refl
Step-closed i row (execute d lib solver_id input batch) off own closed stored =
    (execute_batch-IsUntouched lib solver_id input d batch i row stored own off).0

-- An order that is stored under its id and is executed or nullified on chain stays so, in any run
-- in which the executor is given no batch with it: neither ingest nor the recovery at start-up opens
-- it again.
pub RunWithout-closed :
    (i : OrderId) (row : OrderRow) {d e : Db}
    → RunWithout i d e
    → row.note_id ≡ i
    → is_open row.status ≡ false
    → get i d.orders ≡ some row
    → get i e.orders ≡ some row
RunWithout-closed i row start_without own closed stored = stored
RunWithout-closed i row (step_without run s off) own closed stored =
    Step-closed i row s off own closed (RunWithout-closed i row run own closed stored)
