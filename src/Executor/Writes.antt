-- ===== src/Executor/Writes.antt =====
-- Every write of the executor is one of two updates of the order table, so what both keep, it keeps.
use solver.Prelude.{
  Bool, true, false, not, ◌&&◌, List, inl, inr, Option-cases, if◌then◌else◌, null, ◌>>=◌,
}
use solver.Order.{OrderId}
use solver.Matcher.{FilledNote, ExecutionBatch}
use solver.Status.{OrderStatus, active, settling, executed}
use solver.Db.{AccountId, Db, update_orders_status, mark_orders_onchain_nullified}
use solver.Ingest.{Note}
use solver.Flow.{PswapLib, BatchComponents, prepare_batch_components}
use solver.Submit.{
  SubmitOutcome, success, rpc_exhausted, tx_error, build_failed, cancelled, submit_with_rpc_backoff,
}
use solver.Executor.{
  classify_notes, ExecInput, Outcome, failed, source_note_ids, revert_to_active, revert_and_refeed,
  write_classified, classify_failure, settle_outcome, submit_batch, execute_batch,
}

module _ (P : Db → Type 0)
    (update : (d : Db) (ids : List OrderId) (s : OrderStatus)
      → P d
      → P (update_orders_status d ids s).0)
    (mark : (d : Db) (ids : List OrderId) → P d → P (mark_orders_onchain_nullified d ids).0) where
  either_db : (t : Bool) (x y : Db) → P x → P y → P (if t then x else y)
  either_db true x y u v = u
  either_db false x y u v = v

  either_outcome : (t : Bool) (x y : Outcome) → P x.db → P y.db → P (if t then x else y).db
  either_outcome true x y u v = u
  either_outcome false x y u v = v

  classify_failure-invariant :
      (input : ExecInput) (d : Db) (fs : List FilledNote) (notes : List Note)
      → P d
      → P (classify_failure input d fs notes).db
  unfolding classify_failure write_classified failed
  classify_failure-invariant input d fs notes h =
      elim (Option-cases
        (input.consumed_ids notes >>= λ consumed_ids. classify_notes consumed_ids fs notes)) [
          | inl e ↦ rw (classify_failure, e) h
          | inr (c, e) ↦
              let nullified = either_db (null c.consumed) d _ h (mark d c.consumed h) in
              let reverted =
                either_db (null c.active_ids) _ _ nullified
                  (update _ c.active_ids active nullified) in
              rw (classify_failure, e)
                (either_outcome input.classify_conn _ _
                  (either_outcome (not (null c.consumed) && not input.nullify_write) _ _ h (
                    either_outcome (not (null c.active_ids) && not input.active_write) _ _ nullified
                      reverted))
                  h)
        ]

  settle_outcome-invariant :
      (input : ExecInput) (d : Db) (fs : List FilledNote) (notes : List Note)
      (outcome : SubmitOutcome)
      → P d
      → P (settle_outcome input d fs notes outcome).db
  unfolding settle_outcome failed revert_and_refeed revert_to_active
  settle_outcome-invariant input d fs notes success h =
      either_outcome input.executed_write _ _ (update d (source_note_ids fs) executed h) h
  settle_outcome-invariant input d fs notes rpc_exhausted h =
      either_db input.revert_write _ d (update d (source_note_ids fs) active h) h
  settle_outcome-invariant input d fs notes build_failed h =
      either_db input.revert_write _ d (update d (source_note_ids fs) active h) h
  settle_outcome-invariant input d fs notes cancelled h = h
  settle_outcome-invariant input d fs notes tx_error h =
      classify_failure-invariant input d fs notes h

  submit_batch-invariant :
      (input : ExecInput) (d : Db) (fs : List FilledNote) (notes : List Note)
      (components : BatchComponents)
      → P d
      → P (submit_batch input d fs notes components).db
  unfolding submit_batch failed
  submit_batch-invariant input d fs notes components h =
      let settled = update d (source_note_ids fs) settling h in
      either_outcome input.settling_write _ _
        (elim (Option-cases (submit_with_rpc_backoff (input.chain components)).outcome) [
          | inl e ↦ rw e settled
          | inr (outcome, e) ↦ rw e (settle_outcome-invariant input _ fs notes outcome settled)
        ])
        h

  -- A property of the database that both updates keep is kept by a batch, whatever fails.
  pub execute_batch-invariant :
      (lib : PswapLib) (solver_id : AccountId) (input : ExecInput) (d : Db) (batch : ExecutionBatch)
      → P d
      → P (execute_batch lib solver_id input d batch).db
  unfolding execute_batch failed
  execute_batch-invariant lib solver_id input d batch h =
      elim (Option-cases (prepare_batch_components lib batch solver_id)) [
        | inl e ↦ rw (execute_batch, e) h
        | inr (prepared, e) ↦
            rw (execute_batch, e)
              (submit_batch-invariant input d batch.filled_notes prepared.1 prepared.0 h)
      ]
