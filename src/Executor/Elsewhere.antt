-- ===== src/Executor/Elsewhere.antt =====
-- What a batch leaves alone, whatever fails: the orders that are not in it.
use solver.Prelude.{
  ◌≡◌, refl, Bool, true, false, not, ◌&&◌, some, List, inl, inr, Bool-cases, Option-cases,
  if◌then◌else◌, nat_eq, contains, null, ◌>>=◌,
}
use solver.Prelude.Maps.{get}
use solver.Order.{OrderId}
use solver.Matcher.{FilledNote, ExecutionBatch}
use solver.Status.{active, settling, executed}
use solver.Db.{AccountId, OrderRow, Db}
use solver.Ingest.{Note}
use solver.Ingest.Steps.{sent_ids}
use solver.Flow.{PswapLib, BatchComponents, prepare_batch_components}
use solver.Flow.Terms.{bind-some}
use solver.Submit.{
  SubmitOutcome, success, rpc_exhausted, tx_error, build_failed, cancelled, submit_with_rpc_backoff,
}
use solver.Executor.{
  rebuild_all_orders, Classified, classify_notes, ExecInput, Outcome, failed, source_note_ids,
  revert_to_active, revert_and_refeed, write_classified, classify_failure, settle_outcome,
  submit_batch, execute_batch,
}
use solver.Executor.Rows.{updated_out, nullified_of, nullified_of-off, reverted_of}
use solver.Executor.Within.{
  rebuild_all_orders-elsewhere, refeed_orders-elsewhere, IsElsewhere, classify_notes-IsElsewhere,
}

-- The row is as it was, and the order is not sent to the matcher.
abbrev pub IsUntouched : OrderId → OrderRow → Outcome → Type 0
IsUntouched i row r = (get i r.db.orders ≡ some row) × (contains i (sent_ids r.refed) ≡ false)

either-IsUntouched :
    (i : OrderId) (row : OrderRow) (t : Bool) (x y : Outcome)
    → IsUntouched i row x
    → IsUntouched i row y
    → IsUntouched i row (if t then x else y)
either-IsUntouched i row true x y u v = u
either-IsUntouched i row false x y u v = v

module _ (input : ExecInput) (d : Db) (i : OrderId) (row : OrderRow)
    (stored : get i d.orders ≡ some row) (own : row.note_id ≡ i) where
  revert_and_refeed-IsUntouched :
      (fs : List FilledNote) (notes : List Note)
      → contains i (source_note_ids fs) ≡ false
      → IsUntouched i row (revert_and_refeed input d fs notes)
  unfolding revert_and_refeed revert_to_active failed
  revert_and_refeed-IsUntouched fs notes off = (reverted input.revert_write, sent)
    where
      reverted : (t : Bool) → get i (revert_to_active t d (source_note_ids fs)).orders ≡ some row
      reverted true = updated_out d (source_note_ids fs) i row stored own active off
      reverted false = stored

      sent : contains i (sent_ids (revert_and_refeed input d fs notes).refed) ≡ false
      sent = elim (Option-cases (rebuild_all_orders fs notes)) [
        | inl e ↦ rw (revert_and_refeed, e) refl
        | inr (orders, e) ↦
            rw (revert_and_refeed, e)
              (refeed_orders-elsewhere input.room orders i
                (rebuild_all_orders-elsewhere fs notes i e off))
      ]

  write_classified-IsUntouched :
      (c : Classified) → IsElsewhere i c → IsUntouched i row (write_classified input d c)
  unfolding write_classified failed
  write_classified-IsUntouched c there =
      let nullified = nullified_of-off d c i row stored own there.0 in
      either-IsUntouched i row (not (null c.consumed) && not input.nullify_write) _ _ (stored, refl)
        (either-IsUntouched i row (not (null c.active_ids) && not input.active_write) _ _
          (nullified, refl)
          (reverted nullified, refeed_orders-elsewhere input.room c.active_orders i there.2))
    where
      reverted :
          get i (nullified_of d c).orders ≡ some row → get i (reverted_of d c).orders ≡ some row
      reverted nullified = elim (Bool-cases (null c.active_ids)) [
        | inl e ↦ rw e nullified
        | inr e ↦
            rw e (updated_out (nullified_of d c) c.active_ids i row nullified own active there.1)
      ]

  classify_failure-IsUntouched :
      (fs : List FilledNote) (notes : List Note)
      → contains i (source_note_ids fs) ≡ false
      → IsUntouched i row (classify_failure input d fs notes)
  unfolding classify_failure failed
  classify_failure-IsUntouched fs notes off =
      elim (Option-cases
        (input.consumed_ids notes >>= λ consumed_ids. classify_notes consumed_ids fs notes)) [
          | inl e ↦ rw (classify_failure, e) (stored, refl)
          | inr (c, e) ↦
              let (consumed_ids, checked, h) = bind-some (input.consumed_ids notes) _ e in
              rw (classify_failure, e)
                (either-IsUntouched i row input.classify_conn _ _
                  (write_classified-IsUntouched c
                    (classify_notes-IsElsewhere consumed_ids fs notes c i h off))
                  (stored, refl))
        ]

  settle_outcome-IsUntouched :
      (fs : List FilledNote) (notes : List Note) (outcome : SubmitOutcome)
      → contains i (source_note_ids fs) ≡ false
      → IsUntouched i row (settle_outcome input d fs notes outcome)
  unfolding settle_outcome failed
  settle_outcome-IsUntouched fs notes success off =
      either-IsUntouched i row input.executed_write _ _
        (updated_out d (source_note_ids fs) i row stored own executed off, refl) (stored, refl)
  settle_outcome-IsUntouched fs notes rpc_exhausted off = revert_and_refeed-IsUntouched fs notes off
  settle_outcome-IsUntouched fs notes build_failed off = revert_and_refeed-IsUntouched fs notes off
  settle_outcome-IsUntouched fs notes cancelled off = (stored, refl)
  settle_outcome-IsUntouched fs notes tx_error off = classify_failure-IsUntouched fs notes off

submit_batch-IsUntouched :
    (input : ExecInput) (d : Db) (fs : List FilledNote) (notes : List Note)
    (components : BatchComponents) (i : OrderId) (row : OrderRow)
    → get i d.orders ≡ some row
    → row.note_id ≡ i
    → contains i (source_note_ids fs) ≡ false
    → IsUntouched i row (submit_batch input d fs notes components)
unfolding submit_batch failed
submit_batch-IsUntouched input d fs notes components i row stored own off =
    let settled = updated_out d (source_note_ids fs) i row stored own settling off in
    either-IsUntouched i row input.settling_write _ _
      (elim (Option-cases (submit_with_rpc_backoff (input.chain components)).outcome) [
        | inl e ↦ rw e (settled, refl)
        | inr (outcome, e) ↦
            rw e (settle_outcome-IsUntouched input _ i row settled own fs notes outcome off)
      ])
      (stored, refl)

-- Whatever the node answers and whichever write fails, a batch leaves the row of every other order
-- that is stored under its id as it was, and does not send that order to the matcher.
pub execute_batch-IsUntouched :
    (lib : PswapLib) (solver_id : AccountId) (input : ExecInput) (d : Db) (batch : ExecutionBatch)
    (i : OrderId) (row : OrderRow)
    → get i d.orders ≡ some row
    → row.note_id ≡ i
    → contains i (source_note_ids batch.filled_notes) ≡ false
    → IsUntouched i row (execute_batch lib solver_id input d batch)
unfolding execute_batch failed
execute_batch-IsUntouched lib solver_id input d batch i row stored own off =
    elim (Option-cases (prepare_batch_components lib batch solver_id)) [
      | inl e ↦ rw (execute_batch, e) (stored, refl)
      | inr (prepared, e) ↦
          rw (execute_batch, e)
            (submit_batch-IsUntouched input d batch.filled_notes prepared.1 prepared.0 i row stored
              own off)
    ]
