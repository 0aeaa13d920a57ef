-- ===== src/Executor/Branches.antt =====
-- What becomes of the orders of a batch: in the database, and at the matcher.
use solver.Prelude.{
  ◌≤◌, ◌≡◌, ◌≢◌, refl, ap, ◌∙◌, Bool, true, false, some, List, [], ◌⊎◌, inl, inr, Bool-cases,
  Option-cases, if◌then◌else◌, nat_eq, arith, contains, length,
}
use solver.Prelude.Maps.{get}
use solver.Order.{OrderId}
use solver.Matcher.{FilledNote, ExecutionBatch}
use solver.Status.{active, settling, executed, onchain_nullified}
use solver.Db.{AccountId, OrderRow, Db, update_orders_status, is_open}
use solver.Db.Statuses.{with_status, settling_open}
use solver.Ingest.{Note}
use solver.Ingest.Steps.{sent_ids}
use solver.Flow.{PswapLib, BatchComponents, prepare_batch_components}
use solver.Flow.Lengths.{length-prepare_batch_components}
use solver.Submit.{
  SubmitOutcome, success, rpc_exhausted, tx_error, build_failed, cancelled, submit_with_rpc_backoff,
}
use solver.Submit.Attempts.{submit_with_rpc_backoff-Bounded}
use solver.Executor.{
  Classified, ExecInput, Outcome, failed, source_note_ids, revert_to_active, revert_and_refeed,
  write_classified, classify_failure, settle_outcome, submit_batch, execute_batch,
}
use solver.Executor.Refeed.{
  AllParsed, rebuild_all_orders-ids, refeed_orders_room, length-sent_ids, length-source_note_ids,
  IsPartition, classify_notes-IsPartition,
}
use solver.Executor.Rows.{
  updated_in, reverted_of, write_classified_smooth, reverted_of-consumed, reverted_of-active,
}

-- Nothing fails but the submission: every write succeeds and the channel takes the whole batch.
abbrev IsSmooth : ExecInput → List FilledNote → Type 0
IsSmooth input fs =
    (input.settling_write ≡ true)
    × (input.executed_write ≡ true)
    × (input.revert_write ≡ true)
    × (input.classify_conn ≡ true)
    × (input.nullify_write ≡ true)
    × (input.active_write ≡ true)
    × (length fs ≤ input.room)

-- Where an order of the batch is afterwards: executed, active and back at the matcher, or nullified
-- because the chain reports it consumed.
abbrev pub IsAccounted : OrderId → OrderRow → List OrderId → Outcome → Type 0
IsAccounted i row consumed r =
    ((get i r.db.orders ≡ some (with_status executed row)) × (r.refed ≡ []))
    ⊎ ((get i r.db.orders ≡ some (with_status active row)) × (contains i (sent_ids r.refed) ≡ true))
    ⊎ ((get i r.db.orders ≡ some (with_status onchain_nullified row))
        × (contains i consumed ≡ true)
        × (contains i (sent_ids r.refed) ≡ false))

module _ (input : ExecInput) (d : Db) (fs : List FilledNote) (notes : List Note) (i : OrderId)
    (row : OrderRow) where
  revert_and_refeed-IsAccounted :
      (consumed : List OrderId)
      → IsSmooth input fs
      → length notes ≡ length fs
      → AllParsed notes
      → contains i (source_note_ids fs) ≡ true
      → get i d.orders ≡ some row
      → row.note_id ≡ i
      → IsAccounted i row consumed (revert_and_refeed input d fs notes)
  unfolding revert_and_refeed revert_to_active failed
  revert_and_refeed-IsAccounted consumed smooth lengths parsed member stored own =
      let (orders, rebuilt, ids) = rebuild_all_orders-ids fs notes lengths parsed in
      let most : length orders ≤ input.room =
        omega (arith, smooth.6, length-sent_ids orders, length-source_note_ids fs, ap length ids) in
      inr (
        inl (
          rw (revert_to_active, smooth.2)
              (updated_in d (source_note_ids fs) i row stored own active member),
          rw (revert_and_refeed, rebuilt, refeed_orders_room input.room orders most, ids) member,
        ))

  write_classified-IsAccounted :
      (consumed : List OrderId) (c : Classified)
      → IsSmooth input fs
      → IsPartition consumed fs c
      → contains i (source_note_ids fs) ≡ true
      → get i d.orders ≡ some row
      → row.note_id ≡ i
      → is_open row.status ≡ true
      → IsAccounted i row consumed (write_classified input d c)
  unfolding write_classified failed
  write_classified-IsAccounted consumed c smooth parts member stored own opened =
      let most : length c.active_orders ≤ input.room =
        omega (arith, smooth.6, length-sent_ids c.active_orders, parts.3, ap length parts.2) in
      let done =
        write_classified_smooth input d c smooth.4 smooth.5
        ∙ ap (λ os. failed (reverted_of d c) os)
            (refeed_orders_room input.room c.active_orders most) in
      rw done (elim (Bool-cases (contains i consumed)) [
        | inl gone ↦
            let on : contains i c.consumed ≡ true = parts.0 i ∙ rw (gone, member) refl in
            let off : contains i c.active_ids ≡ false = parts.1 i ∙ rw gone refl in
            inr (
              inr (reverted_of-consumed d c i row stored own opened on off, gone, rw (parts.2) off))
        | inr stays ↦
            let on : contains i c.active_ids ≡ true = parts.1 i ∙ rw (stays, member) refl in
            let off : contains i c.consumed ≡ false = parts.0 i ∙ rw stays refl in
            inr (inl (reverted_of-active d c i row stored own off on, rw (parts.2) on))
      ])

  classify_failure-IsAccounted :
      (consumed : List OrderId)
      → IsSmooth input fs
      → input.consumed_ids notes ≡ some consumed
      → length notes ≡ length fs
      → AllParsed notes
      → contains i (source_note_ids fs) ≡ true
      → get i d.orders ≡ some row
      → row.note_id ≡ i
      → is_open row.status ≡ true
      → IsAccounted i row consumed (classify_failure input d fs notes)
  unfolding classify_failure
  classify_failure-IsAccounted consumed smooth checked lengths parsed member stored own opened =
      let (c, classified, parts) = classify_notes-IsPartition consumed fs notes lengths parsed in
      let done : classify_failure input d fs notes ≡ write_classified input d c =
        rw (classify_failure, checked, classified, smooth.3) refl in
      rw done (write_classified-IsAccounted consumed c smooth parts member stored own opened)

  settle_outcome-IsAccounted :
      (consumed : List OrderId) (outcome : SubmitOutcome)
      → outcome ≢ cancelled
      → IsSmooth input fs
      → input.consumed_ids notes ≡ some consumed
      → length notes ≡ length fs
      → AllParsed notes
      → contains i (source_note_ids fs) ≡ true
      → get i d.orders ≡ some row
      → row.note_id ≡ i
      → is_open row.status ≡ true
      → IsAccounted i row consumed (settle_outcome input d fs notes outcome)
  unfolding settle_outcome
  settle_outcome-IsAccounted consumed success live smooth checked lengths parsed member stored own
        opened =
      rw (settle_outcome, smooth.1)
        (inl (updated_in d (source_note_ids fs) i row stored own executed member, refl))
  settle_outcome-IsAccounted consumed rpc_exhausted live smooth checked lengths parsed member stored
        own opened =
      revert_and_refeed-IsAccounted consumed smooth lengths parsed member stored own
  settle_outcome-IsAccounted consumed build_failed live smooth checked lengths parsed member stored
        own opened =
      revert_and_refeed-IsAccounted consumed smooth lengths parsed member stored own
  settle_outcome-IsAccounted consumed cancelled live smooth checked lengths parsed member stored own
        opened =
      absurd (live refl)
  settle_outcome-IsAccounted consumed tx_error live smooth checked lengths parsed member stored own
        opened =
      classify_failure-IsAccounted consumed smooth checked lengths parsed member stored own opened

branch_on {ℓ} : {A : Type ℓ} {t : Bool} {x : A} (y : A) → t ≡ true → (if t then x else y) ≡ x
branch_on y h = rw h refl

submit_batch_settles :
    (input : ExecInput) (d : Db) (fs : List FilledNote) (notes : List Note)
    (components : BatchComponents) (outcome : SubmitOutcome)
    → input.settling_write ≡ true
    → (submit_with_rpc_backoff (input.chain components)).outcome ≡ some outcome
    → submit_batch input d fs notes components
      ≡ settle_outcome input
          (update_orders_status d (source_note_ids fs) settling).0
          fs
          notes
          outcome
unfolding submit_batch
submit_batch_settles input d fs notes components outcome written e =
    branch_on (failed d []) written ∙ rw e refl

-- Where the batch can be prepared and its notes parsed again, no
-- shutdown comes, the chain's nullifiers can be read, every database write succeeds and the
-- channel has room, then every order of the batch that is stored under its id is afterwards
-- executed, or active again and back at the matcher, or nullified since the chain reports it
-- consumed, and then it is not sent back. This holds whatever its status was before.
pub execute_batch-IsAccounted :
    (lib : PswapLib) (solver_id : AccountId) (input : ExecInput) (d : Db) (batch : ExecutionBatch)
    (components : BatchComponents) (notes : List Note) (consumed : List OrderId) (i : OrderId)
    (row : OrderRow)
    → prepare_batch_components lib batch solver_id ≡ some (components, notes)
    → AllParsed notes
    → (submit_with_rpc_backoff (input.chain components)).outcome ≢ some cancelled
    → input.consumed_ids notes ≡ some consumed
    → IsSmooth input batch.filled_notes
    → contains i (source_note_ids batch.filled_notes) ≡ true
    → get i d.orders ≡ some row
    → row.note_id ≡ i
    → IsAccounted i row consumed (execute_batch lib solver_id input d batch)
unfolding execute_batch
execute_batch-IsAccounted lib solver_id input d batch components notes consumed i row prepared
      parsed live checked smooth member stored own =
    let fs = batch.filled_notes in
    let lengths = length-prepare_batch_components lib batch solver_id components notes prepared in
    let settled = updated_in d (source_note_ids fs) i row stored own settling member in
    elim (Option-cases (submit_with_rpc_backoff (input.chain components)).outcome) [
      | inl e ↦ absurd (cc (rw e at (submit_with_rpc_backoff-Bounded (input.chain components)).0))
      | inr (outcome, e) ↦
          let done : execute_batch lib solver_id input d batch
              ≡ settle_outcome input (update_orders_status d (source_note_ids fs) settling).0 fs
                  notes outcome =
            rw (execute_batch, prepared)
              (submit_batch_settles input d fs notes components outcome smooth.0 e) in
          rw done (
            settle_outcome-IsAccounted input
              (update_orders_status d (source_note_ids fs) settling).0 fs notes i
              (with_status settling row) consumed outcome (λ same. live (e ∙ ap some same)) smooth
              checked lengths parsed member settled own settling_open)
    ]
