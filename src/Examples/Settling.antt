-- ===== src/Examples/Settling.antt =====
-- A note library, a node that answers at the third attempt, a batch of two orders that cross, and
-- the database around it.
use solver.Prelude.{
  ℕ, zero, suc, ◌+◌, ◌<◌, ◌≤◌, ◌≡◌, ◌≢◌, refl, true, false, Option, none, some, List, [], ◌∷◌, inl,
  arith, ltb, if◌then◌else◌, is_some, contains, nat_eq, u64_mod,
}
use solver.Prelude.Maps.{get, insert}
use solver.Order.{OrderId, TokenId, Amount}
use solver.Matcher.{Bytes, ExecutionBatch}
use solver.Status.{active, executed, as_str, same_status}
use solver.Wire.{Asset}
use solver.Db.{
  OrderRow, Db, set_where, update_orders_status, mark_orders_onchain_nullified, is_open,
  reset_all_settling_to_active,
}
use solver.Ingest.{Note, from_note, parsed_order}
use solver.Flow.{
  PswapLib, BatchComponents, Prepared, note_asset_amount, credit_flow, debit_flow, settle_remainder,
  prepare_pswap, prepare_notes, surplus_of, nothing_prepared, prepare_batch_components,
}
use solver.Flow.Solvency.{IsAssetMaker, prepare_batch_components-balances}
use solver.Flow.Terms.{asset_total, paid, released}
use solver.Flow.Complete.{TakesBelow, prepare_batch_components-passes}
use solver.Prelude.Signed.{pos, diff, ◌+ℤ◌, ◌-ℤ◌, neg}
use solver.Submit.{
  success, SubmitResult, transient, accepted, Chain, cancelled, submit_loop, after_answer, returns,
  after_sleep, submit_with_rpc_backoff,
}
use solver.Submit.Attempts.{submit_with_rpc_backoff-Bounded, submit_with_rpc_backoff-verdict, sum}
use solver.Executor.{ExecInput, source_note_ids, execute_batch}
use solver.Executor.Refeed.{AllParsed}
use solver.Executor.Branches.{IsAccounted, execute_batch-IsAccounted}
use solver.Executor.Elsewhere.{IsUntouched, execute_batch-IsUntouched}
use solver.Lifecycle.{
  Run, start, step, RunWithout, start_without, step_without, recover, execute, HasTerms,
  Run-HasTerms, RunWithout-closed,
}

program : Unit {0}
unfolding get insert set_where update_orders_status mark_orders_onchain_nullified is_open
    reset_all_settling_to_active same_status as_str from_note parsed_order note_asset_amount
    credit_flow debit_flow settle_remainder prepare_pswap prepare_notes surplus_of nothing_prepared
    prepare_batch_components diff ◌+ℤ◌ ◌-ℤ◌ neg submit_loop after_answer returns after_sleep
    submit_with_rpc_backoff source_note_ids
program = tt

-- A note is written as its id, the two assets and the creator.
abbrev read_note : Bytes → Option Note
read_note (id ∷ ot ∷ oa ∷ rt ∷ ra ∷ creator ∷ []) = some (record {
  id = id;
  is_pswap_script = true;
  pswap =
      some (record { offered_asset = (ot, oa); requested_asset = (rt, ra); creator_id = creator });
  bytes = id ∷ ot ∷ oa ∷ rt ∷ ra ∷ creator ∷ [];
})
read_note _ = none

abbrev new_asset : TokenId → Amount → Option Asset
new_asset t n = if ltb n u64_mod then some (t, n) else none

abbrev lib : PswapLib
lib = record {
  read_note = read_note;
  new_asset = new_asset;
  create_args = λ a b. some (a ∷ b ∷ []);
  execute =
      λ note solver_id fill. some (record { recipient = note.id; amounts = fill.1 ∷ [] }, none);
}

abbrev first_bytes : Bytes
first_bytes = 1 ∷ 7 ∷ 10 ∷ 8 ∷ 5 ∷ 100 ∷ []

abbrev second_bytes : Bytes
second_bytes = 2 ∷ 8 ∷ 6 ∷ 7 ∷ 9 ∷ 101 ∷ []

abbrev batch : ExecutionBatch
batch = record {
  filled_notes =
      record { note_id = 1; requested_filled = 5; raw_note_data = first_bytes; arrival_unix = 0 }
      ∷ record { note_id = 2; requested_filled = 9; raw_note_data = second_bytes; arrival_unix = 0 }
      ∷ [];
}

abbrev first_note : Note
first_note = record {
  id = 1;
  is_pswap_script = true;
  pswap = some (record { offered_asset = (7, 10); requested_asset = (8, 5); creator_id = 100 });
  bytes = first_bytes;
}

abbrev second_note : Note
second_note = record {
  id = 2;
  is_pswap_script = true;
  pswap = some (record { offered_asset = (8, 6); requested_asset = (7, 9); creator_id = 101 });
  bytes = second_bytes;
}

abbrev components : BatchComponents
components = record {
  input_notes = (first_note, 0 ∷ 5 ∷ []) ∷ (second_note, 0 ∷ 9 ∷ []) ∷ [];
  expected_output_recipients = 1 ∷ 2 ∷ [];
  surplus_assets = (7, 1) ∷ (8, 1) ∷ [];
}

abbrev notes : List Note
notes = first_note ∷ second_note ∷ []

prepared : prepare_batch_components lib batch 0 ≡ some (components, notes)
unfolding program
prepared = refl

maker : IsAssetMaker new_asset
maker t n a h = ground arith

prepare_batch_components-balances_example :
    asset_total 7 components.surplus_assets + paid lib 0 7 batch.filled_notes
    ≡ released lib 7 batch.filled_notes
prepare_batch_components-balances_example =
    prepare_batch_components-balances lib batch 0 components notes maker prepared 7

abbrev variables : Prepared
variables = record {
  input_notes = components.input_notes;
  expected_output_recipients = components.expected_output_recipients;
  input_notes_only = notes;
  flow = (7, pos 1) ∷ (8, pos 1) ∷ [];
}

variables_of : prepare_notes lib 0 batch.filled_notes nothing_prepared ≡ some variables
unfolding program
variables_of = refl

taken : TakesBelow u64_mod new_asset
taken t n h = ground arith

solvent : (t : TokenId) → paid lib 0 t batch.filled_notes ≤ released lib t batch.filled_notes
unfolding program
solvent t = ground arith

held : (t : TokenId) → released lib t batch.filled_notes < u64_mod
unfolding program
held t = ground arith

prepare_batch_components-passes_example : is_some (prepare_batch_components lib batch 0) ≡ true
prepare_batch_components-passes_example =
    prepare_batch_components-passes lib batch 0 variables u64_mod (omega arith) (omega arith) taken
      variables_of solvent held

-- The connection fails twice, and then the transaction goes through.
abbrev answer : ℕ → SubmitResult
answer zero = transient
answer (suc zero) = transient
answer (suc (suc n)) = accepted

abbrev chain : Chain
chain = record { builds = true; submit = answer; shutdown = λ attempt. false }

submit_with_rpc_backoff-Bounded_example :
    (is_some (submit_with_rpc_backoff chain).outcome ≡ true)
    × ((submit_with_rpc_backoff chain).submits ≤ 6)
    × (sum (submit_with_rpc_backoff chain).sleeps ≤ 15500)
submit_with_rpc_backoff-Bounded_example = submit_with_rpc_backoff-Bounded chain

waited : (j : ℕ) → j < 2 → (answer j ≡ transient) × (false ≡ false)
waited zero h = (refl, refl)
waited (suc zero) h = (refl, refl)
waited (suc (suc j)) h = absurd (omega arith)

submit_with_rpc_backoff-verdict_example : (submit_with_rpc_backoff chain).outcome ≡ some success
submit_with_rpc_backoff-verdict_example =
    submit_with_rpc_backoff-verdict chain 2 refl (omega arith) waited (inl (λ e. absurd (cc (e))))

abbrev row_of : OrderId → OrderRow
row_of id = record {
  note_id = id;
  account_id = 100;
  requested_asset = 8;
  requested_amount = 5;
  offered_asset = 7;
  offered_amount = 10;
  timestamp = 0;
  status = active;
}

abbrev closed_row : OrderRow
closed_row = record (row_of 3) { status = executed }

abbrev stored : Db
stored = record {
  last_fetched_block = 0;
  notes = [];
  orders = (1, row_of 1) ∷ (2, row_of 2) ∷ (3, closed_row) ∷ [];
  generated_notes = [];
  registered_tokens = [];
}

abbrev input : ExecInput
input = record {
  chain = λ c. chain;
  settling_write = true;
  executed_write = true;
  revert_write = true;
  consumed_ids = λ notes. some [];
  classify_conn = true;
  nullify_write = true;
  active_write = true;
  room = 4;
}

parsed : AllParsed notes
unfolding program
parsed = (refl, (refl, tt))

submitted : (submit_with_rpc_backoff chain).outcome ≢ some cancelled
submitted e = absurd (cc (e, submit_with_rpc_backoff-verdict_example))

row_1 : get 1 stored.orders ≡ some (row_of 1)
unfolding program
row_1 = refl

row_3 : get 3 stored.orders ≡ some closed_row
unfolding program
row_3 = refl

in_batch : contains 1 (source_note_ids batch.filled_notes) ≡ true
unfolding program
in_batch = refl

not_in_batch : contains 3 (source_note_ids batch.filled_notes) ≡ false
unfolding program
not_in_batch = refl

execute_batch-IsAccounted_example :
    IsAccounted 1 (row_of 1) [] (execute_batch lib 0 input stored batch)
execute_batch-IsAccounted_example =
    execute_batch-IsAccounted lib 0 input stored batch components notes [] 1 (row_of 1) prepared
      parsed submitted refl (refl, refl, refl, refl, refl, refl, omega arith) in_batch row_1 refl

execute_batch-IsUntouched_example :
    IsUntouched 3 closed_row (execute_batch lib 0 input stored batch)
execute_batch-IsUntouched_example =
    execute_batch-IsUntouched lib 0 input stored batch 3 closed_row row_3 refl not_in_batch

-- A batch, and the recovery at the next start.
abbrev after_batch : Db
after_batch = (execute_batch lib 0 input stored batch).db

history : Run stored (reset_all_settling_to_active after_batch).0
history = step (step start (execute stored lib 0 input batch)) (recover after_batch)

Run-HasTerms_example : HasTerms 1 (row_of 1) (reset_all_settling_to_active after_batch).0
Run-HasTerms_example = Run-HasTerms 1 (row_of 1) history (active, row_1)

run_without : RunWithout 3 stored (reset_all_settling_to_active after_batch).0
run_without =
    step_without (step_without start_without (execute stored lib 0 input batch) not_in_batch)
      (recover after_batch) refl

executed_closed : is_open executed ≡ false
unfolding program
executed_closed = refl

RunWithout-closed_example :
    get 3 (reset_all_settling_to_active after_batch).0.orders ≡ some closed_row
RunWithout-closed_example = RunWithout-closed 3 closed_row run_without refl executed_closed row_3
