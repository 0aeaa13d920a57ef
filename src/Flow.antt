-- ===== src/Flow.antt =====
-- crates/solver/src/executor/executor.rs: `prepare_batch_components`, the arguments of a batch's
-- transaction and its solvency check. Reading a note, `FungibleAsset::new`, and the PSWAP library's
-- `create_args` and `execute` are not this repository's; they are the fields of `PswapLib`. The
-- net flow of a token is a signed number: a sum of fewer than 2^63 words does not wrap an `i128`.
pub mod Terms
pub mod Net
pub mod Solvency
pub mod Complete
pub mod Lengths
use solver.Prelude.{
  ℕ, zero, suc, ◌^◌, Bool, Option, none, some, List, [], ◌∷◌, ◌++◌, ◌==◌, nat_eq, if◌then◌else◌,
  ltb, get_or, ◌>>=◌, u64_mod,
}
use solver.Prelude.Maps.{Map, get, insert}
use solver.Prelude.Signed.{ℤ, pos, negsuc, ◌+ℤ◌, ◌-ℤ◌}
use solver.Order.{TokenId, Amount}
use solver.Matcher.{Bytes, FilledNote, ExecutionBatch}
use solver.Wire.{Asset}
use solver.Db.{AccountId}
use solver.Ingest.{Note, Pswap}

abbrev pub Recipient : Type 0
Recipient = ℕ

-- A note that the PSWAP library creates: who receives it, and its fungible amounts.
pub record OutNote : Type 0 where
  pub recipient : Recipient
  pub amounts : List Amount

pub record PswapLib : Type 0 where
  pub read_note : Bytes → Option Note
  pub new_asset : TokenId → Amount → Option Asset
  pub create_args : Amount → Amount → Option Bytes
  pub execute : Note → AccountId → Asset → Option (OutNote × Option OutNote)

unfoldable pub note_asset_amount : OutNote → Amount
note_asset_amount note = elim note.amounts [ [] ↦ 0 | amount ∷ rest ↦ amount ]

-- The variables of the loop.
pub record Prepared : Type 0 where
  pub input_notes : List (Note × Bytes)
  pub expected_output_recipients : List Recipient
  pub input_notes_only : List Note
  pub flow : Map TokenId ℤ

pub record BatchComponents : Type 0 where
  pub input_notes : List (Note × Bytes)
  pub expected_output_recipients : List Recipient
  pub surplus_assets : List Asset

abbrev pub flow_at : TokenId → Map TokenId ℤ → ℤ
flow_at token flow = get_or (get token flow) (pos 0)

-- `*flow.entry(token).or_default() += amount`, and the same with `-=`.
unfoldable pub credit_flow : TokenId → Amount → Map TokenId ℤ → Map TokenId ℤ
credit_flow token amount flow = insert token (flow_at token flow +ℤ pos amount) flow

unfoldable pub debit_flow : TokenId → Amount → Map TokenId ℤ → Map TokenId ℤ
debit_flow token amount flow = insert token (flow_at token flow -ℤ amount) flow

unfoldable pub settle_remainder : TokenId → Option OutNote → Prepared → Prepared
settle_remainder offered_token none p = p
settle_remainder offered_token (some rem_note) p = record p {
  flow = debit_flow offered_token (note_asset_amount rem_note) p.flow;
  expected_output_recipients = p.expected_output_recipients ++ rem_note.recipient ∷ [];
}

-- One turn of the loop from the parsed note on.
unfoldable pub prepare_pswap :
    PswapLib → AccountId → FilledNote → Note → Pswap → Prepared → Option Prepared
prepare_pswap lib solver_id filled note pswap p =
    let offered_token = pswap.offered_asset.0 in
    let requested_token = pswap.requested_asset.0 in
    lib.new_asset requested_token filled.requested_filled >>= λ fill_asset.
    lib.create_args 0 filled.requested_filled >>= λ note_args.
    lib.execute note solver_id fill_asset >>= λ outs. some (
      settle_remainder offered_token outs.1 (record {
        input_notes = p.input_notes ++ (note, note_args) ∷ [];
        expected_output_recipients = p.expected_output_recipients ++ outs.0.recipient ∷ [];
        input_notes_only = p.input_notes_only ++ note ∷ [];
        flow =
            debit_flow requested_token (note_asset_amount outs.0)
              (credit_flow offered_token pswap.offered_asset.1 p.flow);
      }))

unfoldable pub prepare_notes : PswapLib → AccountId → List FilledNote → Prepared → Option Prepared
prepare_notes lib solver_id [] p = some p
prepare_notes lib solver_id (filled ∷ notes) p = lib.read_note filled.raw_note_data >>= λ note.
    note.pswap >>= λ pswap. prepare_pswap lib solver_id filled note pswap p >>= λ next.
    prepare_notes lib solver_id notes next

-- The last loop: no token may be short, and what is left of a token is a surplus.
unfoldable pub surplus_of : PswapLib → Map TokenId ℤ → Option (List Asset)
surplus_of lib [] = some []
surplus_of lib ((token, negsuc n) ∷ flow) = none
surplus_of lib ((token, pos zero) ∷ flow) = surplus_of lib flow
surplus_of lib ((token, pos (suc n)) ∷ flow) =
    let rest = surplus_of lib flow in
    if ltb (suc n) u64_mod
    then (lib.new_asset token (suc n) >>= λ asset. rest >>= λ assets. some (asset ∷ assets))
    else none

unfoldable pub nothing_prepared : Prepared
nothing_prepared = record {
  input_notes = [];
  expected_output_recipients = [];
  input_notes_only = [];
  flow = [];
}

unfoldable pub prepare_batch_components :
    PswapLib → ExecutionBatch → AccountId → Option (BatchComponents × List Note)
prepare_batch_components lib batch solver_id =
    prepare_notes lib solver_id batch.filled_notes nothing_prepared >>= λ p.
    surplus_of lib p.flow >>= λ surplus_assets. some (
      record {
        input_notes = p.input_notes;
        expected_output_recipients = p.expected_output_recipients;
        surplus_assets = surplus_assets;
      },
      p.input_notes_only,
    )
