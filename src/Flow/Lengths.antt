-- ===== src/Flow/Lengths.antt =====
-- A prepared batch has a parsed note for each filled one.
use solver.Prelude.{
  suc, ◌+◌, ◌≡◌, refl, sym, ap, ◌∙◌, Option, none, some, List, [], ◌∷◌, ◌++◌, arith, length,
  length-append, eq_of_some,
}
use solver.Matcher.{FilledNote, ExecutionBatch}
use solver.Db.{AccountId}
use solver.Ingest.{Note, Pswap}
use solver.Order.{TokenId}
use solver.Flow.{
  OutNote, PswapLib, Prepared, BatchComponents, settle_remainder, prepare_pswap, prepare_notes,
  surplus_of, nothing_prepared, prepare_batch_components,
}
use solver.Flow.Terms.{bind-some}

kept_notes :
    (u : TokenId) (rem : Option OutNote) (p : Prepared)
    → (settle_remainder u rem p).input_notes_only ≡ p.input_notes_only
unfolding settle_remainder
kept_notes u none p = refl
kept_notes u (some rem_note) p = refl

length-prepare_pswap :
    (lib : PswapLib) (solver_id : AccountId) (filled : FilledNote) (note : Note) (pswap : Pswap)
    (p q : Prepared)
    → prepare_pswap lib solver_id filled note pswap p ≡ some q
    → length q.input_notes_only ≡ suc (length p.input_notes_only)
unfolding prepare_pswap
length-prepare_pswap lib solver_id filled note pswap p q h =
    let (fill, made, h1) =
      bind-some (lib.new_asset pswap.requested_asset.0 filled.requested_filled) _ h in
    let (note_args, created, h2) = bind-some (lib.create_args 0 filled.requested_filled) _ h1 in
    let (outs, executed, h3) = bind-some (lib.execute note solver_id fill) _ h2 in
    let all : q.input_notes_only ≡ p.input_notes_only ++ note ∷ [] =
      sym (ap (λ (x : Prepared). x.input_notes_only) (eq_of_some h3))
      ∙ kept_notes pswap.offered_asset.0 outs.1 _ in
    rw all (length-append p.input_notes_only (note ∷ []) ∙ omega arith)

length-prepare_notes :
    (lib : PswapLib) (solver_id : AccountId) (fs : List FilledNote) (p q : Prepared)
    → prepare_notes lib solver_id fs p ≡ some q
    → length q.input_notes_only ≡ length p.input_notes_only + length fs
unfolding prepare_notes
length-prepare_notes lib solver_id [] p q h =
    ap (λ (x : Prepared). length x.input_notes_only) (sym (eq_of_some h)) ∙ omega arith
length-prepare_notes lib solver_id (filled ∷ fs) p q h =
    let (note, read, h1) = bind-some (lib.read_note filled.raw_note_data) _ h in
    let (pswap, parsed, h2) = bind-some note.pswap _ h1 in
    let (next, prepared, h3) = bind-some (prepare_pswap lib solver_id filled note pswap p) _ h2 in
    let first = length-prepare_pswap lib solver_id filled note pswap p next prepared in
    length-prepare_notes lib solver_id fs next q h3 ∙ omega (arith, first)

pub length-prepare_batch_components :
    (lib : PswapLib) (batch : ExecutionBatch) (solver_id : AccountId) (components : BatchComponents)
    (notes : List Note)
    → prepare_batch_components lib batch solver_id ≡ some (components, notes)
    → length notes ≡ length batch.filled_notes
unfolding prepare_batch_components nothing_prepared
length-prepare_batch_components lib batch solver_id components notes h =
    let (p, prepared, h1) =
      bind-some (prepare_notes lib solver_id batch.filled_notes nothing_prepared) _ h in
    let (surplus, left, h2) = bind-some (surplus_of lib p.flow) _ h1 in
    sym (ap (λ (x : BatchComponents × List Note). length x.1) (eq_of_some h2))
    ∙ length-prepare_notes lib solver_id batch.filled_notes nothing_prepared p prepared
    ∙ omega arith
