-- ===== src/Flow/Net.antt =====
-- The net flow that the loop over a batch keeps, as released less paid.
use solver.Prelude.{
  ℕ, ◌+◌, ◌≡◌, refl, ap, Option, none, some, List, [], ◌∷◌, inl, inr, Bool-cases, ◌==◌, nat_eq,
  arith, eq_of_some,
}
use solver.Prelude.Maps.{Map, get-insert}
use solver.Prelude.Entries.{UniqueKeys, insert-UniqueKeys}
use solver.Prelude.Signed.{ℤ, pos, diff, ◌+ℤ◌, ◌-ℤ◌, add-diff, sub-diff}
use solver.Order.{TokenId}
use solver.Matcher.{FilledNote}
use solver.Db.{AccountId}
use solver.Ingest.{Note, Pswap}
use solver.Flow.{
  OutNote, PswapLib, note_asset_amount, Prepared, flow_at, credit_flow, debit_flow,
  settle_remainder, prepare_pswap, prepare_notes,
}
use solver.Flow.Terms.{
  bind-some, at_token, released_by, remainder_of, outs_of, paid_of, paid_parsed, paid_by, released,
  paid,
}

pub reads_as : {z : ℤ} {c c' d d' : ℕ} → z ≡ diff c d → c ≡ c' → d ≡ d' → z ≡ diff c' d'
reads_as h e f = cc (h, e, f)

-- The balance that the flow of a token stands for.
pub flow_at-credit_flow :
    (t u : TokenId) (n c d : ℕ) (flow : Map TokenId ℤ)
    → flow_at t flow ≡ diff c d
    → flow_at t (credit_flow u n flow) ≡ diff (c + at_token t u n) d
unfolding credit_flow
flow_at-credit_flow t u n c d flow h = elim (Bool-cases (t == u)) [
  | inl e ↦
      let same : t ≡ u = ground arith in
      rw (credit_flow, get-insert u t (flow_at u flow +ℤ pos n) flow, e, ← same, h) (add-diff c d n)
  | inr e ↦
      rw (credit_flow, get-insert u t (flow_at u flow +ℤ pos n) flow, e, h)
        (ap (λ x. diff x d) (omega arith))
]

pub flow_at-debit_flow :
    (t u : TokenId) (n c d : ℕ) (flow : Map TokenId ℤ)
    → flow_at t flow ≡ diff c d
    → flow_at t (debit_flow u n flow) ≡ diff c (d + at_token t u n)
unfolding debit_flow
flow_at-debit_flow t u n c d flow h = elim (Bool-cases (t == u)) [
  | inl e ↦
      let same : t ≡ u = ground arith in
      rw (debit_flow, get-insert u t (flow_at u flow -ℤ n) flow, e, ← same, h) (sub-diff c d n)
  | inr e ↦
      rw (debit_flow, get-insert u t (flow_at u flow -ℤ n) flow, e, h)
        (ap (λ x. diff c x) (omega arith))
]

pub flow_at-settle_remainder :
    (t u : TokenId) (rem : Option OutNote) (c d : ℕ) (p : Prepared)
    → flow_at t p.flow ≡ diff c d
    → flow_at t (settle_remainder u rem p).flow ≡ diff c (d + remainder_of t u rem)
unfolding settle_remainder
flow_at-settle_remainder t u none c d p h = rw h (ap (λ x. diff c x) (omega arith))
flow_at-settle_remainder t u (some note) c d p h =
    flow_at-debit_flow t u (note_asset_amount note) c d p.flow h

pub flow_at-prepare_pswap :
    (lib : PswapLib) (solver_id : AccountId) (filled : FilledNote) (note : Note) (pswap : Pswap)
    (p q : Prepared) (t c d : ℕ)
    → prepare_pswap lib solver_id filled note pswap p ≡ some q
    → flow_at t p.flow ≡ diff c d
    → flow_at t q.flow
      ≡ diff
          (c + at_token t pswap.offered_asset.0 pswap.offered_asset.1)
          (d + paid_of t pswap (outs_of lib solver_id filled note pswap))
unfolding prepare_pswap
flow_at-prepare_pswap lib solver_id filled note pswap p q t c d h f =
    let (fill, made, h1) =
      bind-some (lib.new_asset pswap.requested_asset.0 filled.requested_filled) _ h in
    let (note_args, created, h2) = bind-some (lib.create_args 0 filled.requested_filled) _ h1 in
    let (outs, executed, h3) = bind-some (lib.execute note solver_id fill) _ h2 in
    let credited = flow_at-credit_flow t pswap.offered_asset.0 pswap.offered_asset.1 c d p.flow f in
    let debited =
      flow_at-debit_flow t pswap.requested_asset.0 (note_asset_amount outs.0) _ d _ credited in
    rw (made, executed, ← (eq_of_some h3))
      (reads_as (flow_at-settle_remainder t pswap.offered_asset.0 outs.1 _ _ _ debited) refl
        (omega arith))

pub UniqueKeys-prepare_pswap :
    (lib : PswapLib) (solver_id : AccountId) (filled : FilledNote) (note : Note) (pswap : Pswap)
    (p q : Prepared)
    → prepare_pswap lib solver_id filled note pswap p ≡ some q
    → UniqueKeys p.flow
    → UniqueKeys q.flow
unfolding prepare_pswap credit_flow debit_flow settle_remainder
UniqueKeys-prepare_pswap lib solver_id filled note pswap p q h u =
    let (fill, made, h1) =
      bind-some (lib.new_asset pswap.requested_asset.0 filled.requested_filled) _ h in
    let (note_args, created, h2) = bind-some (lib.create_args 0 filled.requested_filled) _ h1 in
    let (outs, executed, h3) = bind-some (lib.execute note solver_id fill) _ h2 in
    rw (← (eq_of_some h3))
      (settled outs.1 _ (insert-UniqueKeys _ _ _ (insert-UniqueKeys _ _ p.flow u)))
  where
    settled :
        (rem : Option OutNote) (r : Prepared)
        → UniqueKeys r.flow
        → UniqueKeys (settle_remainder pswap.offered_asset.0 rem r).flow
    settled none r v = v
    settled (some rem_note) r v = insert-UniqueKeys _ _ r.flow v

pub terms_of_parsed :
    (lib : PswapLib) (solver_id : AccountId) (t : TokenId) (filled : FilledNote) (note : Note)
    (pswap : Pswap)
    → lib.read_note filled.raw_note_data ≡ some note
    → note.pswap ≡ some pswap
    → (released_by lib t filled ≡ at_token t pswap.offered_asset.0 pswap.offered_asset.1)
      × (paid_by lib solver_id t filled ≡ paid_of t pswap (outs_of lib solver_id filled note pswap))
terms_of_parsed lib solver_id t filled note pswap read parsed = (
  rw (released_by, read, parsed) refl,
  rw (paid_by, read) (ap (paid_parsed lib solver_id t filled note) parsed),
)

pub flow_at-prepare_notes :
    (lib : PswapLib) (solver_id : AccountId) (fs : List FilledNote) (p q : Prepared) (t c d : ℕ)
    → prepare_notes lib solver_id fs p ≡ some q
    → flow_at t p.flow ≡ diff c d
    → flow_at t q.flow ≡ diff (c + released lib t fs) (d + paid lib solver_id t fs)
unfolding prepare_notes
flow_at-prepare_notes lib solver_id [] p q t c d h f =
    rw (← (eq_of_some h)) (reads_as f (omega arith) (omega arith))
flow_at-prepare_notes lib solver_id (filled ∷ fs) p q t c d h f =
    let (note, read, h1) = bind-some (lib.read_note filled.raw_note_data) _ h in
    let (pswap, parsed, h2) = bind-some note.pswap _ h1 in
    let (next, prepared, h3) = bind-some (prepare_pswap lib solver_id filled note pswap p) _ h2 in
    let first = flow_at-prepare_pswap lib solver_id filled note pswap p next t c d prepared f in
    let (gives, pays) = terms_of_parsed lib solver_id t filled note pswap read parsed in
    reads_as (flow_at-prepare_notes lib solver_id fs next q t _ _ h3 first) (omega (arith, gives))
      (omega (arith, pays))

pub UniqueKeys-prepare_notes :
    (lib : PswapLib) (solver_id : AccountId) (fs : List FilledNote) (p q : Prepared)
    → prepare_notes lib solver_id fs p ≡ some q
    → UniqueKeys p.flow
    → UniqueKeys q.flow
unfolding prepare_notes
UniqueKeys-prepare_notes lib solver_id [] p q h u = rw (← (eq_of_some h)) u
UniqueKeys-prepare_notes lib solver_id (filled ∷ fs) p q h u =
    let (note, read, h1) = bind-some (lib.read_note filled.raw_note_data) _ h in
    let (pswap, parsed, h2) = bind-some note.pswap _ h1 in
    let (next, prepared, h3) = bind-some (prepare_pswap lib solver_id filled note pswap p) _ h2 in
    UniqueKeys-prepare_notes lib solver_id fs next q h3
      (UniqueKeys-prepare_pswap lib solver_id filled note pswap p next prepared u)
