-- ===== src/Flow/Solvency.antt =====
-- The solvency check of a batch: what its notes release, what they pay out, and what is left.
use solver.Prelude.{
  ℕ, zero, suc, ◌+◌, ◌≡◌, refl, sym, ap, ◌∙◌, subst, true, false, Option, none, some, List, [], ◌∷◌,
  inl, inr, Bool-cases, ltb, ◌==◌, nat_eq, arith, eq_of_some, u64_mod,
}
use solver.Prelude.Maps.{Map, get}
use solver.Prelude.Entries.{UniqueKeys}
use solver.Prelude.Signed.{ℤ, pos, negsuc, diff}
use solver.Order.{TokenId, Amount}
use solver.Matcher.{ExecutionBatch}
use solver.Wire.{Asset}
use solver.Db.{AccountId}
use solver.Ingest.{Note}
use solver.Flow.{
  PswapLib, BatchComponents, flow_at, prepare_notes, surplus_of, nothing_prepared,
  prepare_batch_components,
}
use solver.Flow.Terms.{bind-some, released, paid, asset_total}
use solver.Flow.Net.{reads_as, flow_at-prepare_notes, UniqueKeys-prepare_notes}

pub flow_at-here :
    (t u : TokenId) (z : ℤ) (flow : Map TokenId ℤ) → (t == u) ≡ true → flow_at t ((u, z) ∷ flow) ≡ z
unfolding get
flow_at-here t u z flow h = rw h refl

pub flow_at-there :
    (t u : TokenId) (z : ℤ) (flow : Map TokenId ℤ)
    → (t == u) ≡ false
    → flow_at t ((u, z) ∷ flow) ≡ flow_at t flow
unfolding get
flow_at-there t u z flow h = rw (h) refl

pub flow_at-absent :
    (t : TokenId) (flow : Map TokenId ℤ) → get t flow ≡ none → flow_at t flow ≡ pos 0
flow_at-absent t flow h = rw h refl

-- What `FungibleAsset::new` makes of a faucet and an amount, if it makes an asset.
abbrev pub IsAssetMaker : (TokenId → Amount → Option Asset) → Type 0
IsAssetMaker new_asset =
    (t : TokenId) (n : Amount) (a : Asset) → new_asset t n ≡ some a → a ≡ (t, n)

pub pos_inj : {a b : ℕ} → pos a ≡ pos b → a ≡ b
pos_inj h = cc (h)

surplus_of-total_head :
    (t token : TokenId) (n : ℕ) (flow : Map TokenId ℤ) (asset : Asset) (assets : List Asset)
    → asset ≡ (token, suc n)
    → get token flow ≡ none
    → flow_at t flow ≡ pos (asset_total t assets)
    → flow_at t ((token, pos (suc n)) ∷ flow) ≡ pos (asset_total t (asset ∷ assets))
surplus_of-total_head t token n flow asset assets made missing rest =
    elim (Bool-cases (t == token)) [
      | inr e ↦
          rw (made, e)
            (flow_at-there t token (pos (suc n)) flow e
              ∙ rest
              ∙ ap pos {x = asset_total t assets} (omega arith))
      | inl e ↦
          let same : t ≡ token = ground arith in
          let nothing : asset_total t assets ≡ 0 =
            pos_inj (sym rest ∙ flow_at-absent t flow (rw same missing)) in
          rw (made, e, nothing)
            (flow_at-here t token (pos (suc n)) flow e ∙ ap pos {x = suc n} (omega arith))
    ]

surplus_of-total :
    (lib : PswapLib)
    → IsAssetMaker lib.new_asset
    → (flow : Map TokenId ℤ) {surplus : List Asset} (t : TokenId) → UniqueKeys flow
    → surplus_of lib flow ≡ some surplus
    → flow_at t flow ≡ pos (asset_total t surplus)
unfolding surplus_of get
surplus_of-total lib maker [] t u h = rw (← (eq_of_some h)) refl
surplus_of-total lib maker ((token, negsuc n) ∷ flow) t u h = absurd (cc (h))
surplus_of-total lib maker ((token, pos zero) ∷ flow) t u h = elim (Bool-cases (t == token)) [
  | inr e ↦ flow_at-there t token (pos 0) flow e ∙ surplus_of-total lib maker flow t u.1 h
  | inl e ↦
      let same : t ≡ token = ground arith in
      let rest = surplus_of-total lib maker flow t u.1 h in
      let empty = flow_at-absent t flow (rw same u.0) in
      flow_at-here t token (pos 0) flow e ∙ sym empty ∙ rest
]
surplus_of-total lib maker ((token, pos (suc n)) ∷ flow) t u h =
    elim (Bool-cases (ltb (suc n) u64_mod)) [
      | inr big ↦ absurd (cc (rw (surplus_of, big) at h))
      | inl small ↦
          let (asset, made, h1) =
            bind-some (lib.new_asset token (suc n)) _ (rw (surplus_of, small) at h) in
          let (assets, others, h2) = bind-some (surplus_of lib flow) _ h1 in
          subst (λ s. flow_at t ((token, pos (suc n)) ∷ flow) ≡ pos (asset_total t s))
            (eq_of_some h2)
            (surplus_of-total_head t token n flow asset assets (maker token (suc n) asset made) u.0
              (surplus_of-total lib maker flow t u.1 others))
    ]

balance : (c d s : ℕ) → diff c d ≡ pos s → s + d ≡ c
unfolding diff
balance c d s h = ground arith

pub nothing_prepared-flow : (t : TokenId) → flow_at t nothing_prepared.flow ≡ diff 0 0
unfolding nothing_prepared diff get
nothing_prepared-flow t = refl

pub nothing_prepared-UniqueKeys : UniqueKeys nothing_prepared.flow
unfolding nothing_prepared
nothing_prepared-UniqueKeys = tt

-- Where a batch is prepared, its notes release of every token exactly what settling them pays out
-- and what is declared as surplus: the batch creates no value and loses none. In particular no
-- token is paid out beyond what is released. This needs that an asset that `FungibleAsset::new`
-- makes has the faucet and the amount that it was made of.
pub prepare_batch_components-balances :
    (lib : PswapLib) (batch : ExecutionBatch) (solver_id : AccountId) (components : BatchComponents)
    (notes : List Note)
    → IsAssetMaker lib.new_asset
    → prepare_batch_components lib batch solver_id ≡ some (components, notes)
    → (t : TokenId)
    → asset_total t components.surplus_assets + paid lib solver_id t batch.filled_notes
      ≡ released lib t batch.filled_notes
unfolding prepare_batch_components
prepare_batch_components-balances lib batch solver_id components notes maker h t =
    let (p, prepared, h1) =
      bind-some (prepare_notes lib solver_id batch.filled_notes nothing_prepared) _ h in
    let (surplus, left, h2) = bind-some (surplus_of lib p.flow) _ h1 in
    let flow =
      flow_at-prepare_notes lib solver_id batch.filled_notes nothing_prepared p t 0 0 prepared
        (nothing_prepared-flow t) in
    let unique =
      UniqueKeys-prepare_notes lib solver_id batch.filled_notes nothing_prepared p prepared
        nothing_prepared-UniqueKeys in
    let rest = surplus_of-total lib maker p.flow t unique left in
    let same : surplus ≡ components.surplus_assets =
      ap (λ (x : BatchComponents × List Note). x.0.surplus_assets) (eq_of_some h2) in
    subst
      (λ s.
        asset_total t s + paid lib solver_id t batch.filled_notes
        ≡ released lib t batch.filled_notes)
      same
      (balance (released lib t batch.filled_notes) (paid lib solver_id t batch.filled_notes)
        (asset_total t surplus) (sym (reads_as flow (omega arith) (omega arith)) ∙ rest))
