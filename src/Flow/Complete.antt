-- ===== src/Flow/Complete.antt =====
-- The solvency check refuses no solvent batch.
use solver.Prelude.{
  ℕ, zero, suc, ◌-◌, ◌<◌, ◌≤◌, ◌≡◌, refl, sym, ◌∙◌, true, Option, none, some, List, [], ◌∷◌, inl,
  inr, Bool-cases, Option-cases, ltb, ◌==◌, nat_eq, arith, is_some, ◌>>=◌, u64_mod,
}
use solver.Prelude.Maps.{Map, get}
use solver.Prelude.Entries.{UniqueKeys}
use solver.Prelude.Signed.{ℤ, pos, negsuc, diff}
use solver.Order.{TokenId, Amount}
use solver.Matcher.{ExecutionBatch}
use solver.Wire.{Asset}
use solver.Db.{AccountId}
use solver.Flow.{
  PswapLib, Prepared, flow_at, prepare_notes, surplus_of, nothing_prepared,
  prepare_batch_components,
}
use solver.Flow.Terms.{released, paid}
use solver.Flow.Solvency.{
  flow_at-here, flow_at-there, flow_at-absent, nothing_prepared-flow, nothing_prepared-UniqueKeys,
  pos_inj,
}
use solver.Flow.Net.{flow_at-prepare_notes, UniqueKeys-prepare_notes, reads_as}

-- Every net flow is a surplus below the limit.
abbrev InBounds : Amount → Map TokenId ℤ → Type 0
InBounds limit flow = (t : TokenId) → (n : Amount) × (flow_at t flow ≡ pos n) × (n < limit)

tail-InBounds :
    (limit : Amount) (token : TokenId) (z : ℤ) (flow : Map TokenId ℤ)
    → 0 < limit
    → get token flow ≡ none
    → InBounds limit ((token, z) ∷ flow)
    → InBounds limit flow
tail-InBounds limit token z flow positive missing bounds t = elim (Bool-cases (t == token)) [
  | inl e ↦
      let same : t ≡ token = ground arith in (0, flow_at-absent t flow (rw same missing), positive)
  | inr e ↦ let (n, at, small) = bounds t in (n, sym (flow_at-there t token z flow e) ∙ at, small)
]

-- `FungibleAsset::new` takes every amount below the limit.
abbrev pub TakesBelow : Amount → (TokenId → Amount → Option Asset) → Type 0
TakesBelow limit new_asset = (t : TokenId) (n : Amount) → n < limit → is_some (new_asset t n) ≡ true

surplus_of-passes :
    (lib : PswapLib) (limit : Amount)
    → 0 < limit
    → limit ≤ u64_mod
    → TakesBelow limit lib.new_asset
    → (flow : Map TokenId ℤ) → UniqueKeys flow
    → InBounds limit flow
    → is_some (surplus_of lib flow) ≡ true
unfolding surplus_of
surplus_of-passes lib limit positive words takes [] u bounds = refl
surplus_of-passes lib limit positive words takes ((token, negsuc n) ∷ flow) u bounds =
    let (m, at, small) = bounds token in
    absurd
      (cc (at, flow_at-here token token (negsuc n) flow ((nat_eq.same_iff token token).1 refl)))
surplus_of-passes lib limit positive words takes ((token, pos zero) ∷ flow) u bounds =
    surplus_of-passes lib limit positive words takes flow u.1
      (tail-InBounds limit token (pos 0) flow positive u.0 bounds)
surplus_of-passes lib limit positive words takes ((token, pos (suc n)) ∷ flow) u bounds =
    let (m, at, small) = bounds token in
    let found : m ≡ suc n = pos_inj (
      sym at
      ∙ flow_at-here token token (pos (suc n)) flow ((nat_eq.same_iff token token).1 refl)) in
    let below : suc n < limit = omega (arith, found, small) in
    let rest =
      surplus_of-passes lib limit positive words takes flow u.1
        (tail-InBounds limit token (pos (suc n)) flow positive u.0 bounds) in
    let word : ltb (suc n) u64_mod ≡ true = ground (arith, below, words) in
    rw (surplus_of, word)
      (both (lib.new_asset token (suc n)) (surplus_of lib flow) (takes token (suc n) below) rest)
  where
    both :
        (a : Option Asset) (b : Option (List Asset))
        → is_some a ≡ true
        → is_some b ≡ true
        → is_some (a >>= λ asset. b >>= λ assets. some (asset ∷ assets)) ≡ true
    both none b h k = absurd (cc (h))
    both (some a) none h k = absurd (cc (k))
    both (some a) (some b) h k = refl

diff_pos : (c d : ℕ) → d ≤ c → diff c d ≡ pos (c - d)
unfolding diff
diff_pos c d h = ground arith

-- A batch all of whose notes can be read, filled and settled is prepared, where of every token it
-- pays out no more than its notes release, and these release less of it than a limit that a word
-- holds and up to which assets can be made.
pub prepare_batch_components-passes :
    (lib : PswapLib) (batch : ExecutionBatch) (solver_id : AccountId) (p : Prepared)
    (limit : Amount)
    → 0 < limit
    → limit ≤ u64_mod
    → TakesBelow limit lib.new_asset
    → prepare_notes lib solver_id batch.filled_notes nothing_prepared ≡ some p
    → ((t : TokenId) → paid lib solver_id t batch.filled_notes ≤ released lib t batch.filled_notes)
    → ((t : TokenId) → released lib t batch.filled_notes < limit)
    → is_some (prepare_batch_components lib batch solver_id) ≡ true
unfolding prepare_batch_components
prepare_batch_components-passes lib batch solver_id p limit positive words takes prepared solvent
      held =
    let unique =
      UniqueKeys-prepare_notes lib solver_id batch.filled_notes nothing_prepared p prepared
        nothing_prepared-UniqueKeys in
    let passes = surplus_of-passes lib limit positive words takes p.flow unique bounds in
    elim (Option-cases (surplus_of lib p.flow)) [
      | inl e ↦ absurd (cc (rw e at passes))
      | inr (surplus, e) ↦ rw (prepare_batch_components, prepared, e) refl
    ]
  where
    bounds : InBounds limit p.flow
    bounds t =
        let flow =
          flow_at-prepare_notes lib solver_id batch.filled_notes nothing_prepared p t 0 0 prepared
            (nothing_prepared-flow t) in
        (
          released lib t batch.filled_notes - paid lib solver_id t batch.filled_notes,
          reads_as flow (omega arith) (omega arith)
              ∙ diff_pos (released lib t batch.filled_notes)
                  (paid lib solver_id t batch.filled_notes) (solvent t),
          omega (arith, held t),
        )
