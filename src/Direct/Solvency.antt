-- ===== src/Direct/Solvency.antt =====
-- Direct matching keeps the book sound and its batch solvent.
use solver.Prelude.{
  ℕ, zero, suc, ◌+◌, ◌≡◌, ap, sym, ◌∙◌, subst, ◌<◌, some, List, [], ◌∷◌, Option-cases, inl, inr,
  eq_of_some, add, as_u64, nat_eq,
}
use solver.Prelude.Maps.{get}
use solver.Order.{Order, TokenId, OrderId, IsValid}
use solver.Book.{OrderBook, Pair, pair_of, best_order, apply_match}
use solver.Book.Frame.{to_fill, best_order-orders, best_order-balances}
use solver.Book.Evolution.{best_order-Evolves}
use solver.Book.Matching.{IsFound, best_order-IsFound, apply_match-Evolves}
use solver.Book.Sound.{IsSound, Evolves-IsSound}
use solver.Book.Solvency.{IsSolvent, apply_match-Covers}
use solver.Direct.{
  Round, Matched, stop, matched, match_pair, match_round, match_user_orders, match_pairs,
  run_direct_matching, collect_matchable_pairs,
}
use solver.Direct.Progress.{match_round_cases, run_direct_matching_total}

pub record IsGood (b : OrderBook) : Type 0 where
  pub sound : IsSound b
  pub solvent : IsSolvent b

abbrev after : Round → OrderBook
after (stop b) = b
after (matched b i j) = b

match_pair-after :
    (b : OrderBook) (i j : OrderId) → after (match_pair b i j) ≡ (apply_match b i j).0
unfolding match_pair
match_pair-after b i j = elim (Option-cases (apply_match b i j).1) [
  | inl e ↦ rw (e, match_pair)
  | inr (r, e) ↦ rw (e, match_pair)
]

best_order-IsGood : (b : OrderBook) (t u : TokenId) → IsGood b → IsGood (best_order b t u).0
best_order-IsGood b t u g = record {
  sound = Evolves-IsSound (best_order-Evolves b t u) g.sound;
  solvent = λ k. rw (best_order-orders b t u, best_order-balances b t u) (g.solvent k);
}

-- What was found before the book was pruned once more is still stored, under its own id.
found_stored :
    (b b' : OrderBook) (p : Pair) (o : Order)
    → IsSound b
    → b'.orders ≡ b.orders
    → IsFound b p o
    → (get o.id b'.orders ≡ some o) × IsValid o × (pair_of o ≡ p)
found_stored b b' p o s same f =
    let own = s.own_id f.id o f.stored in
    (
      rw same (subst (λ i. get i b.orders ≡ some o) (sym own) f.stored),
      s.valid f.id o f.stored,
      s.at_pair p f.id o f.at_pair f.stored,
    )

match_pair-IsGood :
    (b : OrderBook) (t u : TokenId) (a c : Order)
    → IsGood b
    → (best_order b t u).1 ≡ some a
    → (best_order (best_order b t u).0 u t).1 ≡ some c
    → IsGood (after (match_pair (best_order (best_order b t u).0 u t).0 a.id c.id))
match_pair-IsGood b t u a c g found_a found_c =
    let b1 = (best_order b t u).0 in
    let b2 = (best_order b1 u t).0 in
    let g1 = best_order-IsGood b t u g in
    let g2 = best_order-IsGood b1 u t g1 in
    let (sa, va, pa) =
      found_stored b b2 (t, u) a g.sound (best_order-orders b1 u t ∙ best_order-orders b t u)
        (best_order-IsFound b t u found_a) in
    let (sc, vc, pc) =
      found_stored b1 b2 (u, t) c g1.sound (best_order-orders b1 u t)
        (best_order-IsFound b1 u t found_c) in
    rw (match_pair-after b2 a.id c.id) (record {
      sound = Evolves-IsSound (apply_match-Evolves b2 a.id c.id) g2.sound;
      solvent = λ k.
          apply_match-Covers b2 a.id c.id a c k sa sc va vc
            (ap (λ p. p.0) pa ∙ sym (ap (λ p. p.1) pc)) (ap (λ p. p.0) pc ∙ sym (ap (λ p. p.1) pa))
            (g2.solvent k);
    })

match_round-IsGood : (b : OrderBook) (t u : TokenId) → IsGood b → IsGood (after (match_round b t u))
match_round-IsGood b t u g =
    let g1 = best_order-IsGood b t u g in
    match_round_cases (λ r. IsGood (after r)) b t u g1
      (best_order-IsGood (best_order b t u).0 u t g1)
      (λ a c fa fc. match_pair-IsGood b t u a c g fa fc)

match_user_orders-IsGood :
    (fuel : ℕ) (m : Matched) (t u : TokenId) (m' : Matched)
    → IsGood m.0
    → match_user_orders fuel m t u ≡ some m'
    → IsGood m'.0
unfolding match_user_orders
match_user_orders-IsGood zero m t u m' g e = absurd (cc)
match_user_orders-IsGood (suc fuel) (b, filled, cycles) t u m' g e =
    go (match_user_orders-IsGood fuel) (match_round b t u) (match_round-IsGood b t u g) e
  where
    go :
        ((m : Matched) (t u : TokenId) (m' : Matched)
          → IsGood m.0
          → match_user_orders fuel m t u ≡ some m'
          → IsGood m'.0)
        → (r : Round) → IsGood (after r)
        → (elim r [
          | stop b' ↦ some (b', filled, cycles)
          | matched b' i j ↦
              match_user_orders fuel (b', add j (add i filled), as_u64 (cycles + 1)) t u
        ])
          ≡ some m'
        → IsGood m'.0
    go ih (stop b') l h = subst (λ (m : Matched). IsGood m.0) (eq_of_some h) l
    go ih (matched b' i j) l h = ih (b', add j (add i filled), as_u64 (cycles + 1)) t u m' l h

match_pairs-IsGood :
    (fuel : ℕ) (m : Matched) (ps : List Pair) {m' : Matched}
    → IsGood m.0
    → match_pairs fuel m ps ≡ some m'
    → IsGood m'.0
unfolding match_pairs
match_pairs-IsGood fuel m [] g e = subst (λ (m : Matched). IsGood m.0) (eq_of_some e) g
match_pairs-IsGood fuel m (p ∷ ps) g e = elim (Option-cases (match_user_orders fuel m p.0 p.1)) [
  | inl h ↦ absurd (cc (h))
  | inr (m1, h) ↦
      match_pairs-IsGood fuel m1 ps (match_user_orders-IsGood fuel m p.0 p.1 m1 g h)
        (rw (h, match_pairs) at e)
]

-- From a sound book with a solvent batch, direct matching with enough fuel ends, and leaves a sound
-- book with a solvent batch: of each token, the orders release at least what the orders that ask
-- for it were filled with and the protocol's balance, whatever rates, roundings and partial fills
-- occurred and in whatever order the pairs were visited.
pub run_direct_matching-IsSolvent :
    (arrange : List Pair → List Pair) (fuel : ℕ) (m : Matched)
    → to_fill m.0 < fuel
    → IsSound m.0
    → IsSolvent m.0
    → (m' : Matched) × (run_direct_matching arrange fuel m ≡ some m')
      × IsSound m'.0
      × IsSolvent m'.0
unfolding run_direct_matching
run_direct_matching-IsSolvent arrange fuel m enough sound solvent =
    let (m', e, _) = run_direct_matching_total arrange fuel m enough in
    let g =
      match_pairs-IsGood fuel m (arrange (collect_matchable_pairs m.0))
        (record { sound = sound; solvent = solvent }) e in
    (m', e, g.sound, g.solvent)
