-- ===== src/Direct/Progress.antt =====
-- The loops of direct matching end: every match lowers what is left to fill, so one round more than
-- that is fuel enough.
use solver.Prelude.{
  ℕ, zero, suc, ◌<◌, ◌≤◌, ◌≡◌, refl, ◌∙◌, Option, some, List, [], ◌∷◌, arith, Bool-cases,
  Option-cases, inl, inr, is_some, not, ◌||◌, add, as_u64, ◌+◌, nat_eq,
}
use solver.Order.{Order, TokenId, OrderId}
use solver.Book.{OrderBook, Pair, best_order, apply_match}
use solver.Book.Frame.{to_fill, best_order-orders, apply_match-to_fill, apply_match-none}
use solver.Direct.{
  Round, Matched, stop, matched, match_pair, match_round, match_user_orders, match_pairs,
  run_direct_matching, collect_matchable_pairs,
}

-- A round leaves no more to fill than `n`, and less if it matched two orders.
abbrev pub Falls : ℕ → Round → Type 0
Falls n (stop b) = to_fill b ≤ n
Falls n (matched b i j) = to_fill b < n

match_pair-Falls : (b : OrderBook) (i j : OrderId) → Falls (to_fill b) (match_pair b i j)
unfolding match_pair
match_pair-Falls b i j = elim (Option-cases (apply_match b i j).1) [
  | inl e ↦ rw (e, match_pair) (rw (apply_match-none b i j e) (omega arith))
  | inr (r, e) ↦ rw (e, match_pair) (apply_match-to_fill b i j e)
]

best_order-to_fill : (b : OrderBook) (t u : TokenId) → to_fill (best_order b t u).0 ≡ to_fill b
best_order-to_fill b t u = rw (best_order-orders b t u)

-- A round breaks after one look at the book or after two, or goes on to match what it found.
pub match_round_cases {ℓ} :
    (P : Round → Type ℓ) (b : OrderBook) (t u : TokenId)
    → P (stop (best_order b t u).0)
    → P (stop (best_order (best_order b t u).0 u t).0)
    → ((a c : Order)
        → (best_order b t u).1 ≡ some a
        → (best_order (best_order b t u).0 u t).1 ≡ some c
        → P (match_pair (best_order (best_order b t u).0 u t).0 a.id c.id))
    → P (match_round b t u)
unfolding match_round
match_round_cases P b t u first second both = elim (Option-cases (best_order b t u).1) [
  | inl e ↦ rw (e, match_round) first
  | inr (a, e) ↦ elim (Option-cases (best_order (best_order b t u).0 u t).1) [
    | inl h ↦ rw (e, h, match_round) second
    | inr (c, h) ↦
        let b2 = (best_order (best_order b t u).0 u t).0 in
        elim (Bool-cases (not (is_some (b2.feed t)) || not (is_some (b2.feed u)))) [
          | inl unpriced ↦ rw (e, h, unpriced, match_round) second
          | inr priced ↦ rw (e, h, priced, match_round) (both a c e h)
        ]
  ]
]

match_round-Falls : (b : OrderBook) (t u : TokenId) → Falls (to_fill b) (match_round b t u)
match_round-Falls b t u =
    let once = best_order-to_fill b t u in
    let twice = best_order-to_fill (best_order b t u).0 u t in
    match_round_cases (Falls (to_fill b)) b t u (omega (arith, once)) (omega (arith, once, twice))
      (λ a c _ _.
        rw (twice ∙ once) at (match_pair-Falls (best_order (best_order b t u).0 u t).0 a.id c.id))

-- What a run that ends returns.
abbrev pub Ends : ℕ → Option Matched → Type 0
Ends n r = (m : Matched) × (r ≡ some m) × (to_fill m.0 ≤ n)

Ends-mono : {n k : ℕ} (r : Option Matched) → n ≤ k → Ends n r → Ends k r
Ends-mono r h (m, e, l) = (m, e, omega arith)

match_user_orders-Ends :
    (fuel : ℕ) (m : Matched) (t u : TokenId)
    → to_fill m.0 < fuel
    → Ends (to_fill m.0) (match_user_orders fuel m t u)
unfolding match_user_orders
match_user_orders-Ends zero m t u h = absurd (omega arith)
match_user_orders-Ends (suc fuel) (b, filled, cycles) t u h =
    go (match_user_orders-Ends fuel) (match_round b t u) (match_round-Falls b t u)
  where
    go :
        ((m : Matched) (t u : TokenId)
          → to_fill m.0 < fuel
          → Ends (to_fill m.0) (match_user_orders fuel m t u))
        → (r : Round) → Falls (to_fill b) r
        → Ends (to_fill b) (elim r [
          | stop b' ↦ some (b', filled, cycles)
          | matched b' i j ↦
              match_user_orders fuel (b', add j (add i filled), as_u64 (cycles + 1)) t u
        ])
    go ih (stop b') l = ((b', filled, cycles), refl, l)
    go ih (matched b' i j) l =
        Ends-mono _ (omega arith)
          (ih (b', add j (add i filled), as_u64 (cycles + 1)) t u (omega arith))

match_pairs-Ends :
    (fuel : ℕ) (m : Matched) (ps : List Pair)
    → to_fill m.0 < fuel
    → Ends (to_fill m.0) (match_pairs fuel m ps)
unfolding match_pairs
match_pairs-Ends fuel m [] h = (m, refl, omega arith)
match_pairs-Ends fuel m (p ∷ ps) h =
    let (m', e, l) = match_user_orders-Ends fuel m p.0 p.1 h in
    rw (e, match_pairs) (Ends-mono _ l (match_pairs-Ends fuel m' ps (omega arith)))

-- Direct matching ends: with more fuel than there is left to fill it returns a result, in whatever
-- order the pairs are visited, and leaves no more to fill than before.
pub run_direct_matching_total :
    (arrange : List Pair → List Pair) (fuel : ℕ) (m : Matched)
    → to_fill m.0 < fuel
    → (m' : Matched) × (run_direct_matching arrange fuel m ≡ some m') × (to_fill m'.0 ≤ to_fill m.0)
unfolding run_direct_matching
run_direct_matching_total arrange fuel m h =
    match_pairs-Ends fuel m (arrange (collect_matchable_pairs m.0)) h
