-- ===== src/Book/Matching.antt =====
-- What matching finds in the book, and what a match does to it.
use solver.Prelude.{
  ◌≡◌, ◌∙◌, true, false, some, inl, inr, In, Bool-cases, Option-cases, ◌==◌, nat_eq, pair_eq,
}
use solver.Prelude.Maps.{get, insert, get-insert_ne}
use solver.Order.{Order, OrderId, TokenId, MatchResult, is_active, match_with}
use solver.Order.Match.{SameTerms, match_with-SameTerms}
use solver.Levels.{prune, best}
use solver.Levels.Ids.{prune-Subset, best-prune, best-In}
use solver.Book.{
  OrderBook, Pair, best_order, settle_match, match_found, apply_match, is_live,
  add_protocol_balance,
}
use solver.Book.Frame.{==_swap}
use solver.Book.Evolution.{
  Evolves, Evolves-refl, Evolves-trans, OrdersFrom-insert, OrdersFrom-trans, indexed,
  cleanup_if_filled-Evolves, add_protocol_balance-Evolves,
}

-- What `best_order` returns is stored, active, and indexed at the pair that was asked for.
pub record IsFound (b : OrderBook) (p : Pair) (o : Order) : Type 0 where
  pub id : OrderId
  pub stored : get id b.orders ≡ some o
  pub active : is_active o ≡ true
  pub at_pair : In id (indexed b.pair_index p)

live-active :
    (b : OrderBook) (id : OrderId) (o : Order)
    → get id b.orders ≡ some o
    → is_live b id ≡ true
    → is_active o ≡ true
unfolding is_live
live-active b id o h l = rw (h, is_live) at l

-- The best order of a pair, where there is one, is stored in the book under an id that the index
-- holds at that pair, and it is active.
pub best_order-IsFound :
    (b : OrderBook) (t u : TokenId) {o : Order} → (best_order b t u).1 ≡ some o → IsFound b (t, u) o
unfolding best_order
best_order-IsFound b t u {o} e = elim (Option-cases (get (t, u) b.pair_index)) [
  | inl h ↦ absurd (cc (h))
  | inr (ls, h) ↦ elim (Option-cases (best (prune (is_live b) ls))) [
    | inl k ↦ absurd (cc (h, k))
    | inr (id, k) ↦
        let stored : get id b.orders ≡ some o = rw (h, k, best_order) at e in
        record {
          id = id;
          stored = stored;
          active = live-active b id o stored (best-prune (is_live b) ls k);
          at_pair = rw h (prune-Subset (is_live b) ls id (best-In (prune (is_live b) ls) k));
        }
  ]
]

settle_match-Evolves :
    (b : OrderBook) (i j : OrderId) (a c a' c' : Order) (r : MatchResult)
    → (i == j) ≡ false
    → get i b.orders ≡ some a
    → get j b.orders ≡ some c
    → SameTerms a a'
    → SameTerms c c'
    → Evolves b (settle_match b i j a' c' r)
unfolding settle_match
settle_match-Evolves b i j a c a' c' r ne hi hj sa sc =
    let stored : OrderBook = record b { orders = insert j c' (insert i a' b.orders) } in
    let once = add_protocol_balance stored a'.offered_token r.surplus_offered in
    let twice = add_protocol_balance once c'.offered_token r.surplus_requested in
    let written : Evolves b stored = record {
      orders_from =
          OrdersFrom-trans b.orders (insert i a' b.orders) (insert j c' (insert i a' b.orders))
            (OrdersFrom-insert b.orders i a a' hi sa)
            (OrdersFrom-insert (insert i a' b.orders) j c c'
              (get-insert_ne i j a' b.orders (==_swap i j ne) ∙ hj) sc);
      index_from = λ p i m. m;
    } in
    Evolves-trans written (
      Evolves-trans (add_protocol_balance-Evolves stored _ _) (
        Evolves-trans (add_protocol_balance-Evolves once _ _)
          (Evolves-trans (cleanup_if_filled-Evolves twice i) (cleanup_if_filled-Evolves _ j))))

pub apply_match-Evolves : (b : OrderBook) (i j : OrderId) → Evolves b (apply_match b i j).0
unfolding apply_match match_found
apply_match-Evolves b i j = elim (Bool-cases (i == j)) [
  | inl e ↦ rw (e, apply_match) (Evolves-refl b)
  | inr ne ↦ elim (Option-cases (get i b.orders)) [
    | inl h ↦ rw (ne, h, apply_match) (Evolves-refl b)
    | inr (a, hi) ↦ elim (Option-cases (get j b.orders)) [
      | inl h ↦ rw (ne, hi, h, apply_match) (Evolves-refl b)
      | inr (c, hj) ↦ elim (Option-cases (match_with a c).2) [
        | inl m ↦ rw (ne, hi, hj, m, apply_match, match_found) (Evolves-refl b)
        | inr (r, m) ↦
            rw (ne, hi, hj, m, apply_match, match_found)
              (settle_match-Evolves b i j a c _ _ r ne hi hj (match_with-SameTerms a c).0
                (match_with-SameTerms a c).1)
      ]
    ]
  ]
]
