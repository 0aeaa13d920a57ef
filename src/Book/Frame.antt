-- ===== src/Book/Frame.antt =====
-- What the operations of the book leave alone in `orders`, and how much they leave to fill.
use solver.Prelude.{
  ℕ, ◌<◌, ◌≡◌, ◌∙◌, false, none, some, ◌==◌, nat_eq, pair_eq, arith, Bool-cases, Option-cases, inl,
  inr,
}
use solver.Prelude.Maps.{get, insert, total, total-insert, get-insert_ne}
use solver.Order.{Order, OrderId, TokenId, Amount, RateKey, MatchResult, match_with}
use solver.Order.Match.{match_with-IsConserved}
use solver.Book.{
  OrderBook, Pair, remove_from_index, unindex, cleanup_if_filled, add_protocol_balance, best_order,
  settle_match, match_found, apply_match,
}

pub ==_swap : (i j : OrderId) → (i == j) ≡ false → (j == i) ≡ false
==_swap i j h = ground arith

-- The sum over all orders of what is left to fill.
abbrev pub to_fill : OrderBook → ℕ
to_fill b = total (λ o. o.requested_remaining) b.orders

pub best_order-orders : (b : OrderBook) (t u : TokenId) → (best_order b t u).0.orders ≡ b.orders
unfolding best_order
best_order-orders b t u = ground arith

pub remove_from_index-orders :
    (b : OrderBook) (p : Pair) (k : RateKey) (id : OrderId)
    → (remove_from_index b p k id).orders ≡ b.orders
unfolding remove_from_index
remove_from_index-orders b p k id = ground arith

pub unindex-orders : (b : OrderBook) (o : Order) (id : OrderId) → (unindex b o id).orders ≡ b.orders
unfolding unindex
unindex-orders b o id = remove_from_index-orders _ _ _ id

pub cleanup_if_filled-orders :
    (b : OrderBook) (id : OrderId) → (cleanup_if_filled b id).orders ≡ b.orders
unfolding cleanup_if_filled
cleanup_if_filled-orders b id = elim (Option-cases (get id b.orders)) [
  | inl e ↦ rw (e, cleanup_if_filled)
  | inr (o, e) ↦ rw (e, cleanup_if_filled) (ground (arith, unindex-orders b o id))
]

pub add_protocol_balance-orders :
    (b : OrderBook) (t : TokenId) (x : Amount) → (add_protocol_balance b t x).orders ≡ b.orders
unfolding add_protocol_balance
add_protocol_balance-orders b t x = ground arith

pub settle_match-orders :
    (b : OrderBook) (i j : OrderId) (a c : Order) (r : MatchResult)
    → (settle_match b i j a c r).orders ≡ insert j c (insert i a b.orders)
unfolding settle_match
settle_match-orders b i j a c r = simp (cleanup_if_filled-orders, add_protocol_balance-orders)

-- A match of two stored orders writes both back, and lowers what is left to fill.
pub match_found-to_fill :
    (b : OrderBook) (i j : OrderId) (a c : Order) {r : MatchResult}
    → (i == j) ≡ false
    → get i b.orders ≡ some a
    → get j b.orders ≡ some c
    → (match_found b i j a c).1 ≡ some r
    → to_fill (match_found b i j a c).0 < to_fill b
unfolding match_found
match_found-to_fill b i j a c ne hi hj e = elim (Option-cases (match_with a c).2) [
  | inl m ↦ absurd (cc)
  | inr (s, m) ↦
      let flow = match_with-IsConserved a c m in
      let stored = get-insert_ne i j (match_with a c).0 b.orders (==_swap i j ne) in
      rw (m, match_found, settle_match-orders)
        (omega (
          arith,
          flow,
          total-insert (λ o. o.requested_remaining) i (match_with a c).0 a b.orders hi,
          total-insert (λ o. o.requested_remaining) j (match_with a c).1 c
              (insert i (match_with a c).0 b.orders) (stored ∙ hj),
        ))
]

-- A match of two orders of the book that succeeds leaves the book less to fill.
pub apply_match-to_fill :
    (b : OrderBook) (i j : OrderId) {r : MatchResult}
    → (apply_match b i j).1 ≡ some r
    → to_fill (apply_match b i j).0 < to_fill b
unfolding apply_match
apply_match-to_fill b i j e = elim (Bool-cases (i == j)) [
  | inl same ↦ absurd (cc (same))
  | inr ne ↦ elim (Option-cases (get i b.orders)) [
    | inl h ↦ absurd (cc (ne, h))
    | inr (a, hi) ↦ elim (Option-cases (get j b.orders)) [
      | inl h ↦ absurd (cc (ne, hi, h))
      | inr (c, hj) ↦
          rw (ne, hi, hj, apply_match)
            (match_found-to_fill b i j a c ne hi hj (rw (ne, hi, hj, apply_match) at e))
    ]
  ]
]

-- A match that fails leaves the book as it was.
pub apply_match-none :
    (b : OrderBook) (i j : OrderId) → (apply_match b i j).1 ≡ none → (apply_match b i j).0 ≡ b
unfolding apply_match match_found
apply_match-none b i j e = ground arith

-- The balances stay under a clean-up.
pub cleanup_if_filled-balances :
    (b : OrderBook) (id : OrderId)
    → (cleanup_if_filled b id).protocol_balances ≡ b.protocol_balances
unfolding cleanup_if_filled unindex remove_from_index
cleanup_if_filled-balances b id = ground arith

pub best_order-balances :
    (b : OrderBook) (t u : TokenId) → (best_order b t u).0.protocol_balances ≡ b.protocol_balances
unfolding best_order
best_order-balances b t u = ground arith
