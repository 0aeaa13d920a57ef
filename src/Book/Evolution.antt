-- ===== src/Book/Evolution.antt =====
-- How the book changes while matching runs: orders are only filled, and the index only loses ids.
use solver.Prelude.{
  ◌≡◌, refl, Option, none, some, List, [], inl, inr, null, Bool-cases, Option-cases, arith, ◌==◌,
  nat_eq, pair_eq,
}
use solver.Prelude.Maps.{Map, get, insert, remove, get-insert, get-remove}
use solver.Order.{Order, OrderId, TokenId, Amount, RateKey, is_completely_filled, rate_key}
use solver.Order.Match.{SameTerms}
use solver.Levels.{Levels, ids_of, remove_id, prune}
use solver.Levels.Ids.{Subset, remove_id-Subset, prune-Subset}
use solver.Book.{
  OrderBook, Pair, pair_of, remove_from_index, unindex, cleanup_if_filled, add_protocol_balance,
  best_order, uncount, is_live,
}

abbrev pub ids_at : Option Levels → List OrderId
ids_at none = []
ids_at (some ls) = ids_of ls

-- The ids at a pair of an index.
abbrev pub indexed : Map Pair Levels → Pair → List OrderId
indexed index p = ids_at (get p index)

-- Each order of the later book is one of the earlier, filled further at most.
abbrev pub OrdersFrom : Map OrderId Order → Map OrderId Order → Type 0
OrdersFrom os os' =
    (id : OrderId) (o' : Order)
    → get id os' ≡ some o'
    → (o : Order) × (get id os ≡ some o) × SameTerms o o'

pub record Evolves (b b' : OrderBook) : Type 0 where
  pub orders_from : OrdersFrom b.orders b'.orders
  pub index_from : (p : Pair) → Subset (indexed b'.pair_index p) (indexed b.pair_index p)

SameTerms-refl : (o : Order) → SameTerms o o
SameTerms-refl o = ground arith

pub SameTerms-trans : (o p q : Order) → SameTerms o p → SameTerms p q → SameTerms o q
SameTerms-trans o p q s t = ground arith

pub OrdersFrom-refl : (os os' : Map OrderId Order) → os' ≡ os → OrdersFrom os os'
OrdersFrom-refl os os' same id o h = (o, rw (← same) h, SameTerms-refl o)

pub OrdersFrom-trans :
    (xs ys zs : Map OrderId Order) → OrdersFrom xs ys → OrdersFrom ys zs → OrdersFrom xs zs
OrdersFrom-trans xs ys zs f g id o h =
    let (p, hp, sp) = g id o h in
    let (q, hq, sq) = f id p hp in (q, hq, SameTerms-trans q p o sq sp)

-- A write of an order that is stored, filled further.
pub OrdersFrom-insert :
    (os : Map OrderId Order) (i : OrderId) (a a' : Order)
    → get i os ≡ some a
    → SameTerms a a'
    → OrdersFrom os (insert i a' os)
OrdersFrom-insert os i a a' h s id o e = elim (Bool-cases (id == i)) [
  | inl same ↦
      let at : id ≡ i = ground arith in
      let written : o ≡ a' = cc (get-insert i id a' os, same, e) in (a, rw at h, rw written s)
  | inr other ↦ (o, rw (get-insert i id a' os, other) at e, SameTerms-refl o)
]

pub Evolves-refl : (b : OrderBook) → Evolves b b
Evolves-refl b = record {
  orders_from = OrdersFrom-refl b.orders b.orders refl;
  index_from = λ p i m. m;
}

pub Evolves-trans : {b c d : OrderBook} → Evolves b c → Evolves c d → Evolves b d
Evolves-trans {b} {c} {d} f g = record {
  orders_from = OrdersFrom-trans b.orders c.orders d.orders f.orders_from g.orders_from;
  index_from = λ p i m. f.index_from p i (g.index_from p i m);
}

-- Where `p` is written anew with fewer ids, the index loses ids at most.
indexed-insert :
    (index : Map Pair Levels) (p q : Pair) (ls left : Levels)
    → get p index ≡ some ls
    → Subset (ids_of left) (ids_of ls)
    → Subset (indexed (insert p left index) q) (indexed index q)
indexed-insert index p q ls left h f = elim (Bool-cases (q == p)) [
  | inl same ↦ rw (get-insert p q left index, same, (pair_eq.same_iff q p).0 same, h) f
  | inr other ↦ rw (get-insert p q left index, other) (λ i m. m)
]

indexed-remove :
    (index : Map Pair Levels) (p q : Pair) → Subset (indexed (remove p index) q) (indexed index q)
indexed-remove index p q = elim (Bool-cases (q == p)) [
  | inl same ↦ rw (get-remove p q index, same) (λ i m. elim m [ ])
  | inr other ↦ rw (get-remove p q index, other) (λ i m. m)
]

remove_from_index-Evolves :
    (b : OrderBook) (p : Pair) (k : RateKey) (id : OrderId) → Evolves b (remove_from_index b p k id)
unfolding remove_from_index
remove_from_index-Evolves b p k id = elim (Option-cases (get p b.pair_index)) [
  | inl e ↦ rw (e, remove_from_index) (Evolves-refl b)
  | inr (ls, e) ↦
      let less = λ (q : Pair).
        indexed-insert b.pair_index p q ls (remove_id k id ls) e (remove_id-Subset k id ls) in
      elim (Bool-cases (null (remove_id k id ls))) [
        | inl h ↦
            rw (e, h, remove_from_index)
              (record {
                orders_from = OrdersFrom-refl b.orders b.orders refl;
                index_from = λ q i m.
                    less q i (indexed-remove (insert p (remove_id k id ls) b.pair_index) p q i m);
              })
        | inr h ↦
            rw (e, h, remove_from_index)
              (record { orders_from = OrdersFrom-refl b.orders b.orders refl; index_from = less })
      ]
]

unindex-Evolves : (b : OrderBook) (o : Order) (id : OrderId) → Evolves b (unindex b o id)
unfolding unindex
unindex-Evolves b o id =
    let rest =
      remove_from_index-Evolves
        (record b { active_pair_count = uncount (pair_of o) b.active_pair_count }) (pair_of o)
        (rate_key o) id in
    record { orders_from = rest.orders_from; index_from = rest.index_from }

pub cleanup_if_filled-Evolves : (b : OrderBook) (id : OrderId) → Evolves b (cleanup_if_filled b id)
unfolding cleanup_if_filled
cleanup_if_filled-Evolves b id = elim (Option-cases (get id b.orders)) [
  | inl e ↦ rw (e, cleanup_if_filled) (Evolves-refl b)
  | inr (o, e) ↦ elim (Bool-cases (is_completely_filled o)) [
    | inl h ↦ rw (e, h, cleanup_if_filled) (unindex-Evolves b o id)
    | inr h ↦ rw (e, h, cleanup_if_filled) (Evolves-refl b)
  ]
]

pub add_protocol_balance-Evolves :
    (b : OrderBook) (t : TokenId) (x : Amount) → Evolves b (add_protocol_balance b t x)
unfolding add_protocol_balance
add_protocol_balance-Evolves b t x = elim (Bool-cases (x == 0)) [
  | inl h ↦ rw (h, add_protocol_balance) (Evolves-refl b)
  | inr h ↦
      rw (h, add_protocol_balance)
        (record { orders_from = OrdersFrom-refl b.orders b.orders refl; index_from = λ p i m. m })
]

pub best_order-Evolves : (b : OrderBook) (t u : TokenId) → Evolves b (best_order b t u).0
unfolding best_order
best_order-Evolves b t u = elim (Option-cases (get (t, u) b.pair_index)) [
  | inl e ↦ rw (e, best_order) (Evolves-refl b)
  | inr (ls, e) ↦
      rw (e, best_order)
        (record {
          orders_from = OrdersFrom-refl b.orders b.orders refl;
          index_from = λ q.
              indexed-insert b.pair_index (t, u) q ls (prune (is_live b) ls) e
                (prune-Subset (is_live b) ls);
        })
]
