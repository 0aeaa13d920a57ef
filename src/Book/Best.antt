-- ===== src/Book/Best.antt =====
-- `best_order` finds the best rate of a pair.
use solver.Prelude.{
  ◌<◌, ◌≡◌, true, false, none, some, inl, inr, In, Bool-cases, Option-cases, nat_eq, pair_eq,
}
use solver.Prelude.Maps.{Map, get}
use solver.Order.{Order, OrderId, TokenId, RateKey, rate_key, is_active}
use solver.Order.Rate.{RateLe, RateLe-trans}
use solver.Levels.{Levels, prune, best, ids_of}
use solver.Levels.Ids.{best-prune}
use solver.Levels.Sorted.{IsSorted, prune-IsSorted}
use solver.Levels.Best.{prune-keeps, prune-Keyed, Keyed, best-Leads, best-prune-none}
use solver.Book.{OrderBook, Pair, best_order, is_live}
use solver.Book.Evolution.{indexed}

-- The key offers something, and it is the rate of the order stored at the id.
pub record IsRate (orders : Map OrderId Order) (id : OrderId) (key : RateKey) : Type 0 where
  pub offers : 0 < key.offered
  pub no_better : (o : Order) → get id orders ≡ some o → RateLe key (rate_key o)
  pub no_worse : (o : Order) → get id orders ≡ some o → RateLe (rate_key o) key

-- The levels of the pair are sorted, and each id stands under the rate of its order.
abbrev pub IsOrdered : OrderBook → Pair → Type 0
IsOrdered b p =
    (ls : Levels) → get p b.pair_index ≡ some ls → IsSorted ls × Keyed (IsRate b.orders) ls

live :
    (b : OrderBook) (i : OrderId) {p : Order}
    → get i b.orders ≡ some p
    → is_active p ≡ true
    → is_live b i ≡ true
unfolding is_live
live b i h a = rw (h, is_live) a

at_levels :
    (b : OrderBook) (pair : Pair) (ls : Levels) (i : OrderId)
    → get pair b.pair_index ≡ some ls
    → In i (indexed b.pair_index pair)
    → In i (ids_of ls)
at_levels b pair ls i h m = rw h at m

-- Where the levels of a pair are sorted by the rates of their orders, the best order of the pair is
-- priced no worse than any active order that the index holds there.
pub best_order-RateLe :
    (b : OrderBook) (t u : TokenId) {o : Order} (i : OrderId) (p : Order)
    → IsOrdered b (t, u)
    → (best_order b t u).1 ≡ some o
    → In i (indexed b.pair_index (t, u))
    → get i b.orders ≡ some p
    → is_active p ≡ true
    → RateLe (rate_key o) (rate_key p)
unfolding best_order
best_order-RateLe b t u {o} i p ordered e m stored active =
    elim (Option-cases (get (t, u) b.pair_index)) [
      | inl h ↦ absurd (cc (h))
      | inr (ls, h) ↦ elim (Option-cases (best (prune (is_live b) ls))) [
        | inl k ↦ absurd (cc (h, k))
        | inr (id, k) ↦
            let found : get id b.orders ≡ some o = rw (h, k, best_order) at e in
            let (sorted, keyed) = ordered ls h in
            let l =
              best-Leads (IsRate b.orders) (prune (is_live b) ls)
                (prune-IsSorted (is_live b) ls sorted)
                (prune-Keyed (IsRate b.orders) (is_live b) ls keyed) k in
            let f = l.leads i (
              prune-keeps (is_live b) ls i (live b i stored active)
                (at_levels b (t, u) ls i h m)) in
            RateLe-trans (rate_key o) l.key (rate_key p) l.under.offers (l.under.no_worse o found) (
              RateLe-trans l.key f.key (rate_key p) f.under.offers f.no_better
                (f.under.no_better p stored))
      ]
    ]

dead : (b : OrderBook) (i : OrderId) → get i b.orders ≡ none → is_live b i ≡ false
unfolding is_live
dead b i h = rw (h, is_live)

-- Where there is no best order of a pair, no stored order that the index holds there is active.
pub best_order-none :
    (b : OrderBook) (t u : TokenId) (i : OrderId) (p : Order)
    → (best_order b t u).1 ≡ none
    → In i (indexed b.pair_index (t, u))
    → get i b.orders ≡ some p
    → is_active p ≡ false
unfolding best_order
best_order-none b t u i p e m stored = elim (Bool-cases (is_active p)) [
  | inr idle ↦ idle
  | inl active ↦ elim (Option-cases (get (t, u) b.pair_index)) [
    | inl h ↦ absurd (rw h at m)
    | inr (ls, h) ↦
        let kept =
          prune-keeps (is_live b) ls i (live b i stored active) (at_levels b (t, u) ls i h m) in
        elim (Option-cases (best (prune (is_live b) ls))) [
          | inl k ↦ absurd (rw (best-prune-none (is_live b) ls k) at kept)
          | inr (id, k) ↦
              let missing : get id b.orders ≡ none = rw (h, k, best_order) at e in
              absurd (cc (best-prune (is_live b) ls k, dead b id missing))
        ]
  ]
]
