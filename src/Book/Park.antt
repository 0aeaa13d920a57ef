-- ===== src/Book/Park.antt =====
-- What parking does to the map of parked notes and to the orders.
use solver.Prelude.{
  ℕ, ◌≡◌, ◌∙◌, ap, none, some, ◌⊎◌, inl, inr, Bool-cases, Option-cases, arith, if◌then◌else◌, ◌==◌,
  nat_eq, pair_eq,
}
use solver.Prelude.Maps.{get, insert, remove, get-insert, get-remove, contains_key}
use solver.Order.{Order, OrderId, DexId, RateKey, is_active, rate_key}
use solver.Book.{
  OrderBook, Pair, pair_of, index_insert, remove_from_index, unindex, park, reindex, unpark,
  uncount,
}
use solver.Book.Frame.{unindex-orders}

remove_from_index-parked :
    (b : OrderBook) (p : Pair) (k : RateKey) (id : OrderId)
    → (remove_from_index b p k id).parked ≡ b.parked
unfolding remove_from_index
remove_from_index-parked b p k id = ground arith

pub unindex-parked : (b : OrderBook) (o : Order) (id : OrderId) → (unindex b o id).parked ≡ b.parked
unfolding unindex
unindex-parked b o id =
    remove_from_index-parked
      (record b { active_pair_count = uncount (pair_of o) b.active_pair_count }) (pair_of o)
      (rate_key o) id

reindex-parked : (b : OrderBook) (id : OrderId) → (reindex b id).parked ≡ b.parked
unfolding reindex index_insert
reindex-parked b id = ground arith

reindex-orders : (b : OrderBook) (id : OrderId) → (reindex b id).orders ≡ b.orders
unfolding reindex index_insert
reindex-orders b id = ground arith

pub unpark-orders : (b : OrderBook) (id : OrderId) → (unpark b id).0.orders ≡ b.orders
unfolding unpark
unpark-orders b id = elim (Option-cases (get id b.parked)) [
  | inl e ↦ rw (e, unpark)
  | inr (v, e) ↦ rw (e, unpark) (reindex-orders (record b { parked = remove id b.parked }) id)
]

-- After `unpark` the note is parked no more, and every other note is as before.
pub unpark-parked :
    (b : OrderBook) (id j : OrderId)
    → get j (unpark b id).0.parked ≡ (if j == id then none else get j b.parked)
unfolding unpark
unpark-parked b id j = elim (Option-cases (get id b.parked)) [
  | inl e ↦ elim (Bool-cases (j == id)) [
    | inl same ↦ let at : j ≡ id = ground arith in rw (e, same, unpark) (rw at e)
    | inr other ↦ rw (e, other, unpark)
  ]
  | inr (v, e) ↦
      rw (e, unpark)
        (ap (λ m. get j m) (reindex-parked (record b { parked = remove id b.parked }) id)
          ∙ get-remove id j b.parked)
]

pub park-orders :
    (b : OrderBook) (id : OrderId) (dex : DexId) (time : ℕ) → (park b id dex time).orders ≡ b.orders
unfolding park
park-orders b id dex time = elim (Bool-cases (contains_key id b.parked)) [
  | inl e ↦ rw (e, park)
  | inr e ↦ elim (Option-cases (get id b.orders)) [
    | inl h ↦ rw (e, h, park)
    | inr (o, h) ↦ elim (Bool-cases (is_active o)) [
      | inl a ↦ rw (e, h, a, park) (unindex-orders b o id)
      | inr a ↦ rw (e, h, a, park)
    ]
  ]
]

-- A note that is parked after `park` is the one of the call, or was parked before.
pub park-parked :
    (b : OrderBook) (id : OrderId) (dex : DexId) (time : ℕ) (j : OrderId) {v : DexId × ℕ}
    → get j (park b id dex time).parked ≡ some v
    → (j ≡ id) ⊎ (get j b.parked ≡ some v)
unfolding park
park-parked b id dex time j {v} g = elim (Bool-cases (contains_key id b.parked)) [
  | inl e ↦ inr (rw (e, park) at g)
  | inr e ↦ elim (Option-cases (get id b.orders)) [
    | inl h ↦ inr (rw (e, h, park) at g)
    | inr (o, h) ↦ elim (Bool-cases (is_active o)) [
      | inr a ↦ inr (rw (e, h, a, park) at g)
      | inl a ↦ elim (Bool-cases (j == id)) [
        | inl same ↦ inl (ground arith)
        | inr other ↦
            let left : get j (insert id (dex, time) (unindex b o id).parked) ≡ some v =
              rw (e, h, a, park) at g in
            inr (
              rw (get-insert id j (dex, time) (unindex b o id).parked, other, unindex-parked b o id)
                at left)
      ]
    ]
  ]
]
