-- ===== src/Book/Intake.antt =====
-- A new order: the book stays sound and solvent when it comes in.
use solver.Prelude.{
  ◌-◌, ◌<◌, ◌≡◌, ◌≢◌, refl, sym, Option, none, some, [], ◌∷◌, ◌++◌, ◌⊎◌, inl, inr, In,
  In-append_cases, In-append_left, In-append_right, Bool-cases, eq_of_some, arith, if◌then◌else◌,
  ◌==◌, nat_eq, pair_eq, get_or, u64_mod,
}
use solver.Prelude.Maps.{get, insert, get-insert, total-insert_new}
use solver.Order.{
  Order, OrderId, TokenId, Amount, RateKey, IsValid, cmp, rate_key, requested_filled,
}
use solver.Levels.{Levels, push_back, ids_of}
use solver.Levels.Ids.{cmp-cases}
use solver.Book.{OrderBook, Pair, pair_of, new_order, index_insert, add_user_order}
use solver.Book.Evolution.{indexed, ids_at}
use solver.Book.Sound.{IsSound}
use solver.Book.Solvency.{consumed, released, IsSolvent, weigh-zero}

push_back-In :
    (key : RateKey) (id : OrderId) (ls : Levels) (i : OrderId)
    → In i (ids_of (push_back key id ls))
    → (i ≡ id) ⊎ In i (ids_of ls)
unfolding push_back ids_of
push_back-In key id [] i (inl e) = inl e
push_back-In key id [] i (inr x) = inr x
push_back-In key id ((k, ids) ∷ ls) i m = elim (cmp-cases (cmp key k)) [
  | inl e ↦ rw (e, push_back) at m
  | inr (inl e) ↦ elim (In-append_cases i (ids ++ id ∷ []) (ids_of ls) (rw (e, push_back) at m)) [
    | inl h ↦ elim (In-append_cases i ids (id ∷ []) h) [
      | inl old ↦ inr (In-append_left i ids (ids_of ls) old)
      | inr last ↦ elim last [ inl same ↦ inl same | inr none_left ↦ absurd none_left ]
    ]
    | inr h ↦ inr (In-append_right i ids (ids_of ls) h)
  ]
  | inr (inr e) ↦
      elim (In-append_cases i ids (ids_of (push_back key id ls)) (rw (e, push_back) at m)) [
        | inl h ↦ inr (In-append_left i ids (ids_of ls) h)
        | inr h ↦ elim (push_back-In key id ls i h) [
          | inl same ↦ inl same
          | inr old ↦ inr (In-append_right i ids (ids_of ls) old)
        ]
      ]
]

module _ (b : OrderBook) (id : OrderId) (t : TokenId) (u : TokenId) (x : Amount) (y : Amount)
    (fresh : get id b.orders ≡ none) where
  added-orders : (add_user_order b id t u x y).orders ≡ insert id (new_order id t u x y) b.orders
  unfolding add_user_order index_insert
  added-orders = rw (fresh, add_user_order)

  added-balances : (add_user_order b id t u x y).protocol_balances ≡ b.protocol_balances
  unfolding add_user_order index_insert
  added-balances = rw (fresh, add_user_order)

  added-index :
      (add_user_order b id t u x y).pair_index
      ≡ insert
          (t, u)
          (push_back (rate_key (new_order id t u x y)) id (get_or (get (t, u) b.pair_index) []))
          b.pair_index
  unfolding add_user_order index_insert
  added-index = rw (fresh, add_user_order)

  -- Of the index, the pair of the new order has its id besides what was there.
  added-In :
      (p : Pair) (i : OrderId)
      → In i (indexed (add_user_order b id t u x y).pair_index p)
      → ((i ≡ id) × (p ≡ (t, u))) ⊎ In i (indexed b.pair_index p)
  unfolding ids_of
  added-In p i m =
      let ls : Levels = get_or (get (t, u) b.pair_index) [] in
      let key : RateKey = rate_key (new_order id t u x y) in
      let there : In i
          (ids_at (if p == (t, u) then some (push_back key id ls) else get p b.pair_index)) =
        rw (added-index, get-insert (t, u) p (push_back key id ls) b.pair_index) at m in
      elim (Bool-cases (p == (t, u))) [
        | inr other ↦ inr (rw other at there)
        | inl same ↦
            let at : p ≡ (t, u) = (pair_eq.same_iff p (t, u)).0 same in
            elim (push_back-In key id ls i (rw same at there)) [
              | inl new ↦ inl (new, at)
              | inr old ↦ inr (rw at (held i (get (t, u) b.pair_index) old))
            ]
      ]
    where
      held :
          (i : OrderId) (found : Option Levels)
          → In i (ids_of (get_or found []))
          → In i (ids_at found)
      held i none m = m
      held i (some ls) m = m

  -- A stored order is the new one or was stored before.
  added-get :
      (i : OrderId) (o : Order)
      → get i (add_user_order b id t u x y).orders ≡ some o
      → ((i ≡ id) × (o ≡ new_order id t u x y)) ⊎ ((i ≢ id) × (get i b.orders ≡ some o))
  added-get i o g =
      let there : (if i == id then some (new_order id t u x y) else get i b.orders) ≡ some o =
        rw (added-orders, get-insert id i (new_order id t u x y) b.orders) at g in
      elim (Bool-cases (i == id)) [
        | inl same ↦ inl (ground arith, sym (eq_of_some (rw same at there)))
        | inr other ↦ inr (ground arith, rw other at there)
      ]

module _ (id : OrderId) (t : TokenId) (u : TokenId) (x : Amount) (y : Amount) where
  new_order-IsValid : 0 < x → 0 < y → x < u64_mod → y < u64_mod → IsValid (new_order id t u x y)
  unfolding new_order
  new_order-IsValid px py wx wy = record {
    offered_pos = px;
    requested_pos = py;
    offered_word = wx;
    requested_word = wy;
    remaining_le = omega arith;
  }

  new_order-id : (new_order id t u x y).id ≡ id
  unfolding new_order
  new_order-id = refl

  new_order-pair : pair_of (new_order id t u x y) ≡ (t, u)
  unfolding new_order
  new_order-pair = refl

  -- Nothing is filled of a new order.
  new_order-consumed : (k : TokenId) → consumed k (new_order id t u x y) ≡ 0
  unfolding new_order requested_filled
  new_order-consumed k =
      let none_filled : y - y ≡ 0 = omega arith in rw none_filled (weigh-zero k u)

-- A book stays sound and solvent when an order with positive amounts comes in under an id that is
-- neither stored nor indexed.
pub add_user_order-IsSound :
    (b : OrderBook) (id : OrderId) (t : TokenId) (u : TokenId) (x : Amount) (y : Amount)
    → 0 < x
    → 0 < y
    → x < u64_mod
    → y < u64_mod
    → get id b.orders ≡ none
    → ((p : Pair) → ¬ In id (indexed b.pair_index p))
    → IsSound b
    → IsSolvent b
    → IsSound (add_user_order b id t u x y) × IsSolvent (add_user_order b id t u x y)
add_user_order-IsSound b id t u x y px py wx wy fresh unseen sound solvent = (
  record {
    valid = λ i o g. elim (added-get b id t u x y fresh i o g) [
      | inl new ↦ rw (new.1) (new_order-IsValid id t u x y px py wx wy)
      | inr old ↦ sound.valid i o old.1
    ];
    own_id = λ i o g. elim (added-get b id t u x y fresh i o g) [
      | inl new ↦ rw (new.1, new.0) (new_order-id id t u x y)
      | inr old ↦ sound.own_id i o old.1
    ];
    at_pair = λ p i o m g. elim (added-get b id t u x y fresh i o g) [
      | inl new ↦ elim (added-In b id t u x y fresh p i m) [
        | inl here ↦ rw (new.1, here.1) (new_order-pair id t u x y)
        | inr before ↦ absurd (unseen p (rw (new.0) at before))
      ]
      | inr old ↦ elim (added-In b id t u x y fresh p i m) [
        | inl here ↦ absurd (old.0 here.0)
        | inr before ↦ sound.at_pair p i o before old.1
      ]
    ];
  },
  λ k.
      rw (added-orders b id t u x y fresh, added-balances b id t u x y fresh)
        (omega (
          arith,
          solvent k,
          total-insert_new (consumed k) id (new_order id t u x y) b.orders fresh,
          total-insert_new (released k) id (new_order id t u x y) b.orders fresh,
          new_order-consumed id t u x y k,
        )),
)
