-- ===== src/Cycle/Solvency.antt =====
-- What the execution of a cycle does to the batch.
use solver.Prelude.{◌+◌, ◌-◌, ◌≤◌, ◌≡◌, refl, ◌∙◌, some, true, false, arith, ◌==◌, nat_eq, List}
use solver.Prelude.Maps.{get, insert, total, total-insert, get-insert_ne}
use solver.Order.{Order, OrderId, TokenId, Amount, IsValid, offered_for, fill, requested_filled}
use solver.Order.Match.{fill-SameTerms}
use solver.Book.{OrderBook, cleanup_if_filled, add_protocol_balance}
use solver.Book.Frame.{
  cleanup_if_filled-orders, add_protocol_balance-orders, cleanup_if_filled-balances,
}
use solver.Book.Solvency.{
  weigh, token-weigh, cover-weigh, consumed, released, balance, Covers, consumed-step,
  released-step, released-step_untouched, add_protocol_balance-balance,
}
use solver.Cycle.Simulate.{FillResult}
use solver.Cycle.Entries.{CycleEntry}
use solver.Cycle.Run.{fill_order, finish_cycle, execute_cycle}
use solver.Cycle.Flow.{FillsFit}

-- One leg of a cycle: the order `o` is stored at `id` and is filled by `x`.
pub record LegEffect (b b' : OrderBook) (id : OrderId) (o : Order) (x : Amount) : Type 0 where
  pub filled : fill_order b id x ≡ some b'
  pub orders : b'.orders ≡ insert id (fill o x).0 b.orders
  pub balances : b'.protocol_balances ≡ b.protocol_balances
  pub consumed_by :
      (t : TokenId)
      → total (consumed t) b'.orders ≡ total (consumed t) b.orders + weigh t o.requested_token x
  pub released_by :
      (t : TokenId)
      → total (released t) b.orders + weigh t o.offered_token (offered_for o x)
        ≤ total (released t) b'.orders
  pub released_exactly :
      (t : TokenId)
      → requested_filled o ≡ 0
      → total (released t) b'.orders
        ≡ total (released t) b.orders + weigh t o.offered_token (offered_for o x)

after_fill :
    (o : Order) (x : Amount)
    → x ≤ o.requested_remaining
    → o.requested_remaining - (fill o x).0.requested_remaining ≡ x
unfolding fill
after_fill o x h = omega arith

fill_order-LegEffect :
    (b : OrderBook) (id : OrderId) (o : Order) (x : Amount)
    → get id b.orders ≡ some o
    → IsValid o
    → x ≤ o.requested_remaining
    → (b' : OrderBook) × LegEffect b b' id o x
unfolding fill_order
fill_order-LegEffect b id o x h v fits =
    let o' = (fill o x).0 in
    let s = fill-SameTerms o x in
    let d = after_fill o x fits in
    (
      record b { orders = insert id o' b.orders },
      record {
        filled = rw (h, fill_order);
        orders = refl;
        balances = refl;
        consumed_by = λ t. omega (
          arith,
          total-insert (consumed t) id o' o b.orders h,
          rw d at (consumed-step o o' v s t),
        );
        released_by = λ t. omega (
          arith,
          total-insert (released t) id o' o b.orders h,
          rw d at (released-step o o' v s t),
        );
        released_exactly = λ t untouched. omega (
          arith,
          total-insert (released t) id o' o b.orders h,
          rw d at (released-step_untouched o o' v s untouched t),
        );
      },
    )

pub finish_cycle-orders :
    (b : OrderBook) (e : CycleEntry) (f : FillResult) → (finish_cycle b e f).orders ≡ b.orders
unfolding finish_cycle
finish_cycle-orders b e f = simp (add_protocol_balance-orders, cleanup_if_filled-orders)

finish_cycle-balance :
    (b : OrderBook) (e : CycleEntry) (f : FillResult) (t : TokenId)
    → balance (finish_cycle b e f) t
      ≤ balance b t
        + weigh t e.triangle.0 f.surplus_a
        + weigh t e.triangle.1 f.surplus_b
        + weigh t e.triangle.2 f.surplus_c
unfolding finish_cycle
finish_cycle-balance b e f t =
    let cleaned =
      cleanup_if_filled (cleanup_if_filled (cleanup_if_filled b e.order_ab) e.order_ca)
        e.order_bc in
    let once = add_protocol_balance cleaned e.triangle.0 f.surplus_a in
    let twice = add_protocol_balance once e.triangle.1 f.surplus_b in
    let same : balance cleaned t ≡ balance b t = simp cleanup_if_filled-balances in
    omega (
      arith,
      same,
      add_protocol_balance-balance cleaned e.triangle.0 t f.surplus_a,
      add_protocol_balance-balance once e.triangle.1 t f.surplus_b,
      add_protocol_balance-balance twice e.triangle.2 t f.surplus_c,
    )

-- The orders of an entry as the book holds them: valid, at three ids, and round the triangle.
pub record IsCycle (b : OrderBook) (e : CycleEntry) (order_ab order_bc order_ca : Order)
    : Type 0 where
  pub at_ab : get e.order_ab b.orders ≡ some order_ab
  pub at_bc : get e.order_bc b.orders ≡ some order_bc
  pub at_ca : get e.order_ca b.orders ≡ some order_ca
  pub valid_ab : IsValid order_ab
  pub valid_bc : IsValid order_bc
  pub valid_ca : IsValid order_ca
  pub ab_ca : (e.order_ca == e.order_ab) ≡ false
  pub ab_bc : (e.order_bc == e.order_ab) ≡ false
  pub ca_bc : (e.order_bc == e.order_ca) ≡ false
  pub offers_a : order_ab.offered_token ≡ e.triangle.0
  pub asks_b : order_ab.requested_token ≡ e.triangle.1
  pub offers_b : order_bc.offered_token ≡ e.triangle.1
  pub asks_c : order_bc.requested_token ≡ e.triangle.2
  pub offers_c : order_ca.offered_token ≡ e.triangle.2
  pub asks_a : order_ca.requested_token ≡ e.triangle.0

-- The effects of the three fills, and the book that the execution leaves.
pub record Executed (b : OrderBook) (e : CycleEntry) (f : FillResult)
    (order_ab order_bc order_ca : Order) (filled : List OrderId) : Type 0 where
  pub book_1 : OrderBook
  pub book_2 : OrderBook
  pub book_3 : OrderBook
  pub effect_ab : LegEffect b book_1 e.order_ab order_ab f.fill_b
  pub effect_ca : LegEffect book_1 book_2 e.order_ca order_ca f.fill_a
  pub effect_bc : LegEffect book_2 book_3 e.order_bc order_bc f.fill_c
  pub result : (execute_cycle b e f filled).0 ≡ finish_cycle book_3 e f
  pub executed : (execute_cycle b e f filled).2 ≡ true

module _ (b : OrderBook) (e : CycleEntry) (f : FillResult) (order_ab order_bc order_ca : Order)
    (filled : List OrderId) (c : IsCycle b e order_ab order_bc order_ca)
    (fit : FillsFit order_ab order_bc order_ca f) where
  pub execute_cycle-Executed : Executed b e f order_ab order_bc order_ca filled
  unfolding execute_cycle
  execute_cycle-Executed =
      let (b1, ab) =
        fill_order-LegEffect b e.order_ab order_ab f.fill_b c.at_ab c.valid_ab fit.b_fits in
      let at_ca : get e.order_ca b1.orders ≡ some order_ca =
        rw ab.orders (get-insert_ne e.order_ab e.order_ca _ b.orders c.ab_ca ∙ c.at_ca) in
      let (b2, ca) =
        fill_order-LegEffect b1 e.order_ca order_ca f.fill_a at_ca c.valid_ca fit.a_fits in
      let at_bc : get e.order_bc b2.orders ≡ some order_bc =
        rw (ca.orders, ab.orders)
          (get-insert_ne e.order_ca e.order_bc _ _ c.ca_bc
            ∙ get-insert_ne e.order_ab e.order_bc _ b.orders c.ab_bc
            ∙ c.at_bc) in
      let (b3, bc) =
        fill_order-LegEffect b2 e.order_bc order_bc f.fill_c at_bc c.valid_bc fit.c_fits in
      record {
        book_1 = b1;
        book_2 = b2;
        book_3 = b3;
        effect_ab = ab;
        effect_ca = ca;
        effect_bc = bc;
        result = rw (ab.filled, ca.filled, bc.filled, execute_cycle);
        executed = rw (ab.filled, ca.filled, bc.filled, execute_cycle);
      }

  -- If each order releases the next fill and the surplus, the batch stays solvent.
  pub execute_cycle-Covers :
      f.fill_a + f.surplus_a ≤ offered_for order_ab f.fill_b
      → f.fill_b + f.surplus_b ≤ offered_for order_bc f.fill_c
      → f.fill_c + f.surplus_c ≤ offered_for order_ca f.fill_a
      → (t : TokenId) → Covers b t
      → Covers (execute_cycle b e f filled).0 t
  execute_cycle-Covers cover_a cover_b cover_c t solvent =
      let x = execute_cycle-Executed in
      rw (x.result, finish_cycle-orders)
        (omega (
          arith,
          finish_cycle-balance x.book_3 e f t,
          x.effect_ab.consumed_by t,
          x.effect_ca.consumed_by t,
          x.effect_bc.consumed_by t,
          x.effect_ab.released_by t,
          x.effect_ca.released_by t,
          x.effect_bc.released_by t,
          same-balance x t,
          token-weigh t f.fill_b c.asks_b,
          token-weigh t f.fill_a c.asks_a,
          token-weigh t f.fill_c c.asks_c,
          token-weigh t (offered_for order_ab f.fill_b) c.offers_a,
          token-weigh t (offered_for order_bc f.fill_c) c.offers_b,
          token-weigh t (offered_for order_ca f.fill_a) c.offers_c,
          cover-weigh t e.triangle.0 _ _ _ cover_a,
          cover-weigh t e.triangle.1 _ _ _ cover_b,
          cover-weigh t e.triangle.2 _ _ _ cover_c,
        ))
    where
      same-balance :
          (x : Executed b e f order_ab order_bc order_ca filled) (t : TokenId)
          → balance x.book_3 t ≡ balance b t
      same-balance x t = rw (x.effect_bc.balances, x.effect_ca.balances, x.effect_ab.balances)
