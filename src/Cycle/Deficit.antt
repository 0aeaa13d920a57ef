-- ===== src/Cycle/Deficit.antt =====
-- When the batch of a simulated cycle can be paid: the last leg has to release what the bottleneck
-- was filled with. The simulation does not ask for this; its `saturating_sub` reports no surplus
-- where there is a deficit.
use solver.Prelude.{◌+◌, ◌<◌, ◌≤◌, ◌≡◌, ◌≢◌, ap, sym, ◌∙◌, some, arith, nat_eq, List}
use solver.Prelude.Maps.{total}
use solver.Order.{Order, OrderId, TokenId, offered_for, requested_filled}
use solver.Book.{OrderBook}
use solver.Book.Solvency.{
  weigh, token-weigh, weigh_self, weigh_ne, consumed, released, Covers, IsSolvent,
}
use solver.Cycle.Simulate.{BottleneckLeg, ab, bc, ca, FillResult, simulate_cycle}
use solver.Cycle.Entries.{CycleEntry, Triangle}
use solver.Cycle.Run.{execute_cycle}
use solver.Cycle.Flow.{FillsFit, simulate_cycle-Flows}
use solver.Cycle.Solvency.{
  IsCycle, execute_cycle-Executed, execute_cycle-Covers, finish_cycle-orders,
}

-- The last leg releases at least what the bottleneck was filled with.
abbrev pub Closes : Order → Order → Order → BottleneckLeg → FillResult → Type 0
Closes order_ab order_bc order_ca ab f = f.fill_b ≤ offered_for order_bc f.fill_c
Closes order_ab order_bc order_ca bc f = f.fill_c ≤ offered_for order_ca f.fill_a
Closes order_ab order_bc order_ca ca f = f.fill_a ≤ offered_for order_ab f.fill_b

-- The execution of a simulated cycle whose last leg covers the bottleneck keeps the batch of a book
-- solvent. (The entry's orders are stored, valid, distinct and round its triangle.)
pub execute_cycle-IsSolvent :
    (b : OrderBook) (e : CycleEntry) (order_ab order_bc order_ca : Order) (leg : BottleneckLeg)
    (f : FillResult) (filled : List OrderId)
    → IsCycle b e order_ab order_bc order_ca
    → simulate_cycle order_ab order_bc order_ca leg ≡ some f
    → Closes order_ab order_bc order_ca leg f
    → IsSolvent b
    → IsSolvent (execute_cycle b e f filled).0
execute_cycle-IsSolvent b e o p q ab f filled c sim closes solvent t =
    let (fit, flows) = simulate_cycle-Flows o p q ab sim in
    execute_cycle-Covers b e f o p q filled c fit (omega arith) (omega arith) (omega arith) t
      (solvent t)
execute_cycle-IsSolvent b e o p q bc f filled c sim closes solvent t =
    let (fit, flows) = simulate_cycle-Flows o p q bc sim in
    execute_cycle-Covers b e f o p q filled c fit (omega arith) (omega arith) (omega arith) t
      (solvent t)
execute_cycle-IsSolvent b e o p q ca f filled c sim closes solvent t =
    let (fit, flows) = simulate_cycle-Flows o p q ca sim in
    execute_cycle-Covers b e f o p q filled c fit (omega arith) (omega arith) (omega arith) t
      (solvent t)

-- The token that the bottleneck asks for.
abbrev pub closing_token : BottleneckLeg → Triangle → TokenId
closing_token ab t = t.1
closing_token bc t = t.2
closing_token ca t = t.0

-- The three tokens of a triangle differ.
pub record AreDistinct (t : Triangle) : Type 0 where
  pub a_b : t.0 ≢ t.1
  pub b_c : t.1 ≢ t.2
  pub c_a : t.2 ≢ t.0

-- Nothing was filled of the three orders.
pub record AreUntouched (order_ab order_bc order_ca : Order) : Type 0 where
  pub ab_untouched : requested_filled order_ab ≡ 0
  pub bc_untouched : requested_filled order_bc ≡ 0
  pub ca_untouched : requested_filled order_ca ≡ 0

module _ (b : OrderBook) (e : CycleEntry) (f : FillResult) (order_ab order_bc order_ca : Order)
    (filled : List OrderId) (c : IsCycle b e order_ab order_bc order_ca)
    (fit : FillsFit order_ab order_bc order_ca f) (d : AreDistinct e.triangle)
    (u : AreUntouched order_ab order_bc order_ca) where
  -- After the three fills, what is asked of a token and what is released of it.
  record Tally (t : TokenId) : Type 0 where
    asked :
        total (consumed t) (execute_cycle b e f filled).0.orders
        ≡ total (consumed t) b.orders
          + weigh t e.triangle.1 f.fill_b
          + weigh t e.triangle.0 f.fill_a
          + weigh t e.triangle.2 f.fill_c
    given :
        total (released t) (execute_cycle b e f filled).0.orders
        ≡ total (released t) b.orders
          + weigh t e.triangle.0 (offered_for order_ab f.fill_b)
          + weigh t e.triangle.2 (offered_for order_ca f.fill_a)
          + weigh t e.triangle.1 (offered_for order_bc f.fill_c)

  tally : (t : TokenId) → Tally t
  tally t =
      let x = execute_cycle-Executed b e f order_ab order_bc order_ca filled c fit in
      let orders = ap (λ (k : OrderBook). k.orders) x.result ∙ finish_cycle-orders x.book_3 e f in
      record {
        asked = rw orders (
            omega (
              arith,
              x.effect_ab.consumed_by t,
              x.effect_ca.consumed_by t,
              x.effect_bc.consumed_by t,
              token-weigh t f.fill_b c.asks_b,
              token-weigh t f.fill_a c.asks_a,
              token-weigh t f.fill_c c.asks_c,
            ));
        given = rw orders (
            omega (
              arith,
              x.effect_ab.released_exactly t u.ab_untouched,
              x.effect_ca.released_exactly t u.ca_untouched,
              x.effect_bc.released_exactly t u.bc_untouched,
              token-weigh t (offered_for order_ab f.fill_b) c.offers_a,
              token-weigh t (offered_for order_ca f.fill_a) c.offers_c,
              token-weigh t (offered_for order_bc f.fill_c) c.offers_b,
            ));
      }

  -- The token that one leg asks for and another releases stands uncovered if the second releases
  -- less, and nothing but the cycle has moved it.
  short_b :
      total (released e.triangle.1) b.orders ≤ total (consumed e.triangle.1) b.orders
      → offered_for order_bc f.fill_c < f.fill_b
      → ¬ Covers (execute_cycle b e f filled).0 e.triangle.1
  short_b fresh short covered =
      let t = tally e.triangle.1 in
      omega (
        arith,
        t.asked,
        t.given,
        weigh_self e.triangle.1,
        weigh_ne e.triangle.1 e.triangle.0 (offered_for order_ab f.fill_b) d.a_b,
        weigh_ne e.triangle.1 e.triangle.2 (offered_for order_ca f.fill_a) (λ h. d.b_c (sym h)),
      )

  short_c :
      total (released e.triangle.2) b.orders ≤ total (consumed e.triangle.2) b.orders
      → offered_for order_ca f.fill_a < f.fill_c
      → ¬ Covers (execute_cycle b e f filled).0 e.triangle.2
  short_c fresh short covered =
      let t = tally e.triangle.2 in
      omega (
        arith,
        t.asked,
        t.given,
        weigh_self e.triangle.2,
        weigh_ne e.triangle.2 e.triangle.1 (offered_for order_bc f.fill_c) d.b_c,
        weigh_ne e.triangle.2 e.triangle.0 (offered_for order_ab f.fill_b) (λ h. d.c_a (sym h)),
      )

  short_a :
      total (released e.triangle.0) b.orders ≤ total (consumed e.triangle.0) b.orders
      → offered_for order_ab f.fill_b < f.fill_a
      → ¬ Covers (execute_cycle b e f filled).0 e.triangle.0
  short_a fresh short covered =
      let t = tally e.triangle.0 in
      omega (
        arith,
        t.asked,
        t.given,
        weigh_self e.triangle.0,
        weigh_ne e.triangle.0 e.triangle.2 (offered_for order_ca f.fill_a) d.c_a,
        weigh_ne e.triangle.0 e.triangle.1 (offered_for order_bc f.fill_c) (λ h. d.a_b (sym h)),
      )

-- A simulated cycle whose last leg releases less than the bottleneck was filled with leaves the
-- batch unable to pay the token that the bottleneck asks for, where nothing was filled of the three
-- orders before and the book holds no excess of that token. (The entry's orders are stored, valid
-- and distinct, and round its triangle of distinct tokens.)
pub execute_cycle-not_Covers :
    (b : OrderBook) (e : CycleEntry) (order_ab order_bc order_ca : Order) (leg : BottleneckLeg)
    (f : FillResult) (filled : List OrderId)
    → IsCycle b e order_ab order_bc order_ca
    → AreDistinct e.triangle
    → AreUntouched order_ab order_bc order_ca
    → simulate_cycle order_ab order_bc order_ca leg ≡ some f
    → ¬ Closes order_ab order_bc order_ca leg f
    → total (released (closing_token leg e.triangle)) b.orders
      ≤ total (consumed (closing_token leg e.triangle)) b.orders
    → ¬ Covers (execute_cycle b e f filled).0 (closing_token leg e.triangle)
execute_cycle-not_Covers b e o p q ab f filled c d u sim open_end fresh =
    short_b b e f o p q filled c (simulate_cycle-Flows o p q ab sim).0 d u fresh (omega arith)
execute_cycle-not_Covers b e o p q bc f filled c d u sim open_end fresh =
    short_c b e f o p q filled c (simulate_cycle-Flows o p q bc sim).0 d u fresh (omega arith)
execute_cycle-not_Covers b e o p q ca f filled c d u sim open_end fresh =
    short_a b e f o p q filled c (simulate_cycle-Flows o p q ca sim).0 d u fresh (omega arith)
