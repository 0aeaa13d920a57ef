-- ===== src/Cycle/Flow.antt =====
-- Where the tokens of a simulated cycle go. A leg that follows another is filled with what that one
-- releases, so its token is covered; the token that the bottleneck asks for is released by the last
-- leg, whatever the bottleneck was filled with.
use solver.Prelude.{◌+◌, ◌-◌, ◌<◌, ◌≤◌, ◌≡◌, some, arith}
use solver.Order.{Order, offered_for}
use solver.Cycle.Simulate.{
  BottleneckLeg, ab, bc, ca, FillResult, fill_leg, simulate_cycle_fills, fill_result,
  simulate_cycle,
}

-- The fills are positive and fit the orders.
pub record FillsFit (order_ab order_bc order_ca : Order) (f : FillResult) : Type 0 where
  pub a_pos : 0 < f.fill_a
  pub b_pos : 0 < f.fill_b
  pub c_pos : 0 < f.fill_c
  pub a_fits : f.fill_a ≤ order_ca.requested_remaining
  pub b_fits : f.fill_b ≤ order_ab.requested_remaining
  pub c_fits : f.fill_c ≤ order_bc.requested_remaining

-- What the three orders release of each token, and where it goes: for the two tokens between legs
-- all of it to the next leg and the surplus, for the bottleneck's token what the source takes it
-- to be.
abbrev pub Flows : Order → Order → Order → BottleneckLeg → FillResult → Type 0
Flows order_ab order_bc order_ca ab f =
    (offered_for order_ab f.fill_b ≡ f.fill_a + f.surplus_a)
    × (offered_for order_ca f.fill_a ≡ f.fill_c + f.surplus_c)
    × (f.surplus_b ≡ offered_for order_bc f.fill_c - f.fill_b)
    × (f.fill_b ≡ order_ab.requested_remaining)
Flows order_ab order_bc order_ca bc f =
    (offered_for order_bc f.fill_c ≡ f.fill_b + f.surplus_b)
    × (offered_for order_ab f.fill_b ≡ f.fill_a + f.surplus_a)
    × (f.surplus_c ≡ offered_for order_ca f.fill_a - f.fill_c)
    × (f.fill_c ≡ order_bc.requested_remaining)
Flows order_ab order_bc order_ca ca f =
    (offered_for order_ca f.fill_a ≡ f.fill_c + f.surplus_c)
    × (offered_for order_bc f.fill_c ≡ f.fill_b + f.surplus_b)
    × (f.surplus_a ≡ offered_for order_ab f.fill_b - f.fill_a)
    × (f.fill_a ≡ order_ca.requested_remaining)

-- A simulated cycle has positive fills that fit the orders, fills the bottleneck whole, and passes
-- what one leg releases on to the next, all but the surplus; of the bottleneck's token the surplus is
-- what the last leg releases less the bottleneck's fill, and 0 where it releases no more.
pub simulate_cycle-Flows :
    (order_ab order_bc order_ca : Order) (leg : BottleneckLeg) {f : FillResult}
    → simulate_cycle order_ab order_bc order_ca leg ≡ some f
    → FillsFit order_ab order_bc order_ca f × Flows order_ab order_bc order_ca leg f
unfolding simulate_cycle simulate_cycle_fills fill_leg fill_result
simulate_cycle-Flows o p q ab e = ground arith
simulate_cycle-Flows o p q bc e = ground arith
simulate_cycle-Flows o p q ca e = ground arith
