-- ===== src/Cycle/Simulate.antt =====
-- crates/solver/src/matching/three_edge_cycle.rs: the fills of one cycle and their surplus.
-- Order AB offers token A and requests token B, and so on round the triangle.
use solver.Prelude.{
  ℕ, ◌-◌, ◌*◌, ◌&&◌, ◌||◌, not, Option, none, some, min, leb, ◌==◌, nat_eq, if◌then◌else◌, ◌>>=◌,
  ◌>>◌, guard, sat_add128, sat_mul128,
}
use solver.Prelude.Maps.{get}
use solver.Order.{Order, OrderId, Amount, is_active, offered_for}
use solver.Book.{OrderBook, PriceFeed}

pub data BottleneckLeg : Type 0 where
  ab bc ca : BottleneckLeg

pub record FillResult : Type 0 where
  pub fill_a : Amount
  pub fill_b : Amount
  pub fill_c : Amount
  pub surplus_a : Amount
  pub surplus_b : Amount
  pub surplus_c : Amount

pub record CycleSimulation : Type 0 where
  pub fills : FillResult
  pub surplus_usd : ℕ

-- What a leg fills of its request, and what it releases of its offer.
pub record Leg : Type 0 where
  pub filled : Amount
  pub released : Amount

unfoldable pub fill_leg : Order → Amount → Leg
fill_leg order input =
    let filled = min input order.requested_remaining in
    record { filled = filled; released = offered_for order filled }

unfoldable pub simulate_cycle_fills : Order → Order → Order → Option (Leg × Leg × Leg)
simulate_cycle_fills leg_0 leg_1 leg_2 =
    let first : Leg = record {
      filled = leg_0.requested_remaining;
      released = offered_for leg_0 leg_0.requested_remaining;
    } in
    let second = fill_leg leg_1 first.released in
    let third = fill_leg leg_2 second.released in
    if first.filled == 0 || second.filled == 0 || third.filled == 0
    then none
    else some (first, second, third)

-- Token A is released by AB and consumed by CA, B by BC and AB, C by CA and BC.
unfoldable pub fill_result : Leg → Leg → Leg → FillResult
fill_result leg_ab leg_bc leg_ca = record {
  fill_a = leg_ca.filled;
  fill_b = leg_ab.filled;
  fill_c = leg_bc.filled;
  surplus_a = leg_ab.released - leg_ca.filled;
  surplus_b = leg_bc.released - leg_ab.filled;
  surplus_c = leg_ca.released - leg_bc.filled;
}

unfoldable pub simulate_cycle : Order → Order → Order → BottleneckLeg → Option FillResult
simulate_cycle order_ab order_bc order_ca ab = do
  (leg_ab, leg_ca, leg_bc) ← simulate_cycle_fills order_ab order_ca order_bc
  some (fill_result leg_ab leg_bc leg_ca)
simulate_cycle order_ab order_bc order_ca bc = do
  (leg_bc, leg_ab, leg_ca) ← simulate_cycle_fills order_bc order_ab order_ca
  some (fill_result leg_ab leg_bc leg_ca)
simulate_cycle order_ab order_bc order_ca ca = do
  (leg_ca, leg_bc, leg_ab) ← simulate_cycle_fills order_ca order_bc order_ab
  some (fill_result leg_ab leg_bc leg_ca)

unfoldable pub find_bottleneck : ℕ → ℕ → ℕ → BottleneckLeg
find_bottleneck usd_ab usd_bc usd_ca =
    if leb usd_ab usd_bc && leb usd_ab usd_ca then ab else if leb usd_bc usd_ca then bc else ca

abbrev pub usd_of : BottleneckLeg → ℕ → ℕ → ℕ → ℕ
usd_of ab usd_ab usd_bc usd_ca = usd_ab
usd_of bc usd_ab usd_bc usd_ca = usd_bc
usd_of ca usd_ab usd_bc usd_ca = usd_ca

unfoldable pub cycle_surplus_usd : FillResult → ℕ → ℕ → ℕ → ℕ
cycle_surplus_usd fills price_a price_b price_c =
    sat_add128
      (sat_add128 (sat_mul128 fills.surplus_a price_a) (sat_mul128 fills.surplus_b price_b))
      (sat_mul128 fills.surplus_c price_c)

-- `simulate_full_cycle` once the three orders and prices are at hand.
unfoldable pub simulate_priced : Order → Order → Order → ℕ → ℕ → ℕ → Option CycleSimulation
simulate_priced order_ab order_bc order_ca price_a price_b price_c = do
  let usd_ab = order_ab.requested_remaining * price_b
  let usd_bc = order_bc.requested_remaining * price_c
  let usd_ca = order_ca.requested_remaining * price_a
  let bottleneck = find_bottleneck usd_ab usd_bc usd_ca
  guard (not (usd_of bottleneck usd_ab usd_bc usd_ca == 0))
  fills ← simulate_cycle order_ab order_bc order_ca bottleneck
  some (record { fills = fills; surplus_usd = cycle_surplus_usd fills price_a price_b price_c })

unfoldable pub simulate_orders : PriceFeed → Order → Order → Order → Option CycleSimulation
simulate_orders price_cents order_ab order_bc order_ca = do
  guard (is_active order_ab && is_active order_bc && is_active order_ca)
  price_a ← price_cents order_ab.offered_token
  price_b ← price_cents order_ab.requested_token
  price_c ← price_cents order_bc.requested_token
  simulate_priced order_ab order_bc order_ca price_a price_b price_c

-- `book.orders[&id]` panics on an id that is not stored, where this is `none`. The ids come from
-- `best_order`, which returns stored orders only, and matching removes none from `orders`.
unfoldable pub simulate_full_cycle :
    OrderBook → OrderId → OrderId → OrderId → Option CycleSimulation
simulate_full_cycle book id_ab id_bc id_ca = do
  order_ab ← get id_ab book.orders
  order_bc ← get id_bc book.orders
  order_ca ← get id_ca book.orders
  simulate_orders book.feed order_ab order_bc order_ca
