-- ===== src/Examples/Cycles.antt =====
-- Two triangles of orders: one that closes, and one that the simulation accepts though its batch
-- cannot be paid.
use solver.Prelude.{ℕ, ◌≡◌, refl, ◌≤◌, [], some, arith, nat_eq}
use solver.Prelude.Maps.{get, insert, total}
use solver.Order.{
  Order, calculate_output_amount, is_active, offered_for, requested_filled, fill, offered_remaining,
  rate_key, cmp,
}
use solver.Levels.{push_back, prune, best, drop_inactive}
use solver.Book.{OrderBook, new, index_insert, new_order, add_user_order, best_order, is_live}
use solver.Book.Views.{has_orders}
use solver.Book.Solvency.{Covers, IsSolvent, weigh-zero, consumed, released}
use solver.Cycle.Simulate.{
  ab, FillResult, fill_leg, simulate_cycle_fills, fill_result, simulate_cycle, find_bottleneck,
  cycle_surplus_usd, simulate_priced, simulate_orders, simulate_full_cycle,
}
use solver.Cycle.Entries.{
  CycleEntry, checked_mul, triple_product, is_unprofitable, entry_of, try_build_entry,
}
use solver.Cycle.Run.{execute_cycle}
use solver.Cycle.Flow.{FillsFit, Flows, simulate_cycle-Flows}
use solver.Cycle.Solvency.{IsCycle}
use solver.Cycle.Deficit.{
  AreDistinct, AreUntouched, execute_cycle-IsSolvent, execute_cycle-not_Covers,
}
use solver.Examples.Data.{order_of, one_cent}

program : Unit {0}
unfolding get insert total calculate_output_amount is_active offered_for requested_filled fill
    offered_remaining rate_key cmp push_back prune best drop_inactive new index_insert new_order
    add_user_order best_order is_live has_orders fill_leg simulate_cycle_fills fill_result
    simulate_cycle find_bottleneck cycle_surplus_usd simulate_priced simulate_orders
    simulate_full_cycle checked_mul triple_product is_unprofitable entry_of try_build_entry
program = tt

abbrev order_ab : Order
order_ab = order_of 1 0 1 200 100

abbrev order_ca : Order
order_ca = order_of 3 2 0 60 100

-- It releases 54 of token 1 for the 60 of token 2 that reach it, and the bottleneck took 100.
abbrev short_bc : Order
short_bc = order_of 2 1 2 90 100

abbrev ample_bc : Order
ample_bc = order_of 2 1 2 200 100

-- The book of the triangle with the given order from the second token to the third.
abbrev book_with : ℕ → OrderBook
book_with offered =
    add_user_order (add_user_order (add_user_order (new one_cent) 1 0 1 200 100) 2 1 2 offered 100)
      3 2 0 60 100

abbrev entry : ℕ → CycleEntry
entry usd = record {
  triangle = (0, 1, 2);
  order_ab = 1;
  order_bc = 2;
  order_ca = 3;
  surplus_usd = usd;
}

abbrev short_fills : FillResult
short_fills = record {
  fill_a = 100;
  fill_b = 100;
  fill_c = 60;
  surplus_a = 100;
  surplus_b = 0;
  surplus_c = 0;
}

abbrev ample_fills : FillResult
ample_fills = record {
  fill_a = 100;
  fill_b = 100;
  fill_c = 60;
  surplus_a = 100;
  surplus_b = 20;
  surplus_c = 0;
}

-- The enumeration takes the short triangle for a profitable one.
short_entry : (try_build_entry (book_with 90) (0, 1, 2)).1 ≡ some (entry 100)
unfolding program
short_entry = refl

ample_entry : (try_build_entry (book_with 200) (0, 1, 2)).1 ≡ some (entry 120)
unfolding program
ample_entry = refl

short-IsCycle : IsCycle (book_with 90) (entry 100) order_ab short_bc order_ca
unfolding program
short-IsCycle = record {
  at_ab = refl;
  at_bc = refl;
  at_ca = refl;
  valid_ab = ground arith;
  valid_bc = ground arith;
  valid_ca = ground arith;
  ab_ca = refl;
  ab_bc = refl;
  ca_bc = refl;
  offers_a = refl;
  asks_b = refl;
  offers_b = refl;
  asks_c = refl;
  offers_c = refl;
  asks_a = refl;
}

ample-IsCycle : IsCycle (book_with 200) (entry 120) order_ab ample_bc order_ca
unfolding program
ample-IsCycle = record {
  at_ab = refl;
  at_bc = refl;
  at_ca = refl;
  valid_ab = ground arith;
  valid_bc = ground arith;
  valid_ca = ground arith;
  ab_ca = refl;
  ab_bc = refl;
  ca_bc = refl;
  offers_a = refl;
  asks_b = refl;
  offers_b = refl;
  asks_c = refl;
  offers_c = refl;
  asks_a = refl;
}

ample_book-IsSolvent : IsSolvent (book_with 200)
unfolding program
ample_book-IsSolvent t = omega (arith, weigh-zero t 0, weigh-zero t 1, weigh-zero t 2)

tokens-AreDistinct : AreDistinct (0, 1, 2)
tokens-AreDistinct = ground arith

short-AreUntouched : AreUntouched order_ab short_bc order_ca
unfolding program
short-AreUntouched = record { ab_untouched = refl; bc_untouched = refl; ca_untouched = refl }

short_fresh : total (released 1) (book_with 90).orders ≤ total (consumed 1) (book_with 90).orders
unfolding program
short_fresh = omega (arith, weigh-zero 1 0, weigh-zero 1 1, weigh-zero 1 2)

execute_cycle-IsSolvent_example :
    IsSolvent (execute_cycle (book_with 200) (entry 120) ample_fills []).0
unfolding program
execute_cycle-IsSolvent_example =
    execute_cycle-IsSolvent (book_with 200) (entry 120) order_ab ample_bc order_ca ab ample_fills []
      ample-IsCycle refl (omega arith) ample_book-IsSolvent

execute_cycle-not_Covers_example :
    ¬ Covers (execute_cycle (book_with 90) (entry 100) short_fills []).0 1
unfolding program
execute_cycle-not_Covers_example =
    execute_cycle-not_Covers (book_with 90) (entry 100) order_ab short_bc order_ca ab short_fills []
      short-IsCycle tokens-AreDistinct short-AreUntouched refl (omega arith) short_fresh

simulate_cycle-Flows_example :
    FillsFit order_ab short_bc order_ca short_fills
    × Flows order_ab short_bc order_ca ab short_fills
unfolding program
simulate_cycle-Flows_example = simulate_cycle-Flows order_ab short_bc order_ca ab refl
