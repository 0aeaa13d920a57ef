-- ===== src/Cycle/Run.antt =====
-- crates/solver/src/matching/three_edge_cycle.rs: the heap and the execution loop. The heap is a
-- list from which `pop` takes a greatest entry, as a `BinaryHeap` does. The `while let` loop takes
-- fuel, and `none` means that it ran out.
use solver.Prelude.{
  ℕ, zero, suc, ◌+◌, Bool, true, false, not, Option, none, some, List, [], ◌∷◌, ltb, ◌==◌, nat_eq,
  pair_eq, triple_eq, if◌then◌else◌, add, get_or, as_u64,
}
use solver.Prelude.Maps.{get, insert}
use solver.Order.{OrderId, fill}
use solver.Book.{OrderBook, Pair, cleanup_if_filled, add_protocol_balance}
use solver.Cycle.Simulate.{FillResult, simulate_full_cycle}
use solver.Cycle.Entries.{Triangle, CycleEntry, ByPair, pairs, try_build_entry, enumerate_triangles}

-- A greatest entry, and the others.
unfoldable pub pop_max : CycleEntry → List CycleEntry → CycleEntry × List CycleEntry
pop_max top [] = (top, [])
pop_max top (entry ∷ entries) =
    let better = ltb top.surplus_usd entry.surplus_usd in
    let (greatest, rest) = pop_max (if better then entry else top) entries in
    (greatest, (if better then top else entry) ∷ rest)

unfoldable pub pop : List CycleEntry → Option (CycleEntry × List CycleEntry)
pop [] = none
pop (entry ∷ entries) = some (pop_max entry entries)

-- `book.orders.get_mut(id)`, and the fill of the order found.
unfoldable pub fill_order : OrderBook → OrderId → ℕ → Option OrderBook
fill_order book id amount = elim (get id book.orders) [
  | none ↦ none
  | some order ↦ some (record book { orders = insert id (fill order amount).0 book.orders })
]

-- The end of `execute_cycle`, when the three orders have been filled.
unfoldable pub finish_cycle : OrderBook → CycleEntry → FillResult → OrderBook
finish_cycle book entry simulation =
    let cleaned =
      cleanup_if_filled (cleanup_if_filled (cleanup_if_filled book entry.order_ab) entry.order_ca)
        entry.order_bc in
    add_protocol_balance
      (add_protocol_balance (add_protocol_balance cleaned entry.triangle.0 simulation.surplus_a)
        entry.triangle.1 simulation.surplus_b)
      entry.triangle.2 simulation.surplus_c

-- A fill before a missing order is not taken back.
unfoldable pub execute_cycle :
    OrderBook → CycleEntry → FillResult → List OrderId → OrderBook × List OrderId × Bool
execute_cycle book entry simulation filled_orders =
    elim (fill_order book entry.order_ab simulation.fill_b) [
      | none ↦ (book, filled_orders, false)
      | some book_1 ↦ elim (fill_order book_1 entry.order_ca simulation.fill_a) [
        | none ↦ (book_1, filled_orders, false)
        | some book_2 ↦ elim (fill_order book_2 entry.order_bc simulation.fill_c) [
          | none ↦ (book_2, filled_orders, false)
          | some book_3 ↦ (
            finish_cycle book_3 entry simulation,
            add entry.order_bc (add entry.order_ca (add entry.order_ab filled_orders)),
            true,
          )
        ]
      ]
    ]

-- The variables of `run_three_edge_cycle`.
pub record CycleState : Type 0 where
  pub book : OrderBook
  pub heap : List CycleEntry
  pub filled_orders : List OrderId
  pub cycles_executed : ℕ

-- Push the rebuilt entry of a triangle, if there is one.
unfoldable pub refresh : CycleState → Triangle → CycleState
refresh s triangle =
    let (book', built) = try_build_entry s.book triangle in
    elim built [
      | none ↦ record s { book = book' }
      | some entry ↦ record s { book = book'; heap = entry ∷ s.heap }
    ]

unfoldable pub refresh_all : CycleState → List Triangle → CycleState
refresh_all s [] = s
refresh_all s (triangle ∷ triangles) = refresh_all (refresh s triangle) triangles

unfoldable pub add_all : List Triangle → List Triangle → List Triangle
add_all [] set = set
add_all (triangle ∷ triangles) set = add_all triangles (add triangle set)

unfoldable pub affected : ByPair → List Pair → List Triangle → List Triangle
affected by_pair [] set = set
affected by_pair (pair ∷ ps) set = affected by_pair ps (add_all (get_or (get pair by_pair) []) set)

-- A popped entry whose simulation still has the surplus that it was pushed with.
unfoldable pub run_entry :
    (List Triangle → List Triangle) → ByPair → CycleState → CycleEntry → FillResult → CycleState
run_entry arrange by_pair s entry fills =
    let (book', filled', executed) = execute_cycle s.book entry fills s.filled_orders in
    let s' : CycleState = record s { book = book'; filled_orders = filled' } in
    if executed
    then refresh_all (record s' { cycles_executed = as_u64 (s.cycles_executed + 1) })
        (arrange (affected by_pair (pairs entry.triangle) []))
    else s'

-- One round of the loop, on a popped entry.
unfoldable pub cycle_round :
    (List Triangle → List Triangle) → ByPair → CycleState → CycleEntry → CycleState
cycle_round arrange by_pair s entry =
    elim (simulate_full_cycle s.book entry.order_ab entry.order_bc entry.order_ca) [
      | none ↦ refresh s entry.triangle
      | some simulation ↦
          if not (simulation.surplus_usd == entry.surplus_usd)
          then if ltb 0 simulation.surplus_usd
            then record s { heap = record entry { surplus_usd = simulation.surplus_usd } ∷ s.heap }
            else s
          else run_entry arrange by_pair s entry simulation.fills
    ]

unfoldable pub run_heap :
    (List Triangle → List Triangle) → ℕ → ByPair → CycleState → Option CycleState
run_heap arrange zero by_pair s = none
run_heap arrange (suc fuel) by_pair s = elim (pop s.heap) [
  | none ↦ some s
  | some (entry, rest) ↦
      run_heap arrange fuel by_pair (cycle_round arrange by_pair (record s { heap = rest }) entry)
]

unfoldable pub run_three_edge_cycle :
    (List Triangle → List Triangle) → ℕ → OrderBook → List OrderId → Option CycleState
run_three_edge_cycle arrange fuel book filled_orders =
    let e = enumerate_triangles book in
    run_heap arrange fuel e.triangles_by_pair (record {
      book = e.book;
      heap = e.entries;
      filled_orders = filled_orders;
      cycles_executed = 0;
    })
