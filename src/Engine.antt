-- ===== src/Engine.antt =====
-- crates/solver/src/matching/engine.rs: a tick of the matching engine, direct matching and then
-- triangular matching on what is left. Each loop has fuel of its own.
use solver.Prelude.{
  ℕ, ◌+◌, Bool, true, false, Option, some, List, [], ◌∷◌, if◌then◌else◌, ltb, ◌>>=◌, as_u64,
}
use solver.Prelude.Maps.{Map}
use solver.Order.{OrderId, TokenId, Amount}
use solver.Book.{OrderBook, Pair}
use solver.Book.Views.{active_order_count}
use solver.Direct.{run_direct_matching}
use solver.Cycle.Entries.{Triangle}
use solver.Cycle.Run.{run_three_edge_cycle}

pub record MatchingEngine : Type 0 where
  pub book : OrderBook
  pub triangular_enabled : Bool

unfoldable pub new_engine : OrderBook → MatchingEngine
new_engine book = record { book = book; triangular_enabled = true }

unfoldable pub with_triangular_enabled : MatchingEngine → Bool → MatchingEngine
with_triangular_enabled engine enabled = record engine { triangular_enabled = enabled }

pub record SettlementBatch : Type 0 where
  pub filled_orders : List OrderId
  pub protocol_balances : Map TokenId Amount
  pub cycles_executed : ℕ
  pub remaining_orders : ℕ

unfoldable pub positive_balances : Map TokenId Amount → Map TokenId Amount
positive_balances [] = []
positive_balances ((token, amount) ∷ m) =
    let rest = positive_balances m in if ltb 0 amount then (token, amount) ∷ rest else rest

unfoldable pub batch_of : OrderBook → List OrderId → ℕ → SettlementBatch
batch_of book filled_orders cycles = record {
  filled_orders = filled_orders;
  protocol_balances = positive_balances book.protocol_balances;
  cycles_executed = cycles;
  remaining_orders = active_order_count book;
}

-- The order in which hash sets are visited.
pub record HashOrder : Type 0 where
  pub arrange_pairs : List Pair → List Pair
  pub arrange_triangles : List Triangle → List Triangle

unfoldable pub run : HashOrder → ℕ → MatchingEngine → Option (MatchingEngine × SettlementBatch)
run order fuel engine = do
  (book, filled_orders, cycles) ← run_direct_matching order.arrange_pairs fuel (engine.book, [], 0)
  elim engine.triangular_enabled [
    | false ↦ some (record engine { book = book }, batch_of book filled_orders cycles)
    | true ↦ run_three_edge_cycle order.arrange_triangles fuel book filled_orders >>= λ s. some (
      record engine { book = s.book },
      batch_of s.book s.filled_orders (as_u64 (cycles + s.cycles_executed)),
    )
  ]
