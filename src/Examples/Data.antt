-- ===== src/Examples/Data.antt =====
-- The orders and books of the examples: tokens 0, 1 and 2.
use solver.Prelude.{[], ◌∷◌, some, arith, nat_eq}
use solver.Order.{Order, OrderId, TokenId, Amount, IsValid}
use solver.Book.{OrderBook, PriceFeed, new}

abbrev pub order_of : OrderId → TokenId → TokenId → Amount → Amount → Order
order_of id offered_token requested_token offered requested = record {
  id = id;
  offered_token = offered_token;
  requested_token = requested_token;
  offered = offered;
  requested = requested;
  requested_remaining = requested;
}

-- Every token is worth one cent.
abbrev pub one_cent : PriceFeed
one_cent token = some 1

-- Two orders that cross, with a surplus in either token.
abbrev pub sell : Order
sell = order_of 1 0 1 100 50

abbrev pub buy : Order
buy = order_of 2 1 0 60 90

abbrev pub two_book : OrderBook
two_book = record (new one_cent) {
  orders = (1, sell) ∷ (2, buy) ∷ [];
  pair_index =
      ((0, 1), (record { requested = 50; offered = 100 }, 1 ∷ []) ∷ [])
      ∷ ((1, 0), (record { requested = 90; offered = 60 }, 2 ∷ []) ∷ [])
      ∷ [];
  user_adjacency = (0, 1 ∷ []) ∷ (1, 0 ∷ []) ∷ [];
  incoming_adjacency = (1, 0 ∷ []) ∷ (0, 1 ∷ []) ∷ [];
  active_pair_count = ((0, 1), 1) ∷ ((1, 0), 1) ∷ [];
  tokens = 0 ∷ 1 ∷ [];
}

pub sell-IsValid : IsValid sell
sell-IsValid = ground arith

pub buy-IsValid : IsValid buy
buy-IsValid = ground arith
