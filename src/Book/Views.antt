-- ===== src/Book/Views.antt =====
-- crates/solver/src/matching/order_book.rs: the read-only views of the book.
use solver.Prelude.{
  ℕ, ◌+◌, ◌%◌, Bool, true, false, Option, none, some, List, [], ◌∷◌, ltb, nat_eq, pair_eq,
  if◌then◌else◌, get_or, length, filter, u32_mod, sat_add64,
}
use solver.Prelude.Maps.{Map, get, insert, keys, values, contains_key}
use solver.Order.{Order, OrderId, TokenId, Amount, RateKey, is_active, offered_remaining}
use solver.Levels.{Levels, ids_of}
use solver.Book.{OrderBook, Pair}

-- `ids.filter_map(|id| orders.get(id))`
unfoldable pub fetch : Map OrderId Order → List OrderId → List Order
fetch orders [] = []
fetch orders (id ∷ ids) =
    let rest = fetch orders ids in elim (get id orders) [ none ↦ rest | some o ↦ o ∷ rest ]

unfoldable pub notes_for_pair : OrderBook → TokenId → TokenId → List Order
notes_for_pair b offered requested = elim (get (offered, requested) b.pair_index) [
  | none ↦ []
  | some btree ↦ filter is_active (fetch b.orders (ids_of btree))
]

unfoldable pub has_orders : OrderBook → TokenId → TokenId → Bool
has_orders b offered requested = elim (get (offered, requested) b.active_pair_count) [
  | none ↦ false
  | some c ↦ ltb 0 c
]

-- One level: its volume so far, and whether an active order was seen.
unfoldable pub level_volume : Map OrderId Order → List OrderId → Amount → Bool → Amount × Bool
level_volume orders [] volume any = (volume, any)
level_volume orders (id ∷ ids) volume any = elim (get id orders) [
  | none ↦ level_volume orders ids volume any
  | some o ↦ elim (is_active o) [
    | true ↦ level_volume orders ids (sat_add64 volume (offered_remaining o)) true
    | false ↦ level_volume orders ids volume any
  ]
]

unfoldable pub best_of_levels : Map OrderId Order → Levels → Option (RateKey × Amount)
best_of_levels orders [] = none
best_of_levels orders ((key, ids) ∷ ls) =
    let later = best_of_levels orders ls in
    let (volume, any) = level_volume orders ids 0 false in if any then some (key, volume) else later

unfoldable pub best_level : OrderBook → TokenId → TokenId → Option (RateKey × Amount)
best_level b offered requested = elim (get (offered, requested) b.pair_index) [
  | none ↦ none
  | some btree ↦ best_of_levels b.orders btree
]

-- crates/solver/src/matching/types.rs: `BestLevel`, and the snapshot for the swap-eta API.
pub record BestLevel : Type 0 where
  pub rate : RateKey
  pub volume : Amount

abbrev pub SwapBookSnapshot : Type 0
SwapBookSnapshot = Map Pair BestLevel

unfoldable pub snapshot_pairs : OrderBook → List Pair → SwapBookSnapshot → SwapBookSnapshot
snapshot_pairs b [] acc = acc
snapshot_pairs b (pair ∷ pairs) acc = snapshot_pairs b pairs (elim (best_level b pair.0 pair.1) [
  | none ↦ acc
  | some (rate, volume) ↦ insert pair (record { rate = rate; volume = volume }) acc
])

unfoldable pub snapshot_best_levels : OrderBook → SwapBookSnapshot
snapshot_best_levels b = snapshot_pairs b (keys b.pair_index) []

unfoldable pub neighbors : OrderBook → TokenId → List TokenId
neighbors b offered = get_or (get offered b.user_adjacency) []

unfoldable pub incoming_neighbors : OrderBook → TokenId → List TokenId
incoming_neighbors b requested = get_or (get requested b.incoming_adjacency) []

unfoldable pub sum_counts : List ℕ → ℕ
sum_counts [] = 0
sum_counts (c ∷ cs) = (c + sum_counts cs) % u32_mod

unfoldable pub active_order_count : OrderBook → ℕ
active_order_count b = sum_counts (values b.active_pair_count)

unfoldable pub parked_count : OrderBook → ℕ
parked_count b = length b.parked

unfoldable pub is_parked : OrderBook → OrderId → Bool
is_parked b id = contains_key id b.parked
