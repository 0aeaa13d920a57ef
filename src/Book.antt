-- ===== src/Book.antt =====
-- crates/solver/src/matching/order_book.rs: `OrderBook`. A method on `&mut self` returns the book
-- it leaves beside its result. A hash map is an association list, a hash set a list without
-- repetition, `pair_index` maps a pair to its `Levels`, and the price feed is the function
-- `price_cents` of the trait `PriceFeed`. `active_pair_count` is a `u32` and a balance a `u64`.
pub mod Frame
pub mod Best
pub mod Intake
pub mod Park
pub mod Reactivate
pub mod Evolution
pub mod Matching
pub mod Sound
pub mod Solvency
pub mod Views
use solver.Prelude.{
  ℕ, ◌+◌, ◌-◌, ◌%◌, ◌≡◌, Bool, true, false, not, ◌&&◌, Option, none, some, List, [], ◌∷◌, ◌++◌, leb,
  ltb, ◌==◌, nat_eq, pair_eq, if◌then◌else◌, front, null, get_or, is_some, add, discard, as_u64,
  u32_mod, sat_add64,
}
use solver.Prelude.Maps.{Map, get, insert, remove, contains_key, update_entry}
use solver.Order.{
  Order, OrderId, TokenId, DexId, Amount, RateKey, MatchResult, rate_key, is_active,
  is_completely_filled, match_with,
}
use solver.Levels.{Levels, push_back, remove_id, prune, best}

abbrev pub Pair : Type 0
Pair = TokenId × TokenId

-- `PriceFeed::price_cents`
abbrev pub PriceFeed : Type 0
PriceFeed = TokenId → Option ℕ

pub record OrderBook : Type 0 where
  pub orders : Map OrderId Order
  pub pair_index : Map Pair Levels
  pub user_adjacency : Map TokenId (List TokenId)
  pub incoming_adjacency : Map TokenId (List TokenId)
  pub active_pair_count : Map Pair ℕ
  pub parked : Map OrderId (DexId × ℕ)
  pub park_queue : List (ℕ × OrderId)
  pub protocol_balances : Map TokenId Amount
  pub tokens : List TokenId
  pub feed : PriceFeed

unfoldable pub new : PriceFeed → OrderBook
new feed = record {
  orders = [];
  pair_index = [];
  user_adjacency = [];
  incoming_adjacency = [];
  active_pair_count = [];
  parked = [];
  park_queue = [];
  protocol_balances = [];
  tokens = [];
  feed = feed;
}

unfoldable pub index_insert : OrderBook → OrderId → TokenId → TokenId → RateKey → OrderBook
index_insert b id offered_token requested_token key =
    let pair : Pair = (offered_token, requested_token) in
    record b {
      pair_index = update_entry pair [] (push_back key id) b.pair_index;
      active_pair_count = update_entry pair 0 (λ c. (c + 1) % u32_mod) b.active_pair_count;
      user_adjacency = update_entry offered_token [] (add requested_token) b.user_adjacency;
      incoming_adjacency = update_entry requested_token [] (add offered_token) b.incoming_adjacency;
    }

unfoldable pub new_order : OrderId → TokenId → TokenId → Amount → Amount → Order
new_order note_id offered_token requested_token offered requested = record {
  id = note_id;
  offered_token = offered_token;
  requested_token = requested_token;
  offered = offered;
  requested = requested;
  requested_remaining = requested;
}

unfoldable pub add_user_order :
    OrderBook → OrderId → TokenId → TokenId → Amount → Amount → OrderBook
add_user_order b note_id offered_token requested_token offered requested =
    if contains_key note_id b.orders && not (contains_key note_id b.parked)
    then b
    else let order = new_order note_id offered_token requested_token offered requested in
      let stored : OrderBook = record b {
        parked = remove note_id b.parked;
        orders = insert note_id order b.orders;
      } in
      let indexed = index_insert stored note_id offered_token requested_token (rate_key order) in
      record indexed { tokens = add requested_token (add offered_token indexed.tokens) }

-- `get_mut` of a neighbour set, the removal of one token, and of the set if that empties it.
unfoldable pub drop_neighbor :
    TokenId → TokenId → Map TokenId (List TokenId) → Map TokenId (List TokenId)
drop_neighbor at token adjacency = elim (get at adjacency) [
  | none ↦ adjacency
  | some set ↦
      let left = discard token set in
      if null left then remove at (insert at left adjacency) else insert at left adjacency
]

unfoldable pub remove_from_index : OrderBook → Pair → RateKey → OrderId → OrderBook
remove_from_index b pair key order_id = elim (get pair b.pair_index) [
  | none ↦ b
  | some btree ↦
      let left = remove_id key order_id btree in
      if null left
      then record b {
        pair_index = remove pair (insert pair left b.pair_index);
        user_adjacency = drop_neighbor pair.0 pair.1 b.user_adjacency;
        incoming_adjacency = drop_neighbor pair.1 pair.0 b.incoming_adjacency;
      }
      else record b { pair_index = insert pair left b.pair_index }
]

-- `if let Some(count) = active_pair_count.get_mut(&pair) { *count = count.saturating_sub(1) }`
unfoldable pub uncount : Pair → Map Pair ℕ → Map Pair ℕ
uncount pair counts = elim (get pair counts) [ none ↦ counts | some c ↦ insert pair (c - 1) counts ]

abbrev pub pair_of : Order → Pair
pair_of o = (o.offered_token, o.requested_token)

-- Take an order off the counter and out of the index.
unfoldable pub unindex : OrderBook → Order → OrderId → OrderBook
unindex b order id =
    remove_from_index (record b { active_pair_count = uncount (pair_of order) b.active_pair_count })
      (pair_of order) (rate_key order) id

unfoldable pub cleanup_if_filled : OrderBook → OrderId → OrderBook
cleanup_if_filled b order_id = elim (get order_id b.orders) [
  | none ↦ b
  | some order ↦ if is_completely_filled order then unindex b order order_id else b
]

unfoldable pub remove_order : OrderBook → OrderId → OrderBook
remove_order b order_id = elim (get order_id b.orders) [
  | none ↦ b
  | some order ↦
      let dropped : OrderBook = record b { orders = remove order_id b.orders } in
      if contains_key order_id b.parked
      then record dropped { parked = remove order_id b.parked }
      else if is_active order
      then unindex dropped order order_id
      else remove_from_index dropped (pair_of order) (rate_key order) order_id
]

unfoldable pub park : OrderBook → OrderId → DexId → ℕ → OrderBook
park b id dex time = if contains_key id b.parked then b else elim (get id b.orders) [
  | none ↦ b
  | some order ↦
      let hidden = unindex b order id in
      if is_active order
      then record hidden {
        parked = insert id (dex, time) hidden.parked;
        park_queue = hidden.park_queue ++ (time, id) ∷ [];
      }
      else b
]

unfoldable pub reindex : OrderBook → OrderId → OrderBook
reindex b id = elim (get id b.orders) [
  | none ↦ b
  | some order ↦
      if is_active order
      then index_insert b id order.offered_token order.requested_token (rate_key order)
      else b
]

unfoldable pub unpark : OrderBook → OrderId → OrderBook × Option DexId
unpark b id = elim (get id b.parked) [
  | none ↦ (b, none)
  | some (dex, _) ↦ (reindex (record b { parked = remove id b.parked }) id, some dex)
]

-- The loop of `reactivate_parked_older_than` over the entries of the queue. The queue of the book
-- is written back once the loop stops; no step of it reads the queue.
unfoldable pub reactivate :
    OrderBook → List (ℕ × OrderId) → ℕ → ℕ → OrderBook × List (OrderId × DexId)
reactivate b [] ttl time = (record b { park_queue = [] }, [])
reactivate b ((parked_at, id) ∷ queue) ttl time =
    let (b', returned) = unpark b id in
    let (b'', rest) = reactivate b' queue ttl time in
    if ltb time (sat_add64 parked_at ttl)
    then (record b { park_queue = (parked_at, id) ∷ queue }, [])
    else elim returned [ none ↦ (b'', rest) | some dex ↦ (b'', (id, dex) ∷ rest) ]

unfoldable pub reactivate_parked_older_than : OrderBook → ℕ → ℕ → OrderBook × List (OrderId × DexId)
reactivate_parked_older_than b ttl time = reactivate b b.park_queue ttl time

-- `orders.get(id).map_or(true, |o| !o.is_active())`, negated.
unfoldable pub is_live : OrderBook → OrderId → Bool
is_live b id = elim (get id b.orders) [ none ↦ false | some o ↦ is_active o ]

unfoldable pub best_order : OrderBook → TokenId → TokenId → OrderBook × Option Order
best_order b offered requested = elim (get (offered, requested) b.pair_index) [
  | none ↦ (b, none)
  | some btree ↦
      let pruned = prune (is_live b) btree in
      let found : Option Order = elim (best pruned) [ none ↦ none | some id ↦ get id b.orders ] in
      (record b { pair_index = insert (offered, requested) pruned b.pair_index }, found)
]

unfoldable pub add_protocol_balance : OrderBook → TokenId → Amount → OrderBook
add_protocol_balance b token amount = if amount == 0 then b else record b {
  protocol_balances = update_entry token 0 (λ held. as_u64 (held + amount)) b.protocol_balances;
  tokens = add token b.tokens;
}

unfoldable pub deduct_protocol_balance : OrderBook → TokenId → Amount → OrderBook
deduct_protocol_balance b token amount = elim (get token b.protocol_balances) [
  | none ↦ b
  | some balance ↦ record b {
    protocol_balances = insert token (balance - amount) b.protocol_balances;
  }
]

-- The book after the two clones of a match have been written back.
unfoldable pub settle_match :
    OrderBook → OrderId → OrderId → Order → Order → MatchResult → OrderBook
settle_match b a_id b_id order_a order_b result =
    let stored : OrderBook = record b {
      orders = insert b_id order_b (insert a_id order_a b.orders);
    } in
    let credited =
      add_protocol_balance
        (add_protocol_balance stored order_a.offered_token result.surplus_offered)
        order_b.offered_token result.surplus_requested in
    cleanup_if_filled (cleanup_if_filled credited a_id) b_id

-- The clones are dropped where the match fails.
unfoldable pub match_found :
    OrderBook → OrderId → OrderId → Order → Order → OrderBook × Option MatchResult
match_found b a_id b_id order_a order_b =
    let (a', b', result) = match_with order_a order_b in
    elim result [ none ↦ (b, none) | some r ↦ (settle_match b a_id b_id a' b' r, some r) ]

unfoldable pub apply_match : OrderBook → OrderId → OrderId → OrderBook × Option MatchResult
apply_match b a_id b_id = if a_id == b_id then (b, none) else elim (get a_id b.orders) [
  | none ↦ (b, none)
  | some order_a ↦ elim (get b_id b.orders) [
    | none ↦ (b, none)
    | some order_b ↦ match_found b a_id b_id order_a order_b
  ]
]
