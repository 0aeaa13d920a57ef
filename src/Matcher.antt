-- ===== src/Matcher.antt =====
-- crates/solver/src/matcher/matcher.rs: one tick of the matcher as a function of what it reads.
-- The channels are the lists of what has arrived and the outcome of each send; the clock is read
-- once for each unit. Note bytes are lists of numbers. Tracing is left out.
pub mod Rollback
use solver.Prelude.{
  ℕ, Bool, true, false, Option, none, some, List, [], ◌∷◌, max, null, is_some, get_or, filter, ◌==◌,
  nat_eq, pair_eq, if◌then◌else◌, ◌>>=◌,
}
use solver.Prelude.Maps.{Map, get, insert, remove, keys}
use solver.Order.{Order, OrderId, TokenId, DexId, Amount, requested_filled}
use solver.Book.{
  OrderBook, Pair, PriceFeed, add_user_order, remove_order, park, unpark,
  reactivate_parked_older_than,
}
use solver.Book.Views.{SwapBookSnapshot, notes_for_pair, snapshot_best_levels}
use solver.Engine.{MatchingEngine, SettlementBatch, HashOrder, run}
use solver.Select.{Quote, Pick, select_notes}

abbrev pub Bytes : Type 0
Bytes = List ℕ

-- crates/solver/src/types.rs: what ingest sends in, and what goes out to the executor.
pub record IngestOrder : Type 0 where
  pub note_id : OrderId
  pub offered_token : TokenId
  pub requested_token : TokenId
  pub offered_amount : Amount
  pub requested_amount : Amount
  pub raw_note_data : Bytes

pub record FilledNote : Type 0 where
  pub note_id : OrderId
  pub requested_filled : Amount
  pub raw_note_data : Bytes
  pub arrival_unix : ℕ

pub record ExecutionBatch : Type 0 where
  pub filled_notes : List FilledNote

-- crates/solver/src/router/mod.rs: the payloads of the router's channels.
abbrev pub QuotesSnapshot : Type 0
QuotesSnapshot = Map Pair (List Quote)

pub record RoutedNote : Type 0 where
  pub dex : DexId
  pub note_id : OrderId
  pub fill : Amount
  pub pair : Pair
  pub note_bytes : Bytes

pub record RouteBatch : Type 0 where
  pub items : List RoutedNote

-- The variables of `run_matcher`.
pub record Matcher : Type 0 where
  pub engine : MatchingEngine
  pub raw_notes : Map OrderId Bytes
  pub arrivals : Map OrderId ℕ
  pub last_now : ℕ
  pub routing : Bool

unfoldable pub set_book : Matcher → OrderBook → Matcher
set_book m book = record m { engine = record m.engine { book = book } }

-- The first `while let` of a tick.
unfoldable pub drop_consumed : Matcher → List OrderId → Matcher
drop_consumed m [] = m
drop_consumed m (note_id ∷ consumed) =
    drop_consumed
      (record m {
        engine = record m.engine { book = remove_order m.engine.book note_id };
        raw_notes = remove note_id m.raw_notes;
        arrivals = remove note_id m.arrivals;
      })
      consumed

unfoldable pub take_order : Matcher → IngestOrder → Map OrderId ℕ → Matcher
take_order m order arrivals = record m {
  engine = record m.engine {
    book =
        add_user_order m.engine.book order.note_id order.offered_token order.requested_token
          order.offered_amount order.requested_amount;
  };
  arrivals = arrivals;
  raw_notes = insert order.note_id order.raw_note_data m.raw_notes;
}

-- The second one: an arrival time that is there stays.
unfoldable pub take_orders : Matcher → ℕ → List IngestOrder → Matcher
take_orders m now_unix [] = m
take_orders m now_unix (order ∷ orders) =
    take_orders
      (take_order m order (
        if is_some (get order.note_id m.arrivals)
        then m.arrivals
        else insert order.note_id now_unix m.arrivals))
      now_unix orders

-- Hydration from the database overwrites the arrival time.
unfoldable pub hydrate : Matcher → ℕ → List IngestOrder → Matcher
hydrate m now_unix [] = m
hydrate m now_unix (order ∷ orders) =
    hydrate (take_order m order (insert order.note_id now_unix m.arrivals)) now_unix orders

-- The notes of a batch: an order without raw bytes is passed over.
unfoldable pub filled_notes : Matcher → OrderBook → ℕ → List OrderId → List FilledNote
filled_notes m book now_unix [] = []
filled_notes m book now_unix (order_id ∷ ids) =
    let rest = filled_notes m book now_unix ids in
    elim (get order_id m.raw_notes) [
      | none ↦ rest
      | some raw_note_data ↦
          record {
            note_id = order_id;
            requested_filled =
                get_or (get order_id book.orders >>= λ o. some (requested_filled o)) 0;
            raw_note_data = raw_note_data;
            arrival_unix = get_or (get order_id m.arrivals) now_unix;
          }
          ∷ rest
    ]

-- What follows a batch that was sent.
unfoldable pub forget_filled : Matcher → List OrderId → Matcher
forget_filled m ids =
    let left = drop_consumed m ids in
    set_book left (record left.engine.book { protocol_balances = [] })

-- The state after internal matching, the batch that was sent, and whether to stop.
abbrev pub Matched : Type 0
Matched = Matcher × Option ExecutionBatch × Bool

unfoldable pub send_batch : Matcher → ℕ → Bool → SettlementBatch → Matched
send_batch m now_unix exec_open batch =
    let out : ExecutionBatch = record {
      filled_notes = filled_notes m m.engine.book now_unix batch.filled_orders;
    } in
    if null batch.filled_orders
    then (m, none, false)
    else if exec_open
    then (forget_filled m batch.filled_orders, some out, false)
    else (m, none, true)

-- `none` means that the engine ran out of fuel.
unfoldable pub internal_match : HashOrder → ℕ → Matcher → PriceFeed → ℕ → Bool → Option Matched
internal_match order fuel m prices now_unix exec_open =
    let priced = set_book m (record m.engine.book { feed = prices }) in
    if null m.engine.book.orders
    then some (m, none, false)
    else run order fuel priced.engine >>= λ done.
        some (send_batch (record priced { engine = done.0 }) now_unix exec_open done.1)

-- The candidates of the external pass: whole notes, pair by pair.
unfoldable pub is_whole : Order → Bool
is_whole o = o.requested_remaining == o.requested

unfoldable pub candidates : OrderBook → List Pair → Map Pair (List Order)
candidates book [] = []
candidates book (pair ∷ pairs) =
    let rest = candidates book pairs in
    let notes = filter is_whole (notes_for_pair book pair.0 pair.1) in
    if null notes then rest else (pair, notes) ∷ rest

-- Each pick whose bytes are at hand is parked and handed over.
unfoldable pub hand_over :
    OrderBook → Map OrderId Bytes → ℕ → List Pick → OrderBook × List RoutedNote
hand_over book raw_notes now [] = (book, [])
hand_over book raw_notes now (pick ∷ picks) = elim (get pick.note_id raw_notes) [
  | none ↦ hand_over book raw_notes now picks
  | some bytes ↦
      let (book', items) = hand_over (park book pick.note_id pick.dex now) raw_notes now picks in
      (
        book',
        record {
          dex = pick.dex;
          note_id = pick.note_id;
          fill = pick.fill;
          pair = pick.pair;
          note_bytes = bytes;
        }
            ∷ items,
      )
]

unfoldable pub route_external :
    OrderBook → Map OrderId Bytes → QuotesSnapshot → ℕ → OrderBook × List RoutedNote
route_external book raw_notes quotes now =
    let notes_by_pair = candidates book (keys quotes) in
    let picks = select_notes notes_by_pair quotes now in
    if null quotes
    then (book, [])
    else if null notes_by_pair
    then (book, [])
    else hand_over book raw_notes now picks

-- The outcome of `try_send`.
pub data TrySend : Type 0 where
  sent full closed : TrySend

unfoldable pub unpark_all : OrderBook → List RoutedNote → OrderBook
unpark_all book [] = book
unpark_all book (item ∷ items) = unpark_all (unpark book item.note_id).0 items

-- The book, the batch that was delivered, and whether the router is gone.
unfoldable pub deliver_routed :
    OrderBook → List RoutedNote → TrySend → OrderBook × Option RouteBatch × Bool
deliver_routed book [] outcome = (book, none, false)
deliver_routed book (item ∷ items) sent = (book, some (record { items = item ∷ items }), false)
deliver_routed book (item ∷ items) full = (unpark_all book (item ∷ items), none, false)
deliver_routed book (item ∷ items) closed = (unpark_all book (item ∷ items), none, true)

unfoldable pub external_pass :
    OrderBook
    → Map OrderId Bytes
    → QuotesSnapshot
    → TrySend
    → ℕ
    → OrderBook × Option RouteBatch × Bool
external_pass book raw_notes quotes outcome now =
    let (book', items) = route_external book raw_notes quotes now in
    deliver_routed book' items outcome

-- What a tick reads: the clock, the channels, and how the sends come out.
pub record TickInput : Type 0 where
  pub now_millis : ℕ
  pub now_unix : ℕ
  pub consumed : List OrderId
  pub orders : List IngestOrder
  pub prices : PriceFeed
  pub quotes : QuotesSnapshot
  pub inflight_ttl_ms : ℕ
  pub exec_open : Bool
  pub route_outcome : TrySend

pub record TickOutput : Type 0 where
  pub executed : Option ExecutionBatch
  pub routed : Option RouteBatch
  pub snapshot : Option SwapBookSnapshot
  pub stopped : Bool

-- Steps 3 and 4 of a tick: the external pass, and the snapshot.
unfoldable pub finish_tick : Matcher → TickInput → ℕ → Option ExecutionBatch → Matcher × TickOutput
finish_tick m input now executed =
    let (book', routed, gone) =
      external_pass m.engine.book m.raw_notes input.quotes input.route_outcome now in
    let routed_m = record (set_book m book') { routing = if gone then false else true } in
    if m.routing
    then (
      routed_m,
      record {
        executed = executed;
        routed = routed;
        snapshot = some (snapshot_best_levels book');
        stopped = false;
      },
    )
    else (
      m,
      record {
        executed = executed;
        routed = none;
        snapshot = some (snapshot_best_levels m.engine.book);
        stopped = false;
      },
    )

unfoldable pub after_match : Matched → TickInput → ℕ → Matcher × TickOutput
after_match (m, executed, stop) input now =
    if stop
    then (m, record { executed = executed; routed = none; snapshot = none; stopped = true })
    else finish_tick m input now executed

-- The clock does not run backwards, inbound events come first, then the notes that timed out.
unfoldable pub begin_tick : Matcher → TickInput → ℕ → Matcher
begin_tick m input now =
    let synced =
      take_orders (drop_consumed (record m { last_now = now }) input.consumed) input.now_unix
        input.orders in
    if synced.routing
    then set_book synced
        (reactivate_parked_older_than synced.engine.book input.inflight_ttl_ms now).0
    else synced

unfoldable pub tick : HashOrder → ℕ → Matcher → TickInput → Option (Matcher × TickOutput)
tick order fuel m input =
    let now = max m.last_now input.now_millis in
    internal_match order fuel (begin_tick m input now) input.prices input.now_unix input.exec_open
    >>= λ matched. some (after_match matched input now)
