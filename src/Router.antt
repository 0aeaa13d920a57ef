-- ===== src/Router.antt =====
-- crates/solver/src/router/server.rs: the quotes of the router and their snapshot. A connection is
-- the fact that its writer is open; the frames that it is sent are kept per DEX, newest last. The
-- sockets, the token check and the tasks around them are not modelled.
pub mod Sorting
pub mod Published
pub mod Complete
use solver.Prelude.{
  ℕ, ◌-◌, ◌*◌, Bool, false, ◌||◌, Option, none, some, List, [], ◌∷◌, ◌++◌, min, leb, ◌==◌, nat_eq,
  pair_eq, if◌then◌else◌, is_some, sat_add64,
}
use solver.Prelude.Maps.{Map, get, insert, remove, update_entry}
use solver.Order.{TokenId, DexId, Amount}
use solver.Book.{Pair}
use solver.Select.{Quote}
use solver.Matcher.{QuotesSnapshot, RoutedNote, Bytes}
use solver.Wire.{MidenLib, ClientMsg, quote, read_client}

-- crates/lp-sdk/src/protocol.rs: the errors that the router replies with, by their code.
pub data ErrorCode : Type 0 where
  bad_message bad_quote : ErrorCode

pub record RouterState : Type 0 where
  pub quote_ttl_ms : ℕ
  pub quotes : Map DexId (Map Pair Quote)
  pub conns : Map DexId (List (Bytes × Amount))
  pub conn_count : ℕ
  pub published : QuotesSnapshot

unfoldable pub new_router : ℕ → RouterState
new_router quote_ttl_ms = record {
  quote_ttl_ms = quote_ttl_ms;
  quotes = [];
  conns = [];
  conn_count = 0;
  published = [];
}

-- The comparison of `sort_by`: `q` may stand before `r`.
unfoldable pub no_less_generous : Quote → Quote → Bool
no_less_generous q r = leb (r.supply * q.demand) (q.supply * r.demand)

-- `sort_by` is stable: an earlier quote stays before a later one of the same rate.
unfoldable pub insert_quote : Quote → List Quote → List Quote
insert_quote q [] = q ∷ []
insert_quote q (r ∷ rs) =
    let later = r ∷ insert_quote q rs in if no_less_generous q r then q ∷ r ∷ rs else later

unfoldable pub sort_quotes : List Quote → List Quote
sort_quotes [] = []
sort_quotes (q ∷ qs) = insert_quote q (sort_quotes qs)

unfoldable pub group_quotes : Map Pair Quote → QuotesSnapshot → QuotesSnapshot
group_quotes [] by_pair = by_pair
group_quotes ((pair, q) ∷ m) by_pair =
    group_quotes m (update_entry pair [] (λ list. list ++ q ∷ []) by_pair)

unfoldable pub group_all : Map DexId (Map Pair Quote) → QuotesSnapshot → QuotesSnapshot
group_all [] by_pair = by_pair
group_all ((dex, per_pair) ∷ m) by_pair = group_all m (group_quotes per_pair by_pair)

unfoldable pub sort_values : QuotesSnapshot → QuotesSnapshot
sort_values [] = []
sort_values ((pair, list) ∷ m) = (pair, sort_quotes list) ∷ sort_values m

unfoldable pub republish : RouterState → RouterState
republish s = record s { published = sort_values (group_all s.quotes []) }

-- `valid_for_ms.map(|v| v.min(ttl)).unwrap_or(ttl)`
unfoldable pub quote_ttl : Option ℕ → ℕ → ℕ
quote_ttl none ttl = ttl
quote_ttl (some v) ttl = min v ttl

-- The quote of the DEX's side, turned to the note's.
unfoldable pub quote_of :
    RouterState → DexId → TokenId × Amount → TokenId × Amount → Option ℕ → ℕ → Quote
quote_of s dex offered requested valid_for_ms now = record {
  dex = dex;
  pair = (requested.0, offered.0);
  supply = offered.1;
  demand = requested.1;
  expires_at = sat_add64 now (quote_ttl valid_for_ms s.quote_ttl_ms);
}

unfoldable pub register_quote :
    RouterState
    → DexId
    → TokenId × Amount
    → TokenId × Amount
    → Option ℕ
    → ℕ
    → RouterState × Option ErrorCode
register_quote s dex offered requested valid_for_ms now =
    let q = quote_of s dex offered requested valid_for_ms now in
    if offered.1 == 0 || requested.1 == 0
    then (s, some bad_quote)
    else (republish (record s { quotes = update_entry dex [] (insert q.pair q) s.quotes }), none)

-- The frames of a batch go to the connections that are there.
unfoldable pub send_frames :
    Map DexId (List (Bytes × Amount)) → List RoutedNote → Map DexId (List (Bytes × Amount))
send_frames conns [] = conns
send_frames conns (item ∷ items) = elim (get item.dex conns) [
  | none ↦ send_frames conns items
  | some frames ↦
      send_frames (insert item.dex (frames ++ (item.note_bytes, item.fill) ∷ []) conns) items
]

-- Each quote that was used goes; the flag tells whether one was there.
unfoldable pub use_quotes :
    Map DexId (Map Pair Quote) → Bool → List RoutedNote → Map DexId (Map Pair Quote) × Bool
use_quotes quotes consumed [] = (quotes, consumed)
use_quotes quotes consumed (item ∷ items) = elim (get item.dex quotes) [
  | none ↦ use_quotes quotes consumed items
  | some m ↦
      use_quotes (insert item.dex (remove item.pair m) quotes)
        (consumed || is_some (get item.pair m)) items
]

unfoldable pub deliver : RouterState → List RoutedNote → RouterState
deliver s items =
    let (quotes', consumed) = use_quotes s.quotes false items in
    let delivered = record s { conns = send_frames s.conns items; quotes = quotes' } in
    if consumed then republish delivered else delivered

unfoldable pub deregister : RouterState → DexId → RouterState
deregister s dex = republish (record s {
  conns = remove dex s.conns;
  quotes = remove dex s.quotes;
  conn_count = s.conn_count - 1;
})

-- One decoded message of a connection, and the error that goes back to it. `bytes` are read by the
-- SDK's `ClientMsg`, whatever follows the message in them.
unfoldable pub handle_client_msg :
    MidenLib → RouterState → DexId → Bytes → ℕ → RouterState × Option ErrorCode
handle_client_msg lib s dex bytes now = elim (read_client lib bytes) [
  | none ↦ (s, some bad_message)
  | some (quote offered requested valid_for_ms, rest) ↦
      register_quote s dex offered requested valid_for_ms now
]
