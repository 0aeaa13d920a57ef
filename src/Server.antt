-- ===== src/Server.antt =====
-- crates/solver/src/router/server.rs: how connections come to the router and go: the token check,
-- the capacity check, and what `handle_conn` does to the shared state. The upgrade of the socket and
-- its tasks are not modelled. A token is its bytes; the header's value is what the framework gives.
pub mod Connections
pub mod Ids
pub mod Opening
use solver.Prelude.{
  ℕ, suc, ◌+◌, ◌%◌, u64_mod, ◌≡◌, Bool, true, false, ◌||◌, Option, none, some, List, [], ◌∷◌, leb,
  ◌==◌, nat_eq, if◌then◌else◌, ◌>>=◌, is_some,
}
use solver.Prelude.Maps.{Map, get, insert, remove}
use solver.Order.{DexId}
use solver.Matcher.{Bytes, RoutedNote}
use solver.Wire.{MidenLib}
use solver.Router.{RouterState, new_router, deliver, deregister, handle_client_msg}
use solver.Admin.{strip_prefix, ct_eq, bearer}

pub record Server : Type 0 where
  pub router : RouterState
  pub next_dex : DexId
  pub max_connections : ℕ
  pub auth_tokens : List Bytes

unfoldable pub new_server : ℕ → ℕ → List Bytes → Server
new_server quote_ttl_ms max_connections auth_tokens = record {
  router = new_router quote_ttl_ms;
  next_dex = 1;
  max_connections = max_connections;
  auth_tokens = auth_tokens;
}

unfoldable pub any_equal : List Bytes → Bytes → Bool
any_equal [] token = false
any_equal (allowed ∷ others) token = ct_eq allowed token || any_equal others token

unfoldable pub authorized : Server → Option Bytes → Bool
authorized s none = false
authorized s (some token) = any_equal s.auth_tokens token

unfoldable pub bearer_from : Option Bytes → Option Bytes
bearer_from header = header >>= λ value. strip_prefix bearer value

unfoldable pub or_else : Option Bytes → Option Bytes → Option Bytes
or_else (some token) other = some token
or_else none other = other

pub data WsAnswer : Type 0 where
  unauthorized service_unavailable upgrade : WsAnswer

-- The header, and the token of the query.
unfoldable pub ws_handler : Server → Option Bytes → Option Bytes → WsAnswer
ws_handler s header query =
    if authorized s (or_else (bearer_from header) query)
    then (if leb s.max_connections s.router.conn_count then service_unavailable else upgrade)
    else unauthorized

-- The start of `handle_conn`: three updates of the shared state, between which other connections
-- make theirs. The two counters are of 64 bits, and `fetch_add` wraps. The id that a connection takes
-- is `next_dex` before the first update.
unfoldable pub take_dex : Server → Server
take_dex s = record s { next_dex = (s.next_dex + 1) % u64_mod }

unfoldable pub count_conn : Server → Server
count_conn s = record s {
  router = record s.router { conn_count = (s.router.conn_count + 1) % u64_mod };
}

-- The frames of a connection are those of its handovers.
unfoldable pub store_conn : Server → DexId → Server
store_conn s dex = record s { router = record s.router { conns = insert dex [] s.router.conns } }

unfoldable pub read_message : MidenLib → Server → DexId → Bytes → ℕ → Server
read_message lib s dex bytes now = record s {
  router = (handle_client_msg lib s.router dex bytes now).0;
}

unfoldable pub close_conn : Server → DexId → Server
close_conn s dex = record s { router = deregister s.router dex }

-- The ids of connections that have begun.
abbrev pub Begun : Type 0
Begun = Map DexId Bool

-- The server from its start on: connections open, send messages and close, and batches are
-- delivered, in any order. `Reachable n taken counted s`: `n` connections have begun so far, and among
-- them are those of `taken`, which have an id and are not counted, and those of `counted`, which are
-- counted and not stored. A connection closes once, while it is among those that are stored.
pub data Reachable : ℕ → Begun → Begun → Server → Type 1 where
  started :
      (ttl max_connections : ℕ) (auth_tokens : List Bytes)
      → Reachable 0 [] [] (new_server ttl max_connections auth_tokens)
  took_dex :
      {n : ℕ} {taken counted : Begun} {s : Server}
      → Reachable n taken counted s
      → Reachable (suc n) (insert s.next_dex true taken) counted (take_dex s)
  counted_conn :
      {n : ℕ} {taken counted : Begun} {s : Server} (dex : DexId)
      → is_some (get dex taken) ≡ true
      → Reachable n taken counted s
      → Reachable n (remove dex taken) (insert dex true counted) (count_conn s)
  stored_conn :
      {n : ℕ} {taken counted : Begun} {s : Server} (dex : DexId)
      → is_some (get dex counted) ≡ true
      → Reachable n taken counted s
      → Reachable n taken (remove dex counted) (store_conn s dex)
  received :
      {n : ℕ} {taken counted : Begun} {s : Server} (lib : MidenLib) (dex : DexId) (bytes : Bytes)
      (now : ℕ)
      → Reachable n taken counted s
      → Reachable n taken counted (read_message lib s dex bytes now)
  delivered :
      {n : ℕ} {taken counted : Begun} {s : Server} (items : List RoutedNote)
      → Reachable n taken counted s
      → Reachable n taken counted (record s { router = deliver s.router items })
  closed :
      {n : ℕ} {taken counted : Begun} {s : Server} (dex : DexId)
      → is_some (get dex s.router.conns) ≡ true
      → Reachable n taken counted s
      → Reachable n taken counted (close_conn s dex)
