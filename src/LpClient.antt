-- ===== src/LpClient.antt =====
-- crates/lp-sdk/src/client.rs: a client's quoting loop and the supervisor that reconnects. A
-- connection's end, its uptime, the outcome of a reconnection and what is queued meanwhile are
-- inputs; times are in milliseconds. `run_connection` and its two loops are sockets and tasks; of
-- the events, those of the supervisor and the mapping of a server's message are here.
pub mod Reconnect
use solver.Prelude.{
  ℕ, zero, suc, ◌+◌, ◌*◌, ◌-◌, Bool, true, false, ◌||◌, Option, none, some, List, [], ◌∷◌, ◌++◌,
  ◌==◌, nat_eq, min, leb, if◌then◌else◌, u32_mod, ◌>>=◌,
}
use solver.Order.{TokenId, Amount}
use solver.Matcher.{Bytes}
use solver.Wire.{Asset, PairSpec, ClientMsg, quote, ServerMsg, auth_ok, ask, handover, error}

abbrev pub reconnect_min : ℕ
reconnect_min = 500

abbrev pub reconnect_max : ℕ
reconnect_max = 30 * 1000

abbrev pub stable_uptime : ℕ
stable_uptime = 10 * 1000

pub data LpEvent (Note : Type 0) : Type 0 where
  lp_auth_ok : LpEvent Note
  lp_ask : List PairSpec → LpEvent Note
  lp_handover : Note → Amount → LpEvent Note
  lp_error : Bytes → Bytes → LpEvent Note
  reconnecting : ℕ → LpEvent Note
  reconnected : LpEvent Note
  disconnected : LpEvent Note

unfoldable pub event_of : {Note : Type 0} → ServerMsg Note → LpEvent Note
event_of auth_ok = lp_auth_ok
event_of (ask pairs) = lp_ask pairs
event_of (handover note fill_amount) = lp_handover note fill_amount
event_of (error code msg) = lp_error code msg

-- A frame that the reader loop takes: `none` cannot be decoded, and `AuthOk` is not reported again.
unfoldable pub read_frames : {Note : Type 0} → List (Option (ServerMsg Note)) → List (LpEvent Note)
read_frames [] = []
read_frames (none ∷ frames) = read_frames frames
read_frames (some auth_ok ∷ frames) = read_frames frames
read_frames (some (ask pairs) ∷ frames) = event_of (ask pairs) ∷ read_frames frames
read_frames (some (handover note fill_amount) ∷ frames) =
    event_of (handover note fill_amount) ∷ read_frames frames
read_frames (some (error code msg) ∷ frames) = event_of (error code msg) ∷ read_frames frames

-- The answer to a quote: it is queued, refused, or the client is gone.
pub data QuoteResult : Type 0 where
  queued : ClientMsg → QuoteResult
  invalid_quote closed : QuoteResult

unfoldable pub send_quote : Bool → Asset → Asset → Option ℕ → QuoteResult
send_quote gone offered requested valid_for_ms =
    if offered.1 == 0 || requested.1 == 0
    then invalid_quote
    else if gone
    then closed
    else queued (quote offered requested valid_for_ms)

unfoldable pub queue_of : QuoteResult → List ClientMsg
queue_of (queued msg) = msg ∷ []
queue_of invalid_quote = []
queue_of closed = []

-- One tick of the quoting loop, while the client is there: the messages that it queues. `new_asset`
-- is `FungibleAsset::new`.
unfoldable pub quote_pair :
    (TokenId → Amount → Option Asset) → PairSpec → Option (Amount × Amount) → List ClientMsg
quote_pair new_asset pair none = []
quote_pair new_asset pair (some amounts) = elim (new_asset pair.offered amounts.0) [
  | none ↦ []
  | some offered ↦ elim (new_asset pair.requested amounts.1) [
    | none ↦ []
    | some requested ↦ queue_of (send_quote false offered requested none)
  ]
]

unfoldable pub quote_tick :
    (TokenId → Amount → Option Asset)
    → (PairSpec → Option (Amount × Amount))
    → List PairSpec
    → List ClientMsg
quote_tick new_asset price [] = []
quote_tick new_asset price (pair ∷ pairs) =
    quote_pair new_asset pair (price pair) ++ quote_tick new_asset price pairs

-- The variables of the supervisor.
pub record Backoff : Type 0 where
  pub attempt : ℕ
  pub delay : ℕ

unfoldable pub first_backoff : Backoff
first_backoff = record { attempt = 0; delay = reconnect_min }

-- A connection that stayed up long enough resets the backoff.
unfoldable pub after_uptime : ℕ → Backoff → Backoff
after_uptime uptime b = if leb stable_uptime uptime then first_backoff else b

unfoldable pub next_attempt : Backoff → Backoff
next_attempt b = record {
  attempt = min (b.attempt + 1) (u32_mod - 1);
  delay = min (b.delay * 2) reconnect_max;
}

-- What ends an attempt: the client was dropped before it, or the socket is there, the token is
-- rejected, or the connection fails.
pub data Attempt : Type 0 where
  client_dropped connected auth_rejected transport_error : Attempt

-- What a backoff leads to, what it slept, and its events.
pub record Reconnection (Note : Type 0) : Type 0 where
  pub live : Option Backoff
  pub slept : List ℕ
  pub events : List (LpEvent Note)

unfoldable pub after_attempt : {Note : Type 0} → Backoff → Reconnection Note → Reconnection Note
after_attempt b r = record {
  live = r.live;
  slept = b.delay ∷ r.slept;
  events = reconnecting (next_attempt b).attempt ∷ r.events;
}

unfoldable pub ends : {Note : Type 0} → Option Backoff → List (LpEvent Note) → Reconnection Note
ends live events = record { live = live; slept = []; events = events }

-- The inner loop, for the attempts that it makes; no attempt left stands for the loop still waiting.
unfoldable pub reconnect : {Note : Type 0} → Backoff → List Attempt → Reconnection Note
reconnect b [] = ends none []
reconnect b (client_dropped ∷ attempts) = ends none []
reconnect b (connected ∷ attempts) = after_attempt b (ends (some (next_attempt b)) [])
reconnect b (auth_rejected ∷ attempts) = after_attempt b (ends none (disconnected ∷ []))
reconnect b (transport_error ∷ attempts) = after_attempt b (reconnect (next_attempt b) attempts)

-- How one connection goes: what the client queues while it is up and how many of these messages the
-- socket takes, the frames that come in, its uptime, whether the client is gone at its end, the
-- attempts to reconnect and what the client queues during them.
pub record Connection (Note : Type 0) : Type 0 where
  pub posted : List ClientMsg
  pub written : ℕ
  pub frames : List (Option (ServerMsg Note))
  pub uptime : ℕ
  pub client_gone : Bool
  pub attempts : List Attempt
  pub posted_meanwhile : List ClientMsg

-- The first messages of a queue, which the sender loop writes in order, and the others.
unfoldable pub write_out : ℕ → List ClientMsg → List ClientMsg × List ClientMsg
write_out zero queue = ([], queue)
write_out (suc n) [] = ([], [])
write_out (suc n) (m ∷ queue) = let (sent, left) = write_out n queue in (m ∷ sent, left)

-- A run of the supervisor: for each connection what went out on it, and all events.
pub record Supervised (Note : Type 0) : Type 0 where
  pub sent : List (List ClientMsg)
  pub slept : List ℕ
  pub events : List (LpEvent Note)

-- `while out_rx.try_recv().is_ok() {}`
unfoldable pub drain : List ClientMsg → List ClientMsg
drain [] = []
drain (m ∷ queue) = drain queue

-- After the attempts to reconnect: the run goes on where they succeeded, and ends otherwise.
unfoldable pub resume :
    {Note : Type 0}
    → List ClientMsg
    → List (LpEvent Note)
    → Reconnection Note
    → (Backoff → Supervised Note)
    → Supervised Note
resume sent seen r again = elim r.live [
  | none ↦ record { sent = sent ∷ []; slept = r.slept; events = seen ++ r.events }
  | some b ↦ record {
    sent = sent ∷ (again b).sent;
    slept = r.slept ++ (again b).slept;
    events = seen ++ (r.events ++ reconnected ∷ (again b).events);
  }
]

unfoldable pub supervise_loop :
    {Note : Type 0} → Backoff → List ClientMsg → List (Connection Note) → Supervised Note
supervise_loop b queue [] = record { sent = []; slept = []; events = [] }
supervise_loop b queue (c ∷ connections) =
    let out = write_out c.written (queue ++ c.posted) in
    let later = drain (out.1 ++ c.posted_meanwhile) in
    if c.client_gone
    then record { sent = out.0 ∷ []; slept = []; events = read_frames c.frames }
    else resume out.0 (read_frames c.frames) (reconnect (after_uptime c.uptime b) c.attempts)
        (λ b'. supervise_loop b' later connections)

unfoldable pub supervise : {Note : Type 0} → List (Connection Note) → Supervised Note
supervise connections =
    let r = supervise_loop first_backoff [] connections in
    record r { events = lp_auth_ok ∷ r.events }
