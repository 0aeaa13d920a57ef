-- ===== src/Lib.antt =====
-- A verification library for the solver: the matching core of an intent matcher for partially
-- fillable swap notes, and the parts around it that decide which order goes where.
--
-- The parts and how they interact. Ingest stores the orders that a sync brings and sends the new
-- ones to the matcher, which keeps them in an order book. On every tick the matcher drops consumed notes, adds new ones, reactivates parked ones whose
-- time is over, runs the matching engine on the book (pairwise matching, then cycles of three
-- orders), sends the filled notes as one batch to the executor, and hands whole notes that stay
-- unmatched to external DEXes by the quotes that the router publishes. The batch settles in one
-- transaction, so of each token its orders have to release what its orders were filled with. The
-- executor checks that, submits the transaction, and keeps the stored status of each order in step;
-- what was not settled goes back to the matcher. The admin interface keeps the registered tokens,
-- and the price loop the prices by which the matcher decides.
--
-- Files, and the code they model (paths from the root of the repository):
--   Prelude      shared tests, options, lists, words, division, and maps as association lists
--   Order        crates/solver/src/matching/types.rs: `Order` and its methods, `RateKey`,
--                `MatchResult`. Order/Rate, Fill, Release, Match hold the theorems on them.
--   Levels       crates/solver/src/matching/order_book.rs: the `BTreeMap` of one pair in
--                `pair_index`. Levels/Ids, Sorted and Best: the ids it holds, its order,
--                and its best id.
--   Book         crates/solver/src/matching/order_book.rs: `OrderBook`, one function per method,
--                which returns the book it leaves; Book/Views has the read-only methods. The
--                children Frame, Evolution, Matching, Sound and Solvency are about a match, Best about
--                the best order, Intake about new ones, Park and Reactivate about parking.
--   Direct       crates/solver/src/matching/direct_matching.rs; Direct/Progress, Direct/Solvency.
--   Cycle        crates/solver/src/matching/three_edge_cycle.rs: Simulate (one cycle), Entries
--                (triangles and their enumeration), Run (the heap and the execution). Theorems are
--                in Flow, Solvency, Deficit and Canonical.
--   Engine       crates/solver/src/matching/engine.rs
--   Matcher      crates/solver/src/matcher/matcher.rs, with the messages of
--                crates/solver/src/types.rs and crates/solver/src/router/mod.rs: one tick.
--                Matcher/Rollback is about the external pass.
--   Select       crates/solver/src/router/select.rs; Select/Chosen, Capacity, Willing.
--   Router       crates/solver/src/router/server.rs: the operations on `RouterState`.
--                Router/Sorting and Published are about the snapshot, and
--                Router/Complete about selection on it.
--   SwapEta      crates/solver/src/swap_eta.rs; SwapEta/Window, SwapEta/Crossing.
--   Tokens       crates/solver/src/order.rs
--   Status       crates/solver/src/types.rs: `OrderStatus`
--   Mirror       crates/mock-mirror/src/mirror.rs: `favorable_counter`
--   Wire         crates/lp-sdk/src/protocol.rs: the messages between the router and the DEXes, over
--                a parameter for the serialisation of the Miden crates; Wire/RoundTrip.
--   Db           crates/solver/src/db/db.rs, models.rs: the tables and the queries on them;
--                Db/Registry has those on the registered tokens. Db/Statuses and Db/Inserts are
--                about the order table.
--   Ingest       crates/solver/src/ingest/ingest.rs: an iteration and the loop, with
--                `Order::from_note` of crates/solver/src/types.rs; Ingest/Steps,
--                Once and Closing.
--   Flow         crates/solver/src/executor/executor.rs: `prepare_batch_components`, the solvency
--                check of a batch. Flow/Terms, Net, Solvency, Complete and Lengths are about it.
--   Submit       the same file: `submit_with_rpc_backoff`; Submit/Attempts.
--   Executor     the same file: `execute_batch` and `run_executor`. Executor/Refeed, Rows,
--                Branches, Within, Elsewhere and Writes are about the orders of a batch and the others.
--   Lifecycle    ingest, executor and recovery as steps on one database
--   Admin        crates/solver/src/admin/admin.rs: the handlers; Admin/Coherent.
--   Price        crates/solver/src/matching/price_feed.rs and crates/solver/src/price/price.rs;
--                Price/Fetch: crates/solver/src/price/coingecko.rs.
--   Pipeline     crates/solver/src/pipeline.rs: `prepare_db`, `subscribe_all_pairs`; Pipeline/Boot.
--   Adapter      crates/solver/src/ingest/ingest.rs: `MidenClientAdapter`
--   Server       crates/solver/src/router/server.rs: connections; Server/Ids,
--                Opening and Connections.
--   LpClient     crates/lp-sdk/src/client.rs: quoting and reconnection; LpClient/Reconnect.
--   Examples     concrete books, quotes and queues, and the theorems at them
--
-- How the code is represented. Ids of notes, tokens and connections are numbers, of which only
-- equality and order are used. Amounts are numbers; a product of two `u64`s fits `u128`, so such
-- products carry no wrap-around, and casts back to `u64`, saturating and checked operations are
-- written out. A method on `&mut self` returns the state that it leaves. Hash maps are association
-- lists and hash sets lists without repetition; where the order of a visit to a set decides what
-- happens first, the order is a parameter. A missing id that panics in the code gives `none`. Rust
-- panics on division by zero, which `IsValid` excludes: ingest refuses orders with a zero amount.
-- `usize` has 64 bits, and the router's two counters wrap at them. The three updates with which a
-- connection opens are steps of their own; a quote, a delivery and a disconnection are one step each,
-- with the broadcast of the snapshot that the code makes after it releases the lock.
--
-- Fuel. The loop of direct matching takes fuel, and one more than the sum of what all orders have
-- left to fill is enough, since every successful match lowers that sum. The heap loop of triangular
-- matching takes fuel too, and `none` says that it ran out.
--
-- The submission loop takes the number of attempts that are left; its six are enough for an
-- outcome, which is proved.
--
-- Other people's code. The Miden client, its note library and the PSWAP library, diesel, the HTTP
-- client and the web framework are not in the repository. What they answer is an input of the
-- functions (`IngestInput`, `ExecInput`, `Chain`, `HttpAnswer`), or a field of a parameter (`MidenLib`,
-- `PswapLib`), and every call that can fail has an input that says whether it does.
--
-- What solvency means here. A book is solvent if for each token the fills of all its orders release
-- at least what the orders that ask for it were filled with and the protocol's balance of it. It is
-- what the executor asks of a batch.
--
-- Not modelled: the tasks, channels, locks and sockets themselves, the connections of the database,
-- the price query interface, the loading of the configuration and the wiring at start-up, whose code
-- calls third-party libraries; the diagnostics that the executor logs; the floating-point prices,
-- their rounding and the off-market test on them; the note consumer of the SDK; and the test
-- harnesses but for the mirror's arithmetic.
pub mod Prelude
pub mod Order
pub mod Levels
pub mod Book
pub mod Direct
pub mod Cycle
pub mod Engine
pub mod Select
pub mod SwapEta
pub mod Matcher
pub mod Router
pub mod Tokens
pub mod Mirror
pub mod Status
pub mod Examples
pub mod Wire
pub mod Db
pub mod Ingest
pub mod Flow
pub mod Submit
pub mod Executor
pub mod Lifecycle
pub mod Admin
pub mod Price
pub mod Pipeline
pub mod LpClient
pub mod Adapter
pub mod Server
