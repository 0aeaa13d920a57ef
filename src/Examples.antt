-- ===== src/Examples.antt =====
-- Concrete books, quotes and queues, the tests on them, and the theorems at concrete inputs.
pub mod Data
mod Orders
mod Matching
mod Cycles
mod Priority
mod Routing
mod Requests
mod Wire
mod Settling
mod Storage
mod Registry
mod Links
