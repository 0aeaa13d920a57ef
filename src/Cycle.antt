-- ===== src/Cycle.antt =====
-- crates/solver/src/matching/three_edge_cycle.rs: triangular matching, in its parts: the
-- simulation of one cycle, the entries of the heap, and the execution loop.
pub mod Simulate
pub mod Entries
pub mod Run
pub mod Flow
pub mod Solvency
pub mod Deficit
pub mod Canonical
