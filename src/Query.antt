-- ===== src/Query.antt =====
-- crates/blitz-query: queries over rows in memory.
pub mod Planner
pub mod Like
pub mod Sort
pub mod Match
pub mod Aggregate
pub mod Executor
