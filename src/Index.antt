-- ===== src/Index.antt =====
-- crates/blitz-index: secondary indexes, from a value to the ids of the rows that have it.
pub mod Entries
pub mod Hash
pub mod Refines
