-- ===== src/Durability.antt =====
-- crates/blitz-server/src/durability.rs: durability.
pub mod Payload
pub mod Replay
pub mod Cluster
pub mod Recovered
