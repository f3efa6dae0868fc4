-- ===== src/Core.antt =====
-- crates/blitz-core: the in-memory tables and the engine that the server and the transactions use.
pub mod HashIndex
pub mod Pool
pub mod Table
pub mod Engine
