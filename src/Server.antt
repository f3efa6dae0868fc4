-- ===== src/Server.antt =====
-- crates/blitz-server/src/server.rs: the server's own state and the rules of its requests.
pub mod Ids
pub mod Access
pub mod Window
pub mod Changes
pub mod Limits
pub mod Routing
