-- ===== src/Tx.antt =====
-- crates/blitz-tx: transactions, and the manager that commits them into the engine.
pub mod Transaction
pub mod Manager
