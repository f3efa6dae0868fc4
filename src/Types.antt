-- ===== src/Types.antt =====
-- crates/blitz-types: values, column definitions, schemas and rows.
pub mod Interface
pub mod Value
pub mod Schema
pub mod Row
