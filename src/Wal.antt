-- ===== src/Wal.antt =====
-- crates/blitz-wal: the format of the write-ahead log, and the log over its file.
pub mod Reader
pub mod Codec
pub mod Log
