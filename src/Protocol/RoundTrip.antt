-- ===== src/Protocol/RoundTrip.antt =====
-- What is written is read back: parts, values, messages and frames.
pub mod Parts
pub mod Json
pub mod Values
pub mod Maps
pub mod Messages
pub mod Frames
pub mod Exchange
