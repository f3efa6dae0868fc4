-- ===== src/Protocol.antt =====
-- crates/blitz-protocol: the messages of the binary protocol, their bytes and their frames.
pub mod Message
pub mod Wire
pub mod Writer
pub mod Decoder
pub mod Codec
pub mod RoundTrip
