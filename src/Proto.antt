-- ===== src/Proto.antt =====
-- desktop/src/proto.rs: the wire protocol. JSON is written and read by serde_json, which is a
-- parameter: `Serde`, one writer and one reader for each struct.
pub mod Bytes
pub mod Message
pub mod Codec
pub mod Bounds
pub mod RoundTrip
