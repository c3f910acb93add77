-- ===== src/Persist.antt =====
-- The file of the history: `HistoryFile` of crates/mr-crabs-history/src/persist.rs. `S` is the type of
-- the styles. The calls of serde_json and lz4_flex are the record `Codec`. A target of little-endian
-- memory is taken for the bytes of the cells.
pub mod Bytes
pub mod Format
pub mod Encode
pub mod Decode
pub mod Lines
pub mod Chunks
pub mod Cutting
pub mod Loop
pub mod Written
pub mod RoundTrip
pub mod Capture
pub mod Tests
