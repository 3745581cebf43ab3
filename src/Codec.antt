-- ===== src/Codec.antt =====
-- The parsers that cut an encoder's output into units and frames (asynchronix/examples/lib/mod.rs).
pub mod Hevc
pub mod Scan
pub mod Units
pub mod Chunks
pub mod Av1
pub mod Obus
pub mod Leb
pub mod RoundTrip
pub mod Sets
pub mod Extracted
pub mod Keyframe
pub mod Detected
mod Keyframes
mod Tests
