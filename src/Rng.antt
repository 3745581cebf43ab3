-- ===== src/Rng.antt =====
-- The simulation's random numbers (asynchronix/examples/lib/sim_rng.rs): SplitMix64 streams.
pub mod SplitMix
pub mod Streams
pub mod Run
pub mod Shared
mod Tests
