-- ===== src/Abr.antt =====
-- The control of the bit rate (asynchronix/examples/lib/gcc_nada_estimator.rs).
pub mod Float
pub mod Capacity
pub mod Aimd
pub mod Bounds
pub mod Trend
pub mod Rate
pub mod Gcc
pub mod Steady
pub mod Detection
pub mod Session
mod Tests
mod Runs
