-- ===== src/Emu.antt =====
-- The emulated network (asynchronix/examples/lib/models_mm1k.rs, `EmulatedLink` and
-- `QueueMechanism`): a queue between a station and the access point that delays, paces and drops.
pub mod Link
pub mod Waiting
pub mod Drain
mod Tests
