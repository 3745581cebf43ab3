-- ===== src/Client.antt =====
-- The headset's side of a session, and its station (asynchronix/examples/lib/models_XR.rs).
pub mod Queue
pub mod Newest
pub mod Playback
pub mod InOrder
pub mod Station
pub mod Numbered
mod Tests
