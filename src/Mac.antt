-- ===== src/Mac.antt =====
-- The medium access of the queue model (asynchronix/examples/lib/models_mm1k.rs): access categories,
-- one contention state per station, category and link, the links' mediums, and the slot tick that
-- counts the back-offs down.
pub mod Edca
pub mod Backoff
pub mod Retries
pub mod Medium
pub mod Tick
pub mod Slots
pub mod Rounds
pub mod Contenders
pub mod Virtual
pub mod Winners
pub mod Failures
pub mod Resolved
pub mod Losers
pub mod Reach
mod Tests
