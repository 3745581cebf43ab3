-- ===== src/Ap.antt =====
-- The access point's queues (asynchronix/examples/lib/models_mm1k.rs, `QueueModule`): packets come in
-- from both sides, are assigned to a link, and wait in one queue per station, category and link.
pub mod Packets
pub mod State
pub mod Links
pub mod Selection
pub mod Strategies
pub mod Input
pub mod Counts
pub mod Arrivals
pub mod Stored
mod Tests
pub mod Handled
pub mod Aggregate
pub mod Build
pub mod Parts
pub mod Tallies
pub mod Taken
pub mod Drawn
pub mod Gained
pub mod Sources
pub mod Removal
pub mod Returned
pub mod Keys
pub mod Owned
pub mod Conserved
pub mod Upward
pub mod Finished
pub mod Retained
pub mod Involved
pub mod Downward
mod Runs
pub mod Overflow
pub mod Blocked
pub mod Service
pub mod Ends
pub mod Fronts
pub mod Servable
pub mod Turn
pub mod Served
mod Samples
mod Slots
