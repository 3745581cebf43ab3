-- ===== src/Control.antt =====
-- The control socket between headset and server (asynchronix/examples/lib/alvr_control_socket.rs), and
-- the report that rides in a tracking packet (asynchronix/examples/lib/nada_report.rs).
pub mod Framing
pub mod Framed
pub mod Receiving
pub mod Report
pub mod Reported
mod Tests
