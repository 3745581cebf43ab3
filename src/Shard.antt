-- ===== src/Shard.antt =====
-- The sharded stream socket (asynchronix/examples/lib/alvr_stream_socket.rs): a frame is cut into
-- shards by `StreamSender::send`, carried by a channel, put together again by `StreamSocket::recv`
-- and handed over in order by `StreamReceiver::recv`.
pub mod Prefix
pub mod Tracker
pub mod Sender
pub mod Slices
pub mod Sending
pub mod Parsing
pub mod Order
pub mod Delivery
pub mod Buffered
pub mod Assembly
pub mod Reassembly
pub mod Collect
pub mod Messages
pub mod RoundTrip
pub mod Receiver
pub mod Reception
pub mod Deadline
pub mod Reading
pub mod Packets
pub mod Total
mod Tests
mod Runs
