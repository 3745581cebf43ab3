-- ===== src/Lib.antt =====
-- The transport, codec and medium-access core of SiEStA-VR, a simulator of virtual-reality
-- streaming over Wi-Fi.
--
-- A server cuts each video frame into shards and sends them over a channel; a headset puts the
-- shards together again, hands the frames over in order, and gives up those that are late. Between
-- them an access point queues the packets, and stations contend for its links by 802.11's EDCA; an
-- emulated link may delay or drop packets on their way. The frames come from an encoder whose output
-- is cut into units; the random draws are from SplitMix64 streams. The headset shows the frames at
-- its own pace and reports back on a control socket, and a controller sets the bit rate. Paths are
-- from the repository's root.
--
-- Shard.antt: asynchronix/examples/lib/alvr_stream_socket.rs.
--   Shard/Prefix: `parse_shard_data` and the prefix that `StreamSender::send` writes.
--   Shard/Tracker: `FrameTracker::insert`, the instants of the frames that were sent.
--   Shard/Sender: `StreamSender::send` with its loop over the shards; Shard/Slices and
--   Shard/Sending: what it puts on the channel; Shard/Parsing: what the parser makes of that.
--   Shard/Order: `wrapping_cmp` and `StreamReceiver::recv`; Shard/Delivery: runs of `recv`.
--   Shard/Buffered: `BufferedReceiver`, one message of look-ahead over a crossbeam channel.
--   Shard/Assembly: the part of `StreamSocket::recv` that stores a shard; Shard/Reassembly,
--   Shard/Collect, Shard/Messages and Shard/RoundTrip: a frame from its shards in any order.
--   Shard/Receiver and Shard/Reception: `StreamSocket::recv`, `sweep_expired_deadlines`,
--   `flush_shards_lost_deadline`; Shard/Deadline, Shard/Reading, Shard/Packets and Shard/Total:
--   sweeps, and a whole call of `recv`.
-- Mac.antt: asynchronix/examples/lib/models_mm1k.rs.
--   Mac/Edca: `EdcaParam`, `EDCA_TABLE`, `aifs`, and `ac_prio` of lib/mod.rs.
--   Mac/Backoff and Mac/Retries: `DcfStats`; Mac/Medium: `Medium`.
--   Mac/Tick: `tick_backoff`; Mac/Slots: many slots of one station; Mac/Rounds and Mac/Contenders: one
--   slot of all; Mac/Reach: a contention state from its start on.
--   Mac/Virtual, Mac/Winners, Mac/Resolved, Mac/Failures and Mac/Losers: `resolve_virtual_collision`.
-- Ap.antt: asynchronix/examples/lib/models_mm1k.rs, the access point's `QueueModule`.
--   Ap/Packets: `MpduPacket` of lib/mod.rs; Ap/State: the state and its small operations.
--   Ap/Links, Ap/Selection and Ap/Strategies: `select_link_for_packet` and its strategies.
--   Ap/Input: `cache_input_packet`, `input`, `input_UL`; Ap/Counts, Ap/Stored, Ap/Handled and
--   Ap/Arrivals: what becomes of a packet that comes in.
--   Ap/Aggregate and Ap/Build: `build_new_ampdu`; Ap/Parts, Ap/Taken, Ap/Drawn, Ap/Sources,
--   Ap/Gained and Ap/Keys: what it takes; Ap/Tallies: which packets the queues hold; Ap/Removal, Ap/Retained, Ap/Involved and Ap/Returned: what leaves the queues and what
--   goes back; Ap/Owned, Ap/Conserved, Ap/Finished, Ap/Upward and Ap/Downward: the whole of it.
--   Ap/Overflow, Ap/Service: `deque_schedule_service` and `send_ampdu`; Ap/Blocked and Ap/Ends: the
--   overflow check, a collision, and the end of a transmission; Ap/Fronts, Ap/Servable, Ap/Turn and
--   Ap/Served: a link's turn in a slot.
-- Emu.antt: asynchronix/examples/lib/models_mm1k.rs, `EmulatedLink` and `QueueMechanism`.
--   Emu/Link: the queue and its drain; Emu/Waiting and Emu/Drain: what comes in and what leaves.
-- Codec.antt: asynchronix/examples/lib/mod.rs.
--   Codec/Hevc: `HevcParser`; Codec/Scan, Codec/Units and Codec/Chunks: streams that come in pieces.
--   Codec/Av1: `Av1Parser`; Codec/Obus, Codec/Leb and Codec/RoundTrip: its units and their sizes.
--   Codec/Keyframe and Codec/Detected: `is_keyframe` and `HevcDecoder` of lib/models_XR.rs;
--   Codec/Sets and Codec/Extracted: its `extract_complete_parameter_sets`.
-- Client.antt: asynchronix/examples/lib/models_XR.rs.
--   Client/Queue and Client/Newest: `DroppingVecDeque`; Client/Playback and Client/InOrder: how
--   `XRClient` fills, shows and clears it; Client/Station and Client/Numbered: `STA_extended`.
-- Abr.antt: asynchronix/examples/lib/gcc_nada_estimator.rs.
--   Abr/Float: the `f64` operations; Abr/Capacity: `LinkCapacityEstimator`; Abr/Aimd and Abr/Bounds:
--   `AimdRateControl`; Abr/Trend, Abr/Steady and Abr/Detection: `TrendlineEstimator`; Abr/Rate:
--   `BitrateEstimator`; Abr/Gcc and Abr/Session: `GccBandwidthEstimator`.
-- Control.antt: asynchronix/examples/lib/alvr_control_socket.rs and nada_report.rs.
--   Control/Framing, Control/Framed and Control/Receiving: `framed_send`, `framed_recv`,
--   `framed_recv_vec`; Control/Report and Control/Reported: `NadaTimerReport`.
-- Rng.antt: asynchronix/examples/lib/sim_rng.rs.
--   Rng/SplitMix: `mix64`, the tags, `SimRng`; Rng/Streams: its draws; Rng/Run and
--   Rng/Shared: `RunRng`.
-- The Tests, Runs and Samples modules, Ap/Slots and Codec/Keyframes, apply the theorems at concrete inputs.
-- Common.antt: Boolean tests, lists over the native naturals, bytes, outcomes, association lists.
--
-- State is passed explicitly. A hash map is an association list, walked in its own order; a channel
-- is a list of messages; an instant is a number of nanoseconds; an `f32` that is only carried is
-- its bit pattern. Words keep their width by an explicit remainder, and where a debug build panics
-- on overflow the model wraps as a release build does, unless a comment says otherwise. A failed
-- `unwrap` or slice is the outcome `panic`, and a loop that waits for ever is `hang`. Loops are
-- structural recursion: on the number of shards in `send`, on the messages there are in the loop
-- that reads a shard (each round takes one, so the list is enough), on fuel in the parsers, where
-- each round takes bytes off the buffer, so that their number is enough, and on fuel in
-- `framed_recv`, which waits for the clock: it needs as many rounds as the clock does to pass the
-- deadline.
--
-- Parameters: the `f32` operations of `send` (Shard/Sender, `Float32`), the conversions of
-- stamps and instants and the settings of client_deadline.rs (Shard/Receiver, `Deadlines`), and the draws of the rand
-- crate, `gen_range` (Mac/Backoff, `Draw`) and `gen_bool` (Ap/Links, `Coin`), and the airtime and the
-- loss of an A-MPDU, in `f64` (Ap/Aggregate, `Radio`), the length of a collision (Ap/Service), and
-- the patterns of an emulated link, in `f64` as well (Emu/Link, `Patterns`); the substring search of
-- the memchr crate (Codec/Keyframe); the draws and times of background traffic (Client/Station,
-- `Traffic`); the `f64` operations of the rate control and what is documented of them (Abr/Float,
-- `Float64` and `Laws`); bincode (Control/Framing, `Bincode`) and the readings of the clock there.
--
-- Not modelled: the simulator asynchronix itself, the floating-point statistics, the bit-rate
-- controllers but the one above, the viewer, logs, traces and command lines, and the models of the
-- headset, the server and the access point beyond the parts above.
pub mod Common
pub mod Shard
pub mod Mac
pub mod Ap
pub mod Emu
pub mod Codec
pub mod Client
pub mod Abr
pub mod Control
pub mod Rng
