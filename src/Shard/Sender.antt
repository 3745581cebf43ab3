-- ===== src/Shard/Sender.antt =====
-- `StreamSender::send` (alvr_stream_socket.rs): a frame's buffer is cut into shards in place. The
-- prefix of a shard is written over bytes of the buffer that an earlier shard has carried already.
-- The channel never blocks; `send` on one with no receiver panics, as its `unwrap` does.
use si_est_a_vr.Common.{
  ℕ, zero, suc, ◌+◌, ◌-◌, ◌*◌, ◌/◌, ◌<◌, ◌^◌, min, ◌≡◌, Bool, ◌&&◌, List, [], ◌∷◌, ◌++◌, leb, ◌==◌,
  if◌then◌else◌, length, take, drop, Bytes, u32, Outcome, ok, ◌>>=◌, require,
}
use si_est_a_vr.Shard.Prefix.{ShardPrefix, put_prefix, shard_prefix_size}
use si_est_a_vr.Shard.Tracker.{FrameTracker, insert_frame}

-- The `f32` operations of `send`, which are the processor's: the bits of `Duration::as_secs_f32`
-- of a number of nanoseconds, and `(a as f32 / b as f32).ceil() as usize`. Below 2 ^ 24 the
-- conversions are exact, and a quotient that is no integer does not round to one.
pub record Float32 : Type 0 where
  pub secs_bits : ℕ → ℕ
  pub ceil_div : ℕ → ℕ → ℕ
  pub secs_bits_lt : (ns : ℕ) → secs_bits ns < 2 ^ 32
  pub ceil_div_exact : (a b : ℕ) → a < 2 ^ 24 → 0 < b → ceil_div a b ≡ (a + b - 1) / b

-- A buffer whose first `hidden_offset` bytes are the prefix's place and the header.
pub record Buffer : Type 0 where
  pub inner : Bytes
  pub hidden_offset : ℕ
  pub payload_length : ℕ

-- A channel's queue, oldest message first.
pub record Channel : Type 0 where
  pub pending : List Bytes
  pub connected : Bool

pub data SendError : Type 0 where
  send_error : SendError

pub record StreamSender : Type 0 where
  pub stream_id : ℕ
  pub max_packet_size : ℕ
  pub next_packet_index : ℕ
  pub used_buffers : List Bytes
  pub shards_count : ℕ
  pub ref_time : ℕ
  pub frame_tracker : FrameTracker

-- What the loop of `send` changes.
pub record Loop : Type 0 where
  pub inner : Bytes
  pub tracker : FrameTracker
  pub channel : Channel

unfoldable pub channel_send : Channel → Bytes → Outcome SendError Channel
channel_send c message = require c.connected (ok (record c { pending = c.pending ++ message ∷ [] }))

-- The prefix of shard `idx`.
unfoldable pub shard_prefix : Float32 → StreamSender → ℕ → ℕ → ℕ → ℕ → ShardPrefix
shard_prefix f s shards_count packet_length idx now = record {
  packet_length = packet_length;
  stream_id = s.stream_id;
  packet_index = s.next_packet_index;
  shards_count = u32 shards_count;
  shard_index = u32 idx;
  tx_r_instant = f.secs_bits (now - s.ref_time);
}

-- One round: `inner[start..]`, its 22 prefix bytes and its first `packet_length` bytes must exist,
-- and the frame must not be sent before the stream's reference time.
unfoldable pub send_shard : Float32 → StreamSender → ℕ → ℕ → ℕ → ℕ → Loop → Outcome SendError Loop
unfolding channel_send shard_prefix
send_shard f s actual_buffer_size shards_count now idx l =
    let start = idx * (s.max_packet_size - shard_prefix_size) in
    let packet_length = min s.max_packet_size (actual_buffer_size - start) in
    let prefix = shard_prefix f s shards_count packet_length idx now in
    let inner' = put_prefix prefix start l.inner in
    require
      (leb start actual_buffer_size
        && leb 4 packet_length
        && leb (start + shard_prefix_size) (length l.inner)
        && leb (start + packet_length) (length l.inner)
        && leb s.ref_time now)
      do
        channel' ← channel_send l.channel (take packet_length (drop start inner'))
        ok (record {
          inner = inner';
          tracker = if idx == 0 then insert_frame l.tracker s.next_packet_index now else l.tracker;
          channel = channel';
        })

-- `for idx in 0..shards_count`, with the rounds left.
unfoldable pub send_shards :
    Float32 → StreamSender → ℕ → ℕ → ℕ → ℕ → ℕ → Loop → Outcome SendError Loop
send_shards f s actual shards_count now zero idx l = ok l
send_shards f s actual shards_count now (suc left) idx l = do
  l' ← send_shard f s actual shards_count now idx l
  send_shards f s actual shards_count now left (suc idx) l'

unfoldable pub send :
    Float32 → StreamSender → Buffer → ℕ → Channel → Outcome SendError (StreamSender × Channel)
send f s buffer now channel =
    let actual_buffer_size = buffer.hidden_offset + buffer.payload_length in
    let max_shard_data_size = s.max_packet_size - shard_prefix_size in
    let data_size = actual_buffer_size - shard_prefix_size in
    let shards_count = f.ceil_div data_size max_shard_data_size in
    require (leb shard_prefix_size s.max_packet_size && leb shard_prefix_size actual_buffer_size) do
      l ←
          send_shards f s actual_buffer_size shards_count now shards_count 0
            (record { inner = buffer.inner; tracker = s.frame_tracker; channel = channel })
      ok (
        record s {
          shards_count = shards_count;
          frame_tracker = l.tracker;
          used_buffers = s.used_buffers ++ l.inner ∷ [];
        },
        l.channel,
      )
