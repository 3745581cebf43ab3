-- ===== src/Shard/Tests.antt =====
-- The theorems on the stream socket at concrete inputs.
use si_est_a_vr.Common.{
  ℕ, zero, suc, ◌+◌, ◌-◌, ◌/◌, ◌%◌, ◌≡◌, refl, true, List, [], ◌∷◌, ◌++◌, none, arith, take, drop,
  Bytes, ok, get_or,
}
use si_est_a_vr.Shard.Tracker.{new}
use si_est_a_vr.Shard.Sender.{Float32, Buffer, Channel, StreamSender, send}
use si_est_a_vr.Shard.Assembly.{InProgress}
use si_est_a_vr.Shard.Collect.{store_all}
use si_est_a_vr.Shard.RoundTrip.{store_all-send}
use si_est_a_vr.Shard.Sending.{IsSendable, shard_messages, tracker_after, send-messages}

abbrev zeros : ℕ → Bytes
zeros zero = []
zeros (suc n) = 0 ∷ zeros n

-- The conversions as they are on small numbers.
abbrev exact : Float32
exact = record {
  secs_bits = λ ns. ns % 4294967296;
  ceil_div = λ a b. (a + b - 1) / b;
  secs_bits_lt = λ ns. omega arith;
  ceil_div_exact = λ a b _ _. refl;
}

-- A frame of seven bytes behind the prefix's place, three to a shard.
abbrev sample_sender : StreamSender
sample_sender = record {
  stream_id = 3;
  max_packet_size = 25;
  next_packet_index = 9;
  used_buffers = [];
  shards_count = 0;
  ref_time = 100;
  frame_tracker = new;
}

abbrev sample_buffer : Buffer
sample_buffer = record {
  inner = zeros 22 ++ 11 ∷ 12 ∷ 13 ∷ 14 ∷ 15 ∷ 16 ∷ 17 ∷ [];
  hidden_offset = 24;
  payload_length = 5;
}

abbrev empty_channel : Channel
empty_channel = record { pending = []; connected = true }

sample-IsSendable : IsSendable sample_sender sample_buffer 150 empty_channel
sample-IsSendable = record {
  room = omega arith;
  has_prefix = omega arith;
  holds = omega arith;
  small = omega arith;
  after_start = omega arith;
  open_channel = refl;
}

send-messages_example :
    (used : Bytes) × (send exact sample_sender sample_buffer 150 empty_channel
      ≡ ok (
        record sample_sender {
          shards_count = 3;
          frame_tracker = tracker_after sample_sender 150 3 0 new;
          used_buffers = used ∷ [];
        },
        record empty_channel {
          pending = shard_messages exact sample_sender sample_buffer.inner 29 3 150 3 0;
        },
      ))
send-messages_example =
    send-messages exact sample_sender sample_buffer 150 empty_channel sample-IsSendable

-- A packet with a recycled buffer that still holds another frame's bytes.
abbrev stale_packet : InProgress
stale_packet = record {
  buffer = 99 ∷ 98 ∷ 97 ∷ [];
  buffer_length = 0;
  received_shard_indices = [];
  deadline = none;
  num_shards_expected = 3;
  id_frame = 9;
}

abbrev sample_order : List ℕ
sample_order = 2 ∷ 0 ∷ 1 ∷ 0 ∷ []

abbrev sample_messages : List Bytes
sample_messages = shard_messages exact sample_sender sample_buffer.inner 29 3 150 3 0

-- The last shard comes first and the first one twice.
store_all-send_example :
    let q = store_all 25 (λ k. get_or sample_messages k []) sample_order stale_packet in
    (q.buffer_length ≡ 29)
    × (drop 22 (take q.buffer_length q.buffer) ≡ 11 ∷ 12 ∷ 13 ∷ 14 ∷ 15 ∷ 16 ∷ 17 ∷ [])
store_all-send_example =
    store_all-send exact sample_sender sample_buffer 150 empty_channel sample_order stale_packet
      sample-IsSendable (omega arith) refl
      (send-messages exact sample_sender sample_buffer 150 empty_channel sample-IsSendable).1 refl
      refl (λ k h. ground arith) (λ k h. ground arith)
