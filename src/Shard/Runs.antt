-- ===== src/Shard/Runs.antt =====
-- The theorems on the receiving side at concrete inputs.
use si_est_a_vr.Common.{
  ℕ, ◌+◌, ◌≡◌, refl, true, false, List, [], ◌∷◌, ◌++◌, none, some, arith, Bytes, ok, u32,
}
use si_est_a_vr.Shard.Prefix.{prefix_bytes}
use si_est_a_vr.Shard.Order.{Reconstructed, StreamReceiver}
use si_est_a_vr.Shard.Delivery.{drain, Ahead, shards_reported, drain-Ahead, drain-conserves}
use si_est_a_vr.Shard.Assembly.{InProgress}
use si_est_a_vr.Shard.Buffered.{BufferedReceiver, queue}
use si_est_a_vr.Shard.Receiver.{
  Deadlines, is_expired, StreamRecvComponents, StreamSocket, sweep_expired_deadlines,
}
use si_est_a_vr.Shard.Deadline.{StreamsLive, swept_streams, sweep_expired_deadlines_lem}
use si_est_a_vr.Shard.Reception.{recv}
use si_est_a_vr.Shard.Reading.{IsMessage}
use si_est_a_vr.Shard.Total.{Takes, recv-Takes}

abbrev three_bytes : Bytes
three_bytes = 1 ∷ 2 ∷ 3 ∷ []

abbrev packet : ℕ → Reconstructed
packet i = record {
  index = i;
  buffer = three_bytes;
  size = 3;
  rx_bytes = 25;
  rx_shard_counter = 2;
  duplicated_shard_counter = 0;
  shards_in_frame = 2;
}

-- An index twice, one late, and a gap across the wrap.
abbrev out_of_order : List Reconstructed
out_of_order = packet 4294967294 ∷ packet 4294967294 ∷ packet 4294967290 ∷ packet 1 ∷ []

abbrev reader : StreamReceiver
reader = record {
  packet_queue = out_of_order;
  used_buffers = [];
  last_packet_index = some 4294967293;
  rx_bytes = 0;
  rx_shard_counter = 0;
  duplicated_shard_counter = 0;
}

drain-Ahead_example : Ahead (some 4294967293) (drain out_of_order reader).1
drain-Ahead_example =
    drain-Ahead out_of_order reader refl
      (omega arith, (omega arith, (omega arith, (omega arith, tt)))) (omega arith)

drain-conserves_example :
    u32 (
      (drain out_of_order reader).0.rx_shard_counter
      + shards_reported (drain out_of_order reader).1)
    ≡ 8
drain-conserves_example = drain-conserves out_of_order reader refl

-- A packet of three shards with one of them, due at 50.
abbrev late_packet : InProgress
late_packet = record {
  buffer = three_bytes;
  buffer_length = 3;
  received_shard_indices = 1 ∷ [];
  deadline = some 50;
  num_shards_expected = 3;
  id_frame = 6;
}

abbrev sample_components : StreamRecvComponents
sample_components = record {
  used_buffers = [];
  packet_queue = [];
  in_progress_packets =
      (6, late_packet) ∷ (7, record late_packet { deadline = some 90; id_frame = 7 }) ∷ [];
}

abbrev sample_socket : StreamSocket
sample_socket = record {
  max_packet_size = 25;
  shard_recv_state = none;
  stream_recv_components = (3, sample_components) ∷ [];
  map_rx = [];
  rx_bytes = 0;
  rx_shard_counter = 0;
  duplicated_shard_counter = 0;
  lost_shards_deadline_map = [];
}

sample_socket-StreamsLive : StreamsLive sample_socket.stream_recv_components
sample_socket-StreamsLive = ((omega arith, (omega arith, tt)), tt)

-- Packet 6 is given up with two shards lost.
sweep_expired_deadlines_example :
    (sweep_expired_deadlines 60 sample_socket
      ≡ ok (record sample_socket {
        stream_recv_components = swept_streams 60 sample_socket.stream_recv_components;
        lost_shards_deadline_map = (6, 2) ∷ [];
      }))
    × StreamsLive (swept_streams 60 sample_socket.stream_recv_components)
unfolding is_expired
sweep_expired_deadlines_example =
    sweep_expired_deadlines_lem 60 sample_socket sample_socket-StreamsLive

-- Every shard is due 33 after its stamp.
abbrev sample_deadlines : Deadlines
sample_deadlines = record {
  from_secs_f32 = λ bits. some bits;
  checked_add = λ t d. some (t + d);
  deadline = 33;
  anchor_first = false;
}

abbrev sample_message : Bytes
sample_message =
    prefix_bytes (record {
      packet_length = 24;
      stream_id = 3;
      packet_index = 7;
      shards_count = 3;
      shard_index = 2;
      tx_r_instant = 70;
    })
    ++ 8 ∷ 9 ∷ []

abbrev sample_receiver : BufferedReceiver
sample_receiver = record {
  receiver = record { pending = sample_message ∷ three_bytes ∷ []; connected = true };
  buffer = none;
}

sample_message-IsMessage : IsMessage sample_message
unfolding prefix_bytes
sample_message-IsMessage = record {
  has_prefix = omega arith;
  fits = omega arith;
  length_field = refl;
}

recv-Takes_example :
    Takes (three_bytes ∷ []) (recv sample_deadlines 60 sample_socket sample_receiver)
unfolding prefix_bytes queue
recv-Takes_example =
    recv-Takes sample_deadlines 60 sample_socket sample_receiver sample_message (three_bytes ∷ [])
      sample_components 70 refl refl sample_message-IsMessage refl sample_socket-StreamsLive refl
      (λ p h. ground arith) (omega arith)
