-- ===== src/Shard/Receiver.antt =====
-- `StreamSocket::recv`, `sweep_expired_deadlines` and `flush_shards_lost_deadline`
-- (alvr_stream_socket.rs): shards are read from the look-ahead channel into the packets in
-- progress, complete packets go to the stream's queue, and late ones are given up. Hash maps are
-- association lists, in whose order they are walked. The frame statistics (jitter, delays, the
-- highest indices) and the map of expected shards, which is filled only under NADA's fix, are left
-- out, and so is the branch under ALVR_ORIGINAL_SOCKETRX_BEHAVIOR, a constant that is false.
-- `should_discard` is never set, so the sink of discarded shards is unused.
use si_est_a_vr.Common.{
  ℕ, ◌+◌, ◌-◌, Bool, false, List, [], ◌∷◌, ◌++◌, Option, none, some, leb, ◌==◌, if◌then◌else◌,
  length, Bytes, u32, Outcome, ok, panic, ◌>>=◌, require, lookup, insert,
}
use si_est_a_vr.Shard.Prefix.{word16, word32, video}
use si_est_a_vr.Shard.Order.{Reconstructed}
use si_est_a_vr.Shard.Assembly.{InProgress, contains}
use si_est_a_vr.Shard.Buffered.{ConnectionError}

abbrev pub max_packet_size_recv : ℕ
max_packet_size_recv = 16000

-- What `recv` takes from elsewhere: `Duration::from_secs_f32` of the bits of a stamp, or of 0 if that is
-- larger, `none` where it panics; `checked_add` of an instant, from `EPOCH`, and a duration; and the
-- settings of client_deadline.rs.
pub record Deadlines : Type 0 where
  pub from_secs_f32 : ℕ → Option ℕ
  pub checked_add : ℕ → ℕ → Option ℕ
  pub deadline : ℕ
  pub anchor_first : Bool

pub record RecvState : Type 0 where
  pub shard_length : ℕ
  pub stream_id : ℕ
  pub packet_index : ℕ
  pub shards_count : ℕ
  pub shard_index : ℕ
  pub frame_deadline : Option ℕ

pub record StreamRecvComponents : Type 0 where
  pub used_buffers : List Bytes
  pub packet_queue : List Reconstructed
  pub in_progress_packets : List (ℕ × InProgress)

pub record StreamSocket : Type 0 where
  pub max_packet_size : ℕ
  pub shard_recv_state : Option RecvState
  pub stream_recv_components : List (ℕ × StreamRecvComponents)
  pub map_rx : List (ℕ × List ℕ)
  pub rx_bytes : ℕ
  pub rx_shard_counter : ℕ
  pub duplicated_shard_counter : ℕ
  pub lost_shards_deadline_map : List (ℕ × ℕ)

pub data RecvStatus : Type 0 where
  received try_again : RecvStatus

-- `deadline <= now`.
unfoldable pub is_expired : Option ℕ → ℕ → Bool
is_expired none now = false
is_expired (some deadline) now = leb deadline now

-- The packets of one stream: those that are kept, with the losses and the recycled buffers of the
-- others. A packet with more shards than it expects would underflow, which panics in a debug build.
pub record Swept : Type 0 where
  pub kept : List (ℕ × InProgress)
  pub lost : List (ℕ × ℕ)
  pub recycled : List Bytes

give_up : ℕ × InProgress → Swept → Swept
give_up (id, p) s = record s {
  lost = (p.id_frame, p.num_shards_expected - length p.received_shard_indices) ∷ s.lost;
  recycled = if length p.buffer == 0 then s.recycled else [] ∷ s.recycled;
}

unfoldable pub sweep_packets : ℕ → List (ℕ × InProgress) → Outcome ConnectionError Swept
unfolding give_up is_expired
sweep_packets now [] = ok (record { kept = []; lost = []; recycled = [] })
sweep_packets now ((id, p) ∷ m) = do
  s ← sweep_packets now m
  if is_expired p.deadline now
      then require (leb (length p.received_shard_indices) p.num_shards_expected)
          (ok (give_up (id, p) s))
      else ok (record s { kept = (id, p) ∷ s.kept })

abbrev pub insert_all : List (ℕ × ℕ) → List (ℕ × ℕ) → List (ℕ × ℕ)
insert_all [] m = m
insert_all ((k, v) ∷ kvs) m = insert_all kvs (insert k v m)

unfoldable pub sweep_streams :
    ℕ
    → List (ℕ × StreamRecvComponents)
    → List (ℕ × ℕ)
    → Outcome ConnectionError (List (ℕ × StreamRecvComponents) × List (ℕ × ℕ))
sweep_streams now [] lost = ok ([], lost)
sweep_streams now ((id, c) ∷ cs) lost = do
  s ← sweep_packets now c.in_progress_packets
  (cs', lost') ← sweep_streams now cs (insert_all s.lost lost)
  ok (
    (id, record c { in_progress_packets = s.kept; used_buffers = c.used_buffers ++ s.recycled })
        ∷ cs',
    lost',
  )

unfoldable pub sweep_expired_deadlines : ℕ → StreamSocket → Outcome ConnectionError StreamSocket
sweep_expired_deadlines now s = do
  (cs, lost) ← sweep_streams now s.stream_recv_components s.lost_shards_deadline_map
  ok (record s { stream_recv_components = cs; lost_shards_deadline_map = lost })

-- The map is drained: its keys and its losses.
unfoldable pub flush_shards_lost_deadline : StreamSocket → StreamSocket × List (ℕ × ℕ)
flush_shards_lost_deadline s =
    (record s { lost_shards_deadline_map = [] }, s.lost_shards_deadline_map)

-- The counters of the video stream: a shard index seen before is a duplicate.
count_shard : Option (List ℕ) → RecvState → StreamSocket → StreamSocket
count_shard seen r s =
    let indices : List ℕ = elim seen [ some is ↦ is | none ↦ [] ] in
    if contains r.shard_index indices
    then record s {
      map_rx = insert r.packet_index indices s.map_rx;
      duplicated_shard_counter = u32 (s.duplicated_shard_counter + 1);
      rx_bytes = u32 (s.rx_bytes + r.shard_length);
    }
    else record s {
      map_rx = insert r.packet_index (r.shard_index ∷ indices) s.map_rx;
      rx_shard_counter = u32 (s.rx_shard_counter + 1);
      rx_bytes = u32 (s.rx_bytes + r.shard_length);
    }

unfoldable pub count_video : RecvState → StreamSocket → StreamSocket
unfolding count_shard
count_video r s =
    if r.stream_id == video then count_shard (lookup r.packet_index s.map_rx) r s else s

-- `checked_add` of a duration to an instant that there may not be.
abbrev pub and_then_add : Deadlines → Option ℕ → ℕ → Option ℕ
and_then_add d none duration = none
and_then_add d (some t) duration = d.checked_add t duration

-- The state of a shard from its prefix, with the duration of its stamp.
unfoldable pub stamped_state : Deadlines → ℕ → Bytes → RecvState
stamped_state d stamp prefix = record {
  shard_length = 4 + word32 prefix 0;
  stream_id = word16 prefix 4;
  packet_index = word32 prefix 6;
  shards_count = word32 prefix 10;
  shard_index = word32 prefix 14;
  frame_deadline = and_then_add d (d.checked_add 0 stamp) d.deadline;
}

-- A stamp that is no duration panics.
abbrev pub with_stamp : Option ℕ → Deadlines → Bytes → Outcome ConnectionError RecvState
with_stamp none d prefix = panic
with_stamp (some stamp) d prefix = ok (stamped_state d stamp prefix)

unfoldable pub recv_state : Deadlines → Bytes → Outcome ConnectionError RecvState
recv_state d prefix = with_stamp (d.from_secs_f32 (word32 prefix 18)) d prefix
