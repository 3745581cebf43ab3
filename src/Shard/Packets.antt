-- ===== src/Shard/Packets.antt =====
-- The packets in progress under the steps of `StreamSocket::recv` that open a packet, store a shard
-- and finish a packet (alvr_stream_socket.rs).
use si_est_a_vr.Common.{
  ℕ, ◌+◌, ◌≤◌, ◌<◌, ◌≡◌, refl, List, [], ◌∷◌, ◌++◌, some, arith, ◌==◌, length, Bytes, lookup,
  insert, remove, Option-cases, if_elim, inl, inr,
}
use si_est_a_vr.Shard.Prefix.{video}
use si_est_a_vr.Shard.Assembly.{InProgress, store_shard, insert_index}
use si_est_a_vr.Shard.Receiver.{Deadlines, RecvState, StreamRecvComponents, StreamSocket}
use si_est_a_vr.Shard.Reception.{obtain_buffer, open_packet, finish_shard, find_recyclable}
use si_est_a_vr.Shard.Deadline.{
  AllLive, StreamsLive, AllLive-remove, AllLive-insert, AllLive-lookup, StreamsLive-insert,
}

-- The packet that a shard goes to agrees with it on the number of shards, and lacks one.
abbrev pub Opened : RecvState → InProgress × StreamRecvComponents → Type 0
Opened st o =
    (o.0.num_shards_expected ≡ st.shards_count)
    × (length o.0.received_shard_indices < st.shards_count)
    × AllLive o.1.in_progress_packets

abbrev pub Agrees : RecvState → StreamRecvComponents → Type 0
Agrees st c =
    (p : InProgress)
    → lookup st.packet_index c.in_progress_packets ≡ some p
    → p.num_shards_expected ≡ st.shards_count

obtain_buffer-AllLive :
    (pool : List Bytes) (packet_index : ℕ) (c : StreamRecvComponents)
    → AllLive c.in_progress_packets
    → AllLive (obtain_buffer pool packet_index c).1.in_progress_packets
unfolding obtain_buffer
obtain_buffer-AllLive (b ∷ pool) packet_index c live = live
obtain_buffer-AllLive [] packet_index c live =
    elim (Option-cases (find_recyclable packet_index c.in_progress_packets)) [
      | inl e ↦ rw (e, obtain_buffer) live
      | inr (old, e) ↦ rw (e, obtain_buffer) (AllLive-remove old.0 c.in_progress_packets live)
    ]

pub open_packet-Opened :
    (d : Deadlines) (st : RecvState) (now : ℕ) (c : StreamRecvComponents)
    → AllLive c.in_progress_packets
    → Agrees st c
    → 0 < st.shards_count
    → Opened st (open_packet d st now c)
unfolding open_packet
open_packet-Opened d st now c live agrees pos =
    elim (Option-cases (lookup st.packet_index c.in_progress_packets)) [
      | inl new ↦
          rw (new, open_packet)
            (
              refl,
              pos,
              AllLive-insert st.packet_index _ _ pos
                  (obtain_buffer-AllLive c.used_buffers st.packet_index c live),
            )
      | inr (p, old) ↦
          rw (old, open_packet)
            (
              agrees p old,
              omega (
                arith,
                agrees p old,
                AllLive-lookup st.packet_index c.in_progress_packets live old,
              ),
              live,
            )
    ]

length-insert_index : (k : ℕ) (xs : List ℕ) → length (insert_index k xs) ≤ length xs + 1
length-insert_index k xs = ground arith

abbrev HasLive : StreamSocket → Type 0
HasLive s = StreamsLive s.stream_recv_components

pub finish_shard-StreamsLive :
    (st : RecvState) (p : InProgress) (c : StreamRecvComponents) (s : StreamSocket)
    → p.num_shards_expected ≡ st.shards_count
    → length p.received_shard_indices ≤ st.shards_count
    → AllLive c.in_progress_packets
    → StreamsLive s.stream_recv_components
    → StreamsLive (finish_shard st p c s).stream_recv_components
unfolding finish_shard
finish_shard-StreamsLive st p c s same most live streams =
    if_elim HasLive (length p.received_shard_indices == st.shards_count)
      (λ _. if_elim HasLive (st.stream_id == video) (λ _. complete) (λ _. complete))
      (λ e.
        StreamsLive-insert st.stream_id _ s.stream_recv_components
          (AllLive-insert st.packet_index p c.in_progress_packets (ground arith) live) streams)
  where
    complete : StreamsLive (
        insert st.stream_id
          (record c {
            in_progress_packets = remove st.packet_index c.in_progress_packets;
            packet_queue =
                c.packet_queue
                ++ record {
                  index = st.packet_index;
                  buffer = p.buffer;
                  size = p.buffer_length;
                  rx_bytes = s.rx_bytes;
                  rx_shard_counter = s.rx_shard_counter;
                  duplicated_shard_counter = s.duplicated_shard_counter;
                  shards_in_frame = st.shards_count;
                }
                  ∷ [];
            used_buffers = c.used_buffers ++ [] ∷ [];
          })
          s.stream_recv_components)
    complete =
        StreamsLive-insert st.stream_id _ s.stream_recv_components
          (AllLive-remove st.packet_index c.in_progress_packets live) streams

pub store_shard-count :
    (max_packet_size k : ℕ) (shard : Bytes) (p : InProgress)
    → (length (store_shard max_packet_size k shard p).received_shard_indices
        ≤ length p.received_shard_indices + 1)
      × ((store_shard max_packet_size k shard p).num_shards_expected ≡ p.num_shards_expected)
unfolding store_shard
store_shard-count max_packet_size k shard p = (length-insert_index k p.received_shard_indices, refl)
