-- ===== src/Shard/Reception.antt =====
-- `StreamSocket::recv` as a whole (alvr_stream_socket.rs), from the parts in Shard/Receiver.antt.
use si_est_a_vr.Common.{
  ℕ, zero, suc, ◌+◌, ◌-◌, ◌*◌, List, [], ◌∷◌, ◌++◌, Option, none, some, leb, ltb, ◌==◌,
  if◌then◌else◌, length, Bytes, Outcome, ok, panic, hang, ◌>>=◌, require, lookup, insert, remove,
}
use si_est_a_vr.Shard.Prefix.{shard_prefix_size, video}
use si_est_a_vr.Shard.Order.{wrapping_cmp, wrapping_sub, wrapping_add, is_less}
use si_est_a_vr.Shard.Assembly.{InProgress, store_shard, accommodate}
use si_est_a_vr.Shard.Buffered.{BufferedReceiver, ConnectionError, peek_prefix, queue, recv as read}
use si_est_a_vr.Shard.Receiver.{
  max_packet_size_recv, Deadlines, RecvState, StreamRecvComponents, StreamSocket, RecvStatus,
  received, try_again, sweep_expired_deadlines, count_video, recv_state,
}

-- The loop that reads the `left` bytes of the shard, over the messages there are. With none left
-- an empty channel gives 0 bytes for ever, and a disconnected one an error that is unwrapped.
unfoldable pub read_shard :
    List Bytes → BufferedReceiver → ℕ → Bytes → Outcome ConnectionError (BufferedReceiver × Bytes)
read_shard messages r zero shard = ok (r, shard)
read_shard [] r (suc left) shard = if r.receiver.connected then hang else panic
read_shard (_ ∷ messages) r (suc left) shard =
    let (r', result) = read r (suc left) in
    elim result [
      | ok bytes ↦ read_shard messages r' (suc left - length bytes) (shard ++ bytes)
      | _ ↦ panic
    ]

-- The first packet in progress that is more than five before `packet_index`.
unfoldable pub find_recyclable : ℕ → List (ℕ × InProgress) → Option (ℕ × InProgress)
find_recyclable packet_index [] = none
find_recyclable packet_index ((idx, p) ∷ m) =
    if is_less (wrapping_cmp idx (wrapping_sub packet_index 5))
    then some (idx, p)
    else find_recyclable packet_index m

-- A buffer from the pool, else from an old packet in progress, else a new one.
unfoldable pub obtain_buffer : List Bytes → ℕ → StreamRecvComponents → Bytes × StreamRecvComponents
obtain_buffer (b ∷ pool) packet_index c = (b, record c { used_buffers = pool })
obtain_buffer [] packet_index c = elim (find_recyclable packet_index c.in_progress_packets) [
  | some (idx, p) ↦ (p.buffer, record c { in_progress_packets = remove idx c.in_progress_packets })
  | none ↦ ([], c)
]

-- The packet in progress that the shard belongs to, made anew if there is none.
unfoldable pub open_packet :
    Deadlines → RecvState → ℕ → StreamRecvComponents → InProgress × StreamRecvComponents
unfolding obtain_buffer
open_packet d st now c = elim (lookup st.packet_index c.in_progress_packets) [
  | some p ↦ (p, c)
  | none ↦
      let (buffer, c') = obtain_buffer c.used_buffers st.packet_index c in
      let p : InProgress = record {
        buffer = buffer;
        buffer_length = 0;
        received_shard_indices = [];
        deadline = if d.anchor_first then d.checked_add now d.deadline else st.frame_deadline;
        num_shards_expected = st.shards_count;
        id_frame = st.packet_index;
      } in
      (p, record c' { in_progress_packets = insert st.packet_index p c'.in_progress_packets })
]

-- Keep the shards of the latest frames.
unfoldable pub prune_rx : ℕ → List (ℕ × List ℕ) → List (ℕ × List ℕ)
prune_rx packet_index [] = []
prune_rx packet_index ((idx, is) ∷ m) =
    if is_less (wrapping_cmp (wrapping_add idx 5) packet_index)
    then prune_rx packet_index m
    else (idx, is) ∷ prune_rx packet_index m

put_components : RecvState → StreamRecvComponents → StreamSocket → StreamSocket
put_components st c s = record s {
  stream_recv_components = insert st.stream_id c s.stream_recv_components;
}

after_video : RecvState → StreamSocket → StreamSocket
after_video st s =
    if st.stream_id == video
    then record s {
      rx_bytes = 0;
      rx_shard_counter = 0;
      duplicated_shard_counter = 0;
      map_rx = prune_rx st.packet_index s.map_rx;
    }
    else s

-- A complete packet goes to the queue, with the counters, and an empty buffer to the pool.
unfoldable pub finish_shard :
    RecvState → InProgress → StreamRecvComponents → StreamSocket → StreamSocket
unfolding put_components after_video
finish_shard st p c s =
    if length p.received_shard_indices == st.shards_count
    then after_video st (
        put_components st
          (record c {
            in_progress_packets = remove st.packet_index c.in_progress_packets;
            packet_queue =
                c.packet_queue
                ++ record {
                  index = st.packet_index;
                  buffer = p.buffer;
                  size = p.buffer_length;
                  rx_bytes = s.rx_bytes;
                  rx_shard_counter = s.rx_shard_counter;
                  duplicated_shard_counter = s.duplicated_shard_counter;
                  shards_in_frame = st.shards_count;
                }
                  ∷ [];
            used_buffers = c.used_buffers ++ [] ∷ [];
          })
          s)
    else put_components st
        (record c { in_progress_packets = insert st.packet_index p c.in_progress_packets }) s

-- From the packet on: read the shard, store it, and give up what is late.
unfoldable pub take_shard :
    Deadlines
    → RecvState
    → ℕ
    → StreamRecvComponents
    → StreamSocket
    → BufferedReceiver
    → Outcome ConnectionError (StreamSocket × BufferedReceiver × RecvStatus)
take_shard d st now c s r =
    let (p, c') = open_packet d st now c in
    let start = st.shard_index * (s.max_packet_size - shard_prefix_size) in
    require (leb (start + shard_prefix_size) (length (accommodate start st.shard_length p).buffer))
      do
        (r', shard) ← read_shard (queue r) r st.shard_length []
        s' ←
            sweep_expired_deadlines now
              (finish_shard st (store_shard s.max_packet_size st.shard_index shard p) c' s)
        ok (record s' { shard_recv_state = none }, r', received)

-- Nothing is read for a stream that nobody subscribed to; the shard's state is kept.
unfoldable pub for_stream :
    Option StreamRecvComponents
    → Deadlines
    → RecvState
    → ℕ
    → StreamSocket
    → BufferedReceiver
    → Outcome ConnectionError (StreamSocket × BufferedReceiver × RecvStatus)
for_stream (some c) d st now s r = take_shard d st now c s r
for_stream none d st now s r = ok (record s { shard_recv_state = some st }, r, try_again)

-- With the state of the shard at hand.
unfoldable pub recv_with :
    RecvState
    → Deadlines
    → ℕ
    → StreamSocket
    → BufferedReceiver
    → Outcome ConnectionError (StreamSocket × BufferedReceiver × RecvStatus)
unfolding for_stream
recv_with st d now s r = for_stream (lookup st.stream_id s.stream_recv_components) d st now s r

-- With the prefix looked at, or not; an error of the look-ahead is unwrapped.
unfoldable pub after_peek :
    Outcome ConnectionError (Bytes × ℕ)
    → Deadlines
    → ℕ
    → StreamSocket
    → BufferedReceiver
    → Outcome ConnectionError (StreamSocket × BufferedReceiver × RecvStatus)
unfolding recv_with
after_peek (ok (prefix, count)) d now s r =
    if ltb count shard_prefix_size
    then ok (s, r, try_again)
    else (do st ← recv_state d prefix; recv_with st d now (count_video st s) r)
after_peek _ d now s r = panic

unfoldable pub recv_from :
    Option RecvState
    → Deadlines
    → ℕ
    → StreamSocket
    → BufferedReceiver
    → Outcome ConnectionError (StreamSocket × BufferedReceiver × RecvStatus)
unfolding after_peek
recv_from (some st) d now s r = recv_with st d now s r
recv_from none d now s r =
    let (r', result) = peek_prefix r shard_prefix_size max_packet_size_recv in
    after_peek result d now s r'

unfoldable pub recv :
    Deadlines
    → ℕ
    → StreamSocket
    → BufferedReceiver
    → Outcome ConnectionError (StreamSocket × BufferedReceiver × RecvStatus)
unfolding recv_from
recv d now s r = recv_from s.shard_recv_state d now s r
