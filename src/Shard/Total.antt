-- ===== src/Shard/Total.antt =====
-- A whole call of `StreamSocket::recv` (alvr_stream_socket.rs).
use mathlib.Core.Path.{subst}
use si_est_a_vr.Common.{
  ℕ, suc, ◌+◌, ◌-◌, ◌*◌, ◌≤◌, ◌<◌, ◌≡◌, refl, sym, ap, ◌∙◌, List, [], ◌∷◌, none, some, arith,
  length, take, Bytes, Outcome, ok, lookup, le→leb, le→ltb_false,
}
use si_est_a_vr.Shard.Prefix.{word16, word32}
use si_est_a_vr.Shard.Assembly.{InProgress, store_shard, accommodate}
use si_est_a_vr.Shard.Collect.{length-accommodate}
use si_est_a_vr.Shard.Buffered.{BufferedReceiver, ConnectionError, peek_prefix, queue}
use si_est_a_vr.Shard.Receiver.{
  Deadlines, RecvState, StreamRecvComponents, StreamSocket, RecvStatus, received, count_video,
  stamped_state, recv_state,
}
use si_est_a_vr.Shard.Reception.{
  read_shard, open_packet, finish_shard, take_shard, for_stream, recv_with, after_peek, recv_from,
  recv,
}
use si_est_a_vr.Shard.Deadline.{
  AllLive, StreamsLive, StreamsLive-lookup, all_losses, swept_streams, sweep_expired_deadlines_lem,
}
use si_est_a_vr.Shard.Reading.{IsMessage, peek_prefix-next, read_shard-next, recv_state-take}
use si_est_a_vr.Shard.Packets.{
  Opened, Agrees, open_packet-Opened, finish_shard-StreamsLive, store_shard-count,
}

-- The outcome of a call that took a shard.
abbrev pub Takes :
    List Bytes → Outcome ConnectionError (StreamSocket × BufferedReceiver × RecvStatus) → Type 0
Takes rest result =
    (s' : StreamSocket) × (r' : BufferedReceiver) × (result ≡ ok (s', r', received))
    × (queue r' ≡ rest)
    × (s'.shard_recv_state ≡ none)
    × StreamsLive s'.stream_recv_components

take_shard-Takes :
    (d : Deadlines) (st : RecvState) (now : ℕ) (c : StreamRecvComponents) (s : StreamSocket)
    (r : BufferedReceiver) (m : Bytes) (rest : List Bytes) (k : ℕ)
    → queue r ≡ m ∷ rest
    → length m ≡ suc k
    → st.shard_length ≡ length m
    → 22 ≤ length m
    → StreamsLive s.stream_recv_components
    → AllLive c.in_progress_packets
    → Agrees st c
    → 0 < st.shards_count
    → Takes rest (take_shard d st now c s r)
unfolding take_shard
take_shard-Takes d st now c s r m rest k h e len full streams live agrees pos =
    let (p, c') = open_packet d st now c in
    let opened : Opened st (p, c') = open_packet-Opened d st now c live agrees pos in
    let (r', read_it, queue_rest) = read_shard-next r m rest k h e in
    let read_all : read_shard (queue r) r st.shard_length [] ≡ ok (r', m) = rw len read_it in
    let p' = store_shard s.max_packet_size st.shard_index m p in
    let counted = store_shard-count s.max_packet_size st.shard_index m p in
    let s' = finish_shard st p' c' s in
    let still : StreamsLive s'.stream_recv_components =
      finish_shard-StreamsLive st p' c' s (counted.1 ∙ opened.0)
        (omega (arith, counted.0, opened.1)) opened.2 streams in
    let swept = sweep_expired_deadlines_lem now s' still in
    (
      record s' {
        stream_recv_components = swept_streams now s'.stream_recv_components;
        lost_shards_deadline_map =
            all_losses now s'.stream_recv_components s'.lost_shards_deadline_map;
        shard_recv_state = none;
      },
      r',
      rw (
        le→leb (st.shard_index * (s.max_packet_size - 22) + 22)
            (length
              (accommodate (st.shard_index * (s.max_packet_size - 22)) st.shard_length p).buffer)
            (omega (
              arith,
              length-accommodate (st.shard_index * (s.max_packet_size - 22)) st.shard_length p,
            )),
        read_all,
        swept.0,
      ),
      queue_rest,
      refl,
      swept.1,
    )

count_video-keeps :
    (st : RecvState) (s : StreamSocket)
    → ((count_video st s).stream_recv_components ≡ s.stream_recv_components)
      × ((count_video st s).shard_recv_state ≡ s.shard_recv_state)
unfolding count_video
count_video-keeps st s = ground arith

recv_idle :
    (d : Deadlines) (now : ℕ) (s : StreamSocket) (r : BufferedReceiver)
    → s.shard_recv_state ≡ none
    → recv d now s r ≡ after_peek (peek_prefix r 22 16000).1 d now s (peek_prefix r 22 16000).0
unfolding recv
recv_idle d now s r idle = ap (λ o. recv_from o d now s r) idle

after_peek_long :
    (d : Deadlines) (now : ℕ) (s : StreamSocket) (r : BufferedReceiver) (m : Bytes) (t : ℕ)
    → d.from_secs_f32 (word32 m 18) ≡ some t
    → 22 ≤ length m
    → after_peek (ok (take 22 m, length m)) d now s r
      ≡ recv_with (stamped_state d t m) d now (count_video (stamped_state d t m) s) r
unfolding after_peek recv_state
after_peek_long d now s r m t stamp long =
    rw (le→ltb_false (length m) 22 long, recv_state-take d m, stamp) refl

recv_with_subscribed :
    (d : Deadlines) (st : RecvState) (now : ℕ) (s : StreamSocket) (r : BufferedReceiver)
    (c : StreamRecvComponents)
    → lookup st.stream_id s.stream_recv_components ≡ some c
    → recv_with st d now s r ≡ take_shard d st now c s r
unfolding recv_with
recv_with_subscribed d st now s r c h = ap (λ o. for_stream o d st now s r) h

recv_steps :
    (d : Deadlines) (now : ℕ) (s : StreamSocket) (r : BufferedReceiver) (m : Bytes)
    (c : StreamRecvComponents) (t : ℕ)
    → d.from_secs_f32 (word32 m 18) ≡ some t
    → s.shard_recv_state ≡ none
    → (peek_prefix r 22 16000).1 ≡ ok (take 22 m, length m)
    → 22 ≤ length m
    → lookup (word16 m 4) s.stream_recv_components ≡ some c
    → recv d now s r
      ≡ take_shard d
          (stamped_state d t m)
          now
          c
          (count_video (stamped_state d t m) s)
          (peek_prefix r 22 16000).0
unfolding stamped_state
recv_steps d now s r m c t stamp idle peeked long subscribed =
    let r1 = (peek_prefix r 22 16000).0 in
    recv_idle d now s r idle
    ∙ ap (λ o. after_peek o d now s r1) peeked
    ∙ after_peek_long d now s r1 m t stamp long
    ∙ recv_with_subscribed d (stamped_state d t m) now (count_video (stamped_state d t m) s) r1 c
        (rw (count_video-keeps (stamped_state d t m) s).0 subscribed)

-- `recv` on a whole shard of a subscribed stream whose stamp is a duration: it neither panics nor spins nor puts the shard
-- off. It takes exactly that message from the channel and leaves no half-read shard, and every
-- packet in progress still lacks a shard, so that the next sweep cannot panic either. It is asked
-- that the shard agrees with the packet in progress, if there is one, on the number of shards.
pub recv-Takes :
    (d : Deadlines) (now : ℕ) (s : StreamSocket) (r : BufferedReceiver) (m : Bytes)
    (rest : List Bytes) (c : StreamRecvComponents) (t : ℕ)
    → d.from_secs_f32 (word32 m 18) ≡ some t
    → queue r ≡ m ∷ rest
    → IsMessage m
    → s.shard_recv_state ≡ none
    → StreamsLive s.stream_recv_components
    → lookup (word16 m 4) s.stream_recv_components ≡ some c
    → ((p : InProgress)
        → lookup (word32 m 6) c.in_progress_packets ≡ some p
        → p.num_shards_expected ≡ word32 m 10)
    → 0 < word32 m 10
    → Takes rest (recv d now s r)
unfolding stamped_state
recv-Takes d now s r m rest c t stamp h w idle streams subscribed agrees pos =
    let peeked = peek_prefix-next r m rest h w in
    let keeps = count_video-keeps (stamped_state d t m) s in
    subst (Takes rest)
      (sym (recv_steps d now s r m c t stamp idle peeked.0 w.has_prefix subscribed))
      (take_shard-Takes d (stamped_state d t m) now c (count_video (stamped_state d t m) s)
        (peek_prefix r 22 16000).0 m rest (length m - 1) peeked.1 (omega (arith, w.has_prefix))
        w.length_field w.has_prefix (rw keeps.0 streams)
        (StreamsLive-lookup (word16 m 4) s.stream_recv_components streams subscribed) agrees pos)
