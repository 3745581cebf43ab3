-- ===== src/Shard/RoundTrip.antt =====
-- From the buffer that `StreamSender::send` is given to the buffer that `StreamSocket::recv` puts
-- together (alvr_stream_socket.rs).
use native.Mathlib.Nat.{zero-add}
use si_est_a_vr.Common.{
  ℕ, ◌+◌, ◌-◌, ◌<◌, ◌≡◌, sym, ap, ◌∙◌, true, List, [], ◌∷◌, ◌++◌, arith, take, drop, Bytes, get_or,
  Outcome, ok, inl,
}
use si_est_a_vr.Shard.Assembly.{InProgress, contains}
use si_est_a_vr.Shard.Collect.{IsShard, Holds, store_all, store_all-Holds, store_all-received}
use si_est_a_vr.Shard.Sender.{Float32, StreamSender, Buffer, Channel, SendError, send}
use si_est_a_vr.Shard.Sending.{
  shard_message, shard_messages, tracker_after, count_shards, IsSendable, send-messages,
}
use si_est_a_vr.Shard.Slices.{mul_lt_of_lt-ceil}
use si_est_a_vr.Shard.Messages.{shard_message-IsShard, get_or-shard_messages, Holds-all}

ok-injective :
    (x y : StreamSender × Channel)
    → ◌≡◌ {A = Outcome SendError (StreamSender × Channel)} (ok x) (ok y)
    → x ≡ y
ok-injective x y h = cc

-- Send a frame on an empty channel, and store the messages of the channel in any order, each at
-- least once and as often as may be, into a packet with nothing stored yet, whatever bytes its
-- recycled buffer holds. Then the packet has the frame's size and, but for the 22 bytes of the
-- first prefix, the frame's bytes.
pub store_all-send :
    (f : Float32) (s : StreamSender) (b : Buffer) (now : ℕ) (c : Channel) (order : List ℕ)
    (p : InProgress) {s' : StreamSender} {c' : Channel}
    → IsSendable s b now c
    → 22 < b.hidden_offset + b.payload_length
    → c.pending ≡ []
    → send f s b now c ≡ ok (s', c')
    → p.buffer_length ≡ 0
    → p.received_shard_indices ≡ []
    → ((k : ℕ) → contains k order ≡ true → k < s'.shards_count)
    → ((k : ℕ) → k < s'.shards_count → contains k order ≡ true)
    → let q = store_all s.max_packet_size (λ k. get_or c'.pending k []) order p in
      (q.buffer_length ≡ b.hidden_offset + b.payload_length)
      × (drop 22 (take q.buffer_length q.buffer)
          ≡ drop 22 (take (b.hidden_offset + b.payload_length) b.inner))
store_all-send f s b now c order p {s'} {c'} h some_data no_messages sent len rec only every =
    Holds-all s.max_packet_size actual b.inner h.room some_data
      (store_all s.max_packet_size message order p)
      (store_all-Holds s.max_packet_size actual b.inner h.room some_data message order p is_shard
        fresh)
      (λ k less.
        store_all-received s.max_packet_size actual b.inner h.room some_data message order p k
          (inl (every k (omega (arith, less, counted)))))
      h.holds
  where
    actual : ℕ
    actual = b.hidden_offset + b.payload_length

    n : ℕ
    n = count_shards s actual

    message : ℕ → Bytes
    message k = get_or c'.pending k []

    expected : StreamSender × Channel
    expected = (
      record s {
        shards_count = n;
        frame_tracker = tracker_after s now n 0 s.frame_tracker;
        used_buffers = s.used_buffers ++ (send-messages f s b now c h).0 ∷ [];
      },
      record c { pending = c.pending ++ shard_messages f s b.inner actual n now n 0 },
    )

    result : expected ≡ (s', c')
    result = ok-injective _ _ (sym (send-messages f s b now c h).1 ∙ sent)

    counted : s'.shards_count ≡ n
    counted = sym (ap (λ r. r.0.shards_count) result)

    queued : c'.pending ≡ shard_messages f s b.inner actual n now n 0
    queued = sym (ap (λ r. r.1.pending) result) ∙ rw no_messages

    is_shard :
        (k : ℕ)
        → contains k order ≡ true
        → IsShard s.max_packet_size actual b.inner h.room some_data k (message k)
    is_shard k m =
        let less : k < n = omega (arith, only k m, counted) in
        rw
          (ap (λ l. get_or l k []) queued
            ∙ get_or-shard_messages f s b.inner actual n now h.room some_data h.holds n 0 k less
            ∙ ap (shard_message f s b.inner actual n now) (zero-add k))
          (shard_message-IsShard f s b.inner actual n now h.room some_data h.holds k (
            omega (
              arith,
              mul_lt_of_lt-ceil k (actual - 22) (s.max_packet_size - 22) (omega arith) less,
            )))

    fresh : Holds s.max_packet_size actual b.inner h.room some_data p
    fresh = record {
      not_longer = omega arith;
      long_enough = omega arith;
      payload = λ idx i m. cc (rec, m);
      reaches = λ idx m. cc (rec, m);
    }
