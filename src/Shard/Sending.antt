-- ===== src/Shard/Sending.antt =====
-- What `StreamSender::send` puts on the channel, for every buffer that fits (alvr_stream_socket.rs).
use mathlib.Core.List.{append_assoc, append-nil}
use si_est_a_vr.Common.{
  ℕ, zero, suc, ◌+◌, ◌-◌, ◌*◌, ◌/◌, ◌≤◌, ◌<◌, ◌^◌, min, ◌≡◌, refl, sym, ap, ◌∙◌, true, List, [],
  ◌∷◌, ◌++◌, arith, ◌==◌, if◌then◌else◌, length, take, drop, Bytes, ok, length-write_at, drop-drop,
  le→leb, ne→==_false,
}
use si_est_a_vr.Shard.Prefix.{
  ShardPrefix, put_prefix, prefix_bytes, length-prefix_bytes, put_prefix-write_at,
}
use si_est_a_vr.Shard.Tracker.{FrameTracker, insert_frame}
use si_est_a_vr.Shard.Slices.{take-drop-write_at, drop-write_at, mul_lt_of_lt-ceil}
use si_est_a_vr.Shard.Sender.{
  Float32, Buffer, Channel, StreamSender, Loop, channel_send, shard_prefix, send_shard, send_shards,
  send,
}

-- Shard `idx` of `data`: its prefix, then its own slice of the data, the last one shorter.
abbrev pub shard_message : Float32 → StreamSender → Bytes → ℕ → ℕ → ℕ → ℕ → Bytes
shard_message f s bytes actual shards_count now idx =
    let start = idx * (s.max_packet_size - 22) in
    let packet_length = min s.max_packet_size (actual - start) in
    prefix_bytes (shard_prefix f s shards_count packet_length idx now)
    ++ take (packet_length - 22) (drop (start + 22) bytes)

abbrev pub shard_messages : Float32 → StreamSender → Bytes → ℕ → ℕ → ℕ → ℕ → ℕ → List Bytes
shard_messages f s bytes actual shards_count now zero idx = []
shard_messages f s bytes actual shards_count now (suc left) idx =
    shard_message f s bytes actual shards_count now idx
    ∷ shard_messages f s bytes actual shards_count now left (suc idx)

-- What `send` asks of its caller.
pub record IsSendable (s : StreamSender) (b : Buffer) (now : ℕ) (c : Channel) : Type 0 where
  pub room : 22 < s.max_packet_size
  pub has_prefix : 22 ≤ b.hidden_offset + b.payload_length
  pub holds : b.hidden_offset + b.payload_length ≤ length b.inner
  pub small : b.hidden_offset + b.payload_length < 2 ^ 24
  pub after_start : s.ref_time ≤ now
  pub open_channel : c.connected ≡ true

-- The slice that is sent, once its prefix is written.
pub slice-put_prefix :
    (p : ShardPrefix) (b bytes : Bytes) (start n : ℕ)
    → 22 ≤ n
    → start + 22 ≤ length b
    → drop (start + 22) b ≡ drop (start + 22) bytes
    → take n (drop start (put_prefix p start b))
      ≡ prefix_bytes p ++ take (n - 22) (drop (start + 22) bytes)
slice-put_prefix p b bytes start n h k same = rw put_prefix-write_at (
    take-drop-write_at b start (prefix_bytes p) n (n - 22) (start + 22)
      (omega (arith, length-prefix_bytes p)) (omega (arith, length-prefix_bytes p)) k
    ∙ ap (λ r. prefix_bytes p ++ take (n - 22) r) same)

length-put_prefix :
    (p : ShardPrefix) (b : Bytes) (start : ℕ) → length (put_prefix p start b) ≡ length b
length-put_prefix p b start = rw put_prefix-write_at (length-write_at b start (prefix_bytes p))

drop-put_prefix :
    (p : ShardPrefix) (b : Bytes) (start n : ℕ)
    → start + 22 ≤ n
    → drop n (put_prefix p start b) ≡ drop n b
drop-put_prefix p b start n h =
    rw put_prefix-write_at
      (drop-write_at b start (prefix_bytes p) n (omega (arith, length-prefix_bytes p)))

-- The tracker after the rounds that are left: the frame is recorded in round 0.
abbrev pub tracker_after : StreamSender → ℕ → ℕ → ℕ → FrameTracker → FrameTracker
tracker_after s now zero idx t = t
tracker_after s now (suc left) idx t =
    if idx == 0 then insert_frame t s.next_packet_index now else t

tracker_after_first :
    (s : StreamSender) (now left idx : ℕ) (t : FrameTracker)
    → tracker_after s now left (suc idx) t ≡ t
tracker_after_first s now zero idx t = refl
tracker_after_first s now (suc left) idx t = rw (ne→==_false (suc idx) 0 (λ e. omega arith))

module _ (f : Float32) (s : StreamSender) (bytes : Bytes) (actual n now : ℕ)
    (room : 22 < s.max_packet_size) (holds : actual ≤ length bytes) (after : s.ref_time ≤ now) where
  -- Below the next shard's payload the buffer may be overwritten; from there on it is as given.
  record Intact (idx : ℕ) (l : Loop) : Type 0 where
    same_length : length l.inner ≡ length bytes
    same_rest :
        drop (idx * (s.max_packet_size - 22) + 22) l.inner
        ≡ drop (idx * (s.max_packet_size - 22) + 22) bytes
    still_open : l.channel.connected ≡ true

  abbrev next : ℕ → Loop → Loop
  next idx l = record {
    inner =
        put_prefix
          (shard_prefix f s n (min s.max_packet_size (actual - idx * (s.max_packet_size - 22))) idx
            now)
          (idx * (s.max_packet_size - 22)) l.inner;
    tracker = if idx == 0 then insert_frame l.tracker s.next_packet_index now else l.tracker;
    channel = record l.channel {
      pending = l.channel.pending ++ shard_message f s bytes actual n now idx ∷ [];
    };
  }

  send_shard-next :
      (idx : ℕ) (l : Loop)
      → idx * (s.max_packet_size - 22) + 22 < actual
      → Intact idx l
      → send_shard f s actual n now idx l ≡ ok (next idx l)
  unfolding send_shard channel_send
  send_shard-next idx l inside h =
      let start : ℕ = idx * (s.max_packet_size - 22) in
      let packet_length : ℕ = min s.max_packet_size (actual - start) in
      rw (
        le→leb start actual (omega arith),
        le→leb 4 packet_length (omega arith),
        le→leb (start + 22) (length l.inner) (omega arith),
        le→leb (start + packet_length) (length l.inner) (omega arith),
        le→leb s.ref_time now after,
        h.still_open,
        slice-put_prefix (shard_prefix f s n packet_length idx now) l.inner bytes start
            packet_length (omega arith) (omega arith) h.same_rest,
      )

  next-Intact :
      (idx : ℕ) (l : Loop)
      → idx * (s.max_packet_size - 22) + 22 < actual
      → Intact idx l
      → Intact (suc idx) (next idx l)
  next-Intact idx l inside h =
      let start : ℕ = idx * (s.max_packet_size - 22) in
      let p = shard_prefix f s n (min s.max_packet_size (actual - start)) idx now in
      let step : suc idx * (s.max_packet_size - 22) ≡ start + (s.max_packet_size - 22) =
        omega arith in
      record {
        same_length = length-put_prefix p l.inner start ∙ h.same_length;
        same_rest =
            drop-put_prefix p l.inner start (suc idx * (s.max_packet_size - 22) + 22) (omega arith)
            ∙ sym (drop-drop l.inner (s.max_packet_size - 22) (start + 22) _ (omega arith))
            ∙ ap (drop (s.max_packet_size - 22)) h.same_rest
            ∙ drop-drop bytes (s.max_packet_size - 22) (start + 22) _ (omega arith);
        still_open = h.still_open;
      }

  -- The rounds that are left send the shards that are left, in order.
  send_shards-messages :
      (left idx : ℕ) (l : Loop)
      → ((j : ℕ) → idx ≤ j → j < idx + left → j * (s.max_packet_size - 22) + 22 < actual)
      → Intact idx l
      → (l' : Loop) × (send_shards f s actual n now left idx l ≡ ok l')
        × (l'.channel ≡ record l.channel {
          pending = l.channel.pending ++ shard_messages f s bytes actual n now left idx;
        })
        × (l'.tracker ≡ tracker_after s now left idx l.tracker)
  unfolding send_shards
  send_shards-messages zero idx l inside h = (l, refl, rw append-nil, refl)
  send_shards-messages (suc left) idx l inside h =
      let now_inside = inside idx (omega arith) (omega arith) in
      let (l', sent, queue, kept) =
        send_shards-messages left (suc idx) (next idx l)
          (λ j p q. inside j (omega arith) (omega arith)) (next-Intact idx l now_inside h) in
      (
        l',
        rw (send_shard-next idx l now_inside h) sent,
        queue ∙ rw append_assoc,
        kept ∙ tracker_after_first s now left idx (next idx l).tracker,
      )

-- The number of shards: the data's bytes over the bytes that a shard holds, rounded up.
abbrev pub count_shards : StreamSender → ℕ → ℕ
count_shards s actual = (actual - 22 + (s.max_packet_size - 22) - 1) / (s.max_packet_size - 22)

-- `send` succeeds on every buffer that fits. It appends to the channel exactly the shards of the
-- buffer's bytes as they were given, each once, in order; it stores their number, records the frame
-- if there is a shard, and keeps a buffer for reuse. All else of the sender stays.
pub send-messages :
    (f : Float32) (s : StreamSender) (b : Buffer) (now : ℕ) (c : Channel)
    → IsSendable s b now c
    → let actual = b.hidden_offset + b.payload_length in
      let n = count_shards s actual in
      (used : Bytes) × (send f s b now c
        ≡ ok (
          record s {
            shards_count = n;
            frame_tracker = tracker_after s now n 0 s.frame_tracker;
            used_buffers = s.used_buffers ++ used ∷ [];
          },
          record c { pending = c.pending ++ shard_messages f s b.inner actual n now n 0 },
        ))
unfolding send
send-messages f s b now c h =
    let actual = b.hidden_offset + b.payload_length in
    let n = count_shards s actual in
    let start : Loop = record { inner = b.inner; tracker = s.frame_tracker; channel = c } in
    let (l, sent, queue, tracked) =
      send_shards-messages f s b.inner actual n now h.room h.holds h.after_start n 0 start
        (λ j p q. round_inside s actual j h.room h.has_prefix (omega arith))
        (record { same_length = refl; same_rest = refl; still_open = h.open_channel }) in
    (
      l.inner,
      rw (
        f.ceil_div_exact (actual - 22) (s.max_packet_size - 22) (omega arith) (omega arith),
        le→leb 22 s.max_packet_size (omega arith),
        le→leb 22 actual h.has_prefix,
        sent,
        tracked,
        queue,
      ),
    )
  where
    round_inside :
        (s : StreamSender) (actual j : ℕ)
        → 22 < s.max_packet_size
        → 22 ≤ actual
        → j < count_shards s actual
        → j * (s.max_packet_size - 22) + 22 < actual
    round_inside s actual j room p q =
        omega (arith, mul_lt_of_lt-ceil j (actual - 22) (s.max_packet_size - 22) (omega arith) q)
