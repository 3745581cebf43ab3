-- ===== src/Shard/Messages.antt =====
-- The messages of `StreamSender::send` seen from the packet that collects them
-- (alvr_stream_socket.rs).
use native.Mathlib.Nat.{div-add-mod', mod-lt, lt_of_mul-lt-mul_right}
use si_est_a_vr.Common.{
  ℕ, zero, suc, ◌+◌, ◌-◌, ◌*◌, ◌/◌, ◌%◌, ◌≤◌, ◌<◌, min, ◌≡◌, refl, sym, ap, ◌∙◌, true, [], arith,
  length, take, drop, Bytes, get_or, byte, length-take, length-drop, get_or-take, get_or-drop,
  list_ext, get_or-append_right, length-append,
}
use si_est_a_vr.Shard.Assembly.{InProgress, contains}
use si_est_a_vr.Shard.Collect.{IsShard, Holds}
use si_est_a_vr.Shard.Prefix.{ShardPrefix, prefix_bytes, length-prefix_bytes}
use si_est_a_vr.Shard.Sender.{Float32, StreamSender, shard_prefix}
use si_est_a_vr.Shard.Sending.{shard_message, shard_messages}
use si_est_a_vr.Shard.Slices.{data_le_mul-ceil}

module _ (f : Float32) (s : StreamSender) (bytes : Bytes) (actual n now : ℕ)
    (room : 22 < s.max_packet_size) (some_data : 22 < actual) (holds : actual ≤ length bytes) where
  -- What `send` emits is a shard.
  pub shard_message-IsShard :
      (idx : ℕ)
      → idx * (s.max_packet_size - 22) + 22 < actual
      → IsShard s.max_packet_size actual bytes room some_data idx
          (shard_message f s bytes actual n now idx)
  shard_message-IsShard idx inside = record {
    inside = inside;
    sized = omega (
      arith,
      length-append {0} (prefix_bytes p) part,
      length-prefix_bytes p,
      length-take {0} (packet_length - 22) (drop (start + 22) bytes),
      length-drop {0} (start + 22) bytes,
    );
    carries = λ i low high.
        get_or-append_right (prefix_bytes p) part i (i - 22) 0
          (omega (arith, length-prefix_bytes p))
        ∙ get_or-take (drop (start + 22) bytes) (packet_length - 22) (i - 22) 0 (omega arith)
        ∙ get_or-drop bytes (start + 22) (i - 22) (start + i) 0 (omega arith);
  }
    where
      start : ℕ
      start = idx * (s.max_packet_size - 22)

      packet_length : ℕ
      packet_length = min s.max_packet_size (actual - start)

      p : ShardPrefix
      p = shard_prefix f s n packet_length idx now

      part : Bytes
      part = take (packet_length - 22) (drop (start + 22) bytes)

  pub get_or-shard_messages :
      (left idx k : ℕ)
      → k < left
      → get_or (shard_messages f s bytes actual n now left idx) k []
        ≡ shard_message f s bytes actual n now (idx + k)
  get_or-shard_messages zero idx k h = absurd (omega arith)
  get_or-shard_messages (suc left) idx zero h =
      ap (shard_message f s bytes actual n now) (omega arith)
  get_or-shard_messages (suc left) idx (suc k) h =
      get_or-shard_messages left (suc idx) k (omega arith)
      ∙ ap (shard_message f s bytes actual n now) (omega arith)

module _ (max_packet_size actual : ℕ) (bytes : Bytes) (room : 22 < max_packet_size)
    (some_data : 22 < actual) where
  abbrev count : ℕ
  count = (actual - 22 + (max_packet_size - 22) - 1) / (max_packet_size - 22)

  -- Every byte behind the first prefix belongs to one shard.
  Holds-byte :
      (p : InProgress) (j : ℕ)
      → Holds max_packet_size actual bytes room some_data p
      → ((k : ℕ) → k < count → contains k p.received_shard_indices ≡ true)
      → 22 ≤ j
      → j < actual
      → (byte p.buffer j ≡ byte bytes j) × (j < p.buffer_length)
  Holds-byte p j h all low high = (
    rw place at (h.payload k i (all k inside) (omega arith) short),
    omega (arith, h.reaches k (all k inside)),
  )
    where
      m : ℕ
      m = max_packet_size - 22

      k : ℕ
      k = (j - 22) / m

      i : ℕ
      i = 22 + (j - 22) % m

      place : k * m + i ≡ j
      place = omega (arith, div-add-mod' (j - 22) m)

      small : (j - 22) % m < m
      small = mod-lt (j - 22) (omega arith)

      short : i < min max_packet_size (actual - k * m)
      short = omega (arith, small, place)

      inside : k < count
      inside =
          lt_of_mul-lt-mul_right m
            (omega (arith, data_le_mul-ceil (actual - 22) m (omega arith), div-add-mod' (j - 22) m))

  -- With all the shards in, the buffer is the sender's from the header on.
  pub Holds-all :
      (p : InProgress)
      → Holds max_packet_size actual bytes room some_data p
      → ((k : ℕ) → k < count → contains k p.received_shard_indices ≡ true)
      → actual ≤ length bytes
      → (p.buffer_length ≡ actual)
        × (drop 22 (take p.buffer_length p.buffer) ≡ drop 22 (take actual bytes))
  Holds-all p h all holds = (full, list_ext _ _ 0 same_length same_bytes)
    where
      full : p.buffer_length ≡ actual
      full =
          omega
            (arith, h.not_longer, (Holds-byte p (actual - 1) h all (omega arith) (omega arith)).1)

      same_length :
          length (drop 22 (take p.buffer_length p.buffer)) ≡ length (drop 22 (take actual bytes))
      same_length = omega (
        arith,
        full,
        h.long_enough,
        length-drop {0} 22 (take p.buffer_length p.buffer),
        length-take {0} p.buffer_length p.buffer,
        length-drop {0} 22 (take actual bytes),
        length-take {0} actual bytes,
      )

      inside : (i : ℕ) → i < length (drop 22 (take p.buffer_length p.buffer)) → 22 + i < actual
      inside i less = omega (
        arith,
        full,
        length-drop {0} 22 (take p.buffer_length p.buffer),
        length-take {0} p.buffer_length p.buffer,
      )

      same_bytes :
          (i : ℕ)
          → i < length (drop 22 (take p.buffer_length p.buffer))
          → byte (drop 22 (take p.buffer_length p.buffer)) i ≡ byte (drop 22 (take actual bytes)) i
      same_bytes i less =
          get_or-drop (take p.buffer_length p.buffer) 22 i (22 + i) 0 refl
          ∙ get_or-take p.buffer p.buffer_length (22 + i) 0 (omega (arith, full, inside i less))
          ∙ (Holds-byte p (22 + i) h all (omega arith) (inside i less)).0
          ∙ sym (get_or-take bytes actual (22 + i) 0 (inside i less))
          ∙ sym (get_or-drop (take actual bytes) 22 i (22 + i) 0 refl)
