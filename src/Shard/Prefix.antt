-- ===== src/Shard/Prefix.antt =====
-- The 22-byte shard prefix (alvr_stream_socket.rs, `parse_shard_data` and the writes of
-- `StreamSender::send`): length, stream, packet, shard count, shard index and send stamp. A stamp
-- is an `f32`, here its bit pattern.
use si_est_a_vr.Common.{
  ℕ, zero, suc, ◌+◌, ◌-◌, ◌≤◌, ◌<◌, ◌≡◌, refl, ap, ◌∙◌, [], ◌∷◌, ◌++◌, arith, ltb, if◌then◌else◌,
  length, Bytes, byte, write_at, be16, be32, from_be16, from_be32, u32, u32_mod, from_be32-be32,
  from_be16-be16, le→ltb_false,
}

abbrev pub shard_prefix_size : ℕ
shard_prefix_size = 22

-- `stream_id`s.
abbrev pub video : ℕ
video = 3

-- The fields of a prefix; `packet_length` counts its own four bytes.
pub record ShardPrefix : Type 0 where
  pub packet_length : ℕ  -- u32
  pub stream_id : ℕ  -- u16
  pub packet_index : ℕ  -- u32
  pub shards_count : ℕ  -- u32
  pub shard_index : ℕ  -- u32
  pub tx_r_instant : ℕ  -- f32, as bits

pub data ParseResult : Type 0 where
  parsed : ShardPrefix → ParseResult
  too_short : ParseResult

abbrev pub word16 : Bytes → ℕ → ℕ
word16 d i = from_be16 (byte d i) (byte d (i + 1))

abbrev pub word32 : Bytes → ℕ → ℕ
word32 d i = from_be32 (byte d i) (byte d (i + 1)) (byte d (i + 2)) (byte d (i + 3))

-- A release build wraps the `+ 4`.
unfoldable pub parse_shard_data : Bytes → ParseResult
parse_shard_data d =
    if ltb (length d) 22
    then too_short
    else parsed (record {
      packet_length = u32 (word32 d 0 + 4);
      stream_id = word16 d 4;
      packet_index = word32 d 6;
      shards_count = word32 d 10;
      shard_index = word32 d 14;
      tx_r_instant = word32 d 18;
    })

-- The six writes of `send` into `sub_buffer`, which begins at `start`.
unfoldable pub put_prefix : ShardPrefix → ℕ → Bytes → Bytes
put_prefix p start b =
    let b0 = write_at b start (be32 (p.packet_length - 4)) in
    let b1 = write_at b0 (start + 4) (be16 p.stream_id) in
    let b2 = write_at b1 (start + 6) (be32 p.packet_index) in
    let b3 = write_at b2 (start + 10) (be32 p.shards_count) in
    let b4 = write_at b3 (start + 14) (be32 p.shard_index) in
    write_at b4 (start + 18) (be32 p.tx_r_instant)

-- The prefix as one run of bytes.
unfoldable pub prefix_bytes : ShardPrefix → Bytes
prefix_bytes p =
    be32 (p.packet_length - 4)
    ++ (be16 p.stream_id
        ++ (be32 p.packet_index
            ++ (be32 p.shards_count ++ (be32 p.shard_index ++ be32 p.tx_r_instant))))

-- Each field fits its width, and the length counts at least itself.
pub record Fits (p : ShardPrefix) : Type 0 where
  pub length_ge : 4 ≤ p.packet_length
  pub length_lt : p.packet_length < u32_mod
  pub stream_lt : p.stream_id < 65536
  pub packet_lt : p.packet_index < u32_mod
  pub count_lt : p.shards_count < u32_mod
  pub index_lt : p.shard_index < u32_mod
  pub stamp_lt : p.tx_r_instant < u32_mod

pub length-prefix_bytes : (p : ShardPrefix) → length (prefix_bytes p) ≡ 22
unfolding prefix_bytes
length-prefix_bytes p = refl

-- A prefix whose fields fit is read back from its bytes, whatever payload follows.
pub parse-prefix_bytes :
    (p : ShardPrefix) (rest : Bytes) → Fits p → parse_shard_data (prefix_bytes p ++ rest) ≡ parsed p
unfolding parse_shard_data prefix_bytes
parse-prefix_bytes p rest f =
    rw (le→ltb_false (length (prefix_bytes p ++ rest)) 22 (omega arith)) (λ i. parsed (record {
      packet_length = read_length i;
      stream_id = from_be16-be16 p.stream_id f.stream_lt i;
      packet_index = from_be32-be32 p.packet_index f.packet_lt i;
      shards_count = from_be32-be32 p.shards_count f.count_lt i;
      shard_index = from_be32-be32 p.shard_index f.index_lt i;
      tx_r_instant = from_be32-be32 p.tx_r_instant f.stamp_lt i;
    }))
  where
    read_length : u32 (word32 (prefix_bytes p ++ rest) 0 + 4) ≡ p.packet_length
    read_length = omega (arith, f.length_ge, f.length_lt)

-- Two writes side by side are one.
pub write_at-append :
    (b : Bytes) (p q : ℕ) (xs ys : Bytes)
    → q ≡ p + length xs
    → write_at (write_at b p xs) q ys ≡ write_at b p (xs ++ ys)
write_at-append [] p q xs ys e = refl
write_at-append (x ∷ b) zero zero [] ys e = refl
write_at-append (x ∷ b) zero (suc q) [] ys e = absurd (omega arith)
write_at-append (x ∷ b) zero zero (c ∷ xs) ys e = absurd (omega arith)
write_at-append (x ∷ b) zero (suc q) (c ∷ xs) ys e =
    ap (◌∷◌ c) (write_at-append b zero q xs ys (omega arith))
write_at-append (x ∷ b) (suc p) zero xs ys e = absurd (omega arith)
write_at-append (x ∷ b) (suc p) (suc q) xs ys e =
    ap (◌∷◌ x) (write_at-append b p q xs ys (omega arith))

pub put_prefix-write_at :
    (p : ShardPrefix) (start : ℕ) (b : Bytes)
    → put_prefix p start b ≡ write_at b start (prefix_bytes p)
unfolding put_prefix prefix_bytes
put_prefix-write_at p start b =
    write_at-append _ (start + 14) (start + 18) _ _ (omega arith)
    ∙ write_at-append _ (start + 10) (start + 14) _ _ (omega arith)
    ∙ write_at-append _ (start + 6) (start + 10) _ _ (omega arith)
    ∙ write_at-append _ (start + 4) (start + 6) _ _ (omega arith)
    ∙ write_at-append b start (start + 4) _ _ (omega arith)
