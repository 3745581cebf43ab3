-- ===== src/Shard/Parsing.antt =====
-- The prefix as `StreamSender::send` writes it into the frame's buffer and as `parse_shard_data`
-- reads it from the shard's bytes (alvr_stream_socket.rs).
use si_est_a_vr.Common.{ℕ, ◌+◌, ◌-◌, ◌≤◌, ◌≡◌, refl, ap, ◌∙◌, length, take, drop, Bytes}
use si_est_a_vr.Shard.Prefix.{
  ShardPrefix, parse_shard_data, parsed, put_prefix, Fits, parse-prefix_bytes,
}
use si_est_a_vr.Shard.Sending.{slice-put_prefix}

-- Write a prefix whose fields fit at any place of a buffer with room for it, and parse a slice of
-- at least 22 bytes that begins there: the fields come back as they were.
pub parse-put_prefix :
    (p : ShardPrefix) (b : Bytes) (start n : ℕ)
    → Fits p
    → 22 ≤ n
    → start + 22 ≤ length b
    → parse_shard_data (take n (drop start (put_prefix p start b))) ≡ parsed p
parse-put_prefix p b start n f long room =
    ap parse_shard_data (slice-put_prefix p b b start n long room refl)
    ∙ parse-prefix_bytes p (take (n - 22) (drop (start + 22) b)) f
