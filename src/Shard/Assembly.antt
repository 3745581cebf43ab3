-- ===== src/Shard/Assembly.antt =====
-- The part of `StreamSocket::recv` that writes one shard into its frame's buffer
-- (alvr_stream_socket.rs). The whole shard is read over the buffer at its place, prefix included;
-- the 22 bytes under the prefix belong to the shard before, and are saved and put back.
use si_est_a_vr.Common.{
  ℕ, ◌+◌, ◌-◌, ◌*◌, max, ◌≡◌, ◌⊎◌, arith, Bool, true, false, ◌||◌, List, [], ◌∷◌, Option, ltb, ◌==◌,
  if◌then◌else◌, length, take, drop, Bytes, resize, write_at,
}

pub record InProgress : Type 0 where
  pub buffer : Bytes
  pub buffer_length : ℕ
  pub received_shard_indices : List ℕ
  pub deadline : Option ℕ
  pub num_shards_expected : ℕ
  pub id_frame : ℕ

abbrev pub contains : ℕ → List ℕ → Bool
contains k [] = false
contains k (x ∷ xs) = k == x || contains k xs

-- A `HashSet` of indices: no entry twice.
abbrev pub insert_index : ℕ → List ℕ → List ℕ
insert_index k xs = if contains k xs then xs else k ∷ xs

pub contains-insert_index :
    (i k : ℕ) (xs : List ℕ)
    → contains i (insert_index k xs) ≡ true
    → (i ≡ k) ⊎ (contains i xs ≡ true)
contains-insert_index i k xs h = ground arith

pub contains-insert_index_eq :
    (i k : ℕ) (xs : List ℕ) → contains i (insert_index k xs) ≡ (i == k || contains i xs)
contains-insert_index_eq i k xs = ground arith

-- Make room for `shard_length` bytes from `start` on.
unfoldable pub accommodate : ℕ → ℕ → InProgress → InProgress
accommodate start shard_length p =
    let needed = max p.buffer_length (start + shard_length) in
    record p {
      buffer_length = needed;
      buffer = if ltb (length p.buffer) needed then resize needed p.buffer else p.buffer;
    }

-- Read a shard of which `shard` are all the bytes, saving and restoring what its prefix covers.
unfoldable pub write_shard : ℕ → Bytes → Bytes → Bytes
write_shard start shard buffer =
    let backup = take 22 (drop start buffer) in write_at (write_at buffer start shard) start backup

unfoldable pub store_shard : ℕ → ℕ → Bytes → InProgress → InProgress
unfolding accommodate write_shard
store_shard max_packet_size shard_index shard p =
    let start = shard_index * (max_packet_size - 22) in
    let p' = accommodate start (length shard) p in
    record p' {
      buffer = write_shard start shard p'.buffer;
      received_shard_indices = insert_index shard_index p'.received_shard_indices;
    }
