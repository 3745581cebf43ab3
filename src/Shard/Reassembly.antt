-- ===== src/Shard/Reassembly.antt =====
-- The bytes of a buffer after one shard was written (alvr_stream_socket.rs, `StreamSocket::recv`).
use native.Mathlib.Decide.{dec_lt}
use si_est_a_vr.Common.{
  ℕ, ◌+◌, ◌-◌, ◌≤◌, ◌<◌, ◌≡◌, refl, ◌∙◌, arith, length, take, drop, Bytes, byte, write_at,
  length-write_at, byte-write_at, byte-write_at_below, ◌⊎◌, inl, inr, byte-write_at_above,
  length-take, length-drop, get_or-take, get_or-drop,
}
use si_est_a_vr.Shard.Assembly.{write_shard}

-- A shard's payload is written, and nothing else changes: not the bytes under its prefix either.
module _ (b shard : Bytes) (start : ℕ) (fits : start + length shard ≤ length b)
    (full : 22 ≤ length shard) where
  pub length-write_shard : length (write_shard start shard b) ≡ length b
  unfolding write_shard
  length-write_shard =
      length-write_at (write_at b start shard) start (take 22 (drop start b))
      ∙ length-write_at b start shard

  length_backup : length (take 22 (drop start b)) ≡ 22
  length_backup = omega (arith, length-take {0} 22 (drop start b), length-drop {0} start b)

  pub byte-write_shard_payload :
      (i : ℕ)
      → 22 ≤ i
      → i < length shard
      → byte (write_shard start shard b) (start + i) ≡ byte shard i
  unfolding write_shard
  byte-write_shard_payload i h k =
      byte-write_at_above (write_at b start shard) start (take 22 (drop start b)) (start + i)
        (omega (arith, length_backup))
      ∙ byte-write_at b start shard (start + i) i refl k fits

  pub byte-write_shard_prefix :
      (i : ℕ) → i < 22 → byte (write_shard start shard b) (start + i) ≡ byte b (start + i)
  unfolding write_shard
  byte-write_shard_prefix i h =
      byte-write_at (write_at b start shard) start (take 22 (drop start b)) (start + i) i refl
        (omega (arith, length_backup)) (omega (arith, length_backup, length-write_at b start shard))
      ∙ get_or-take (drop start b) 22 i 0 h
      ∙ get_or-drop b start i (start + i) 0 refl

  pub byte-write_shard_below : (i : ℕ) → i < start → byte (write_shard start shard b) i ≡ byte b i
  unfolding write_shard
  byte-write_shard_below i h =
      byte-write_at_below (write_at b start shard) start (take 22 (drop start b)) i h
      ∙ byte-write_at_below b start shard i h

  pub byte-write_shard_above :
      (i : ℕ) → start + length shard ≤ i → byte (write_shard start shard b) i ≡ byte b i
  unfolding write_shard
  byte-write_shard_above i h =
      byte-write_at_above (write_at b start shard) start (take 22 (drop start b)) i
        (omega (arith, length_backup))
      ∙ byte-write_at_above b start shard i h

  -- A byte outside the payload, wherever it lies.
  pub byte-write_shard_other :
      (i : ℕ)
      → (i < start + 22) ⊎ (start + length shard ≤ i)
      → byte (write_shard start shard b) i ≡ byte b i
  byte-write_shard_other i (inl h) = elim (dec_lt i start) [
    | yes p ↦ byte-write_shard_below i p
    | no p ↦
        let e : start + (i - start) ≡ i = omega arith in
        rw e at (byte-write_shard_prefix (i - start) (omega arith))
  ]
  byte-write_shard_other i (inr h) = byte-write_shard_above i h
