-- ===== src/Rng/SplitMix.antt =====
-- `SimRng`, `mix64` and the tags (sim_rng.rs). A `u64` is a number with its wrap written out, and a
-- shift to the right is a division.
use Prim.Native.Nat.{bit_xor}
use si_est_a_vr.Common.{
  ℕ, zero, suc, ◌+◌, ◌-◌, ◌*◌, ◌/◌, ◌%◌, ◌^◌, min, List, [], ◌∷◌, ◌++◌, ◌==◌, if◌then◌else◌, take,
  Bytes,
}

abbrev pub wrap64 : ℕ → ℕ
wrap64 n = n % 18446744073709551616

unfoldable pub mix64 : ℕ → ℕ
mix64 z =
    let z0 = wrap64 (z + 11400714819323198485) in
    let z1 = wrap64 (bit_xor z0 (z0 / 2 ^ 30) * 13787848793156543929) in
    let z2 = wrap64 (bit_xor z1 (z1 / 2 ^ 27) * 10723151780598845931) in bit_xor z2 (z2 / 2 ^ 31)

abbrev pub tag_from : ℕ → List ℕ → ℕ
tag_from acc [] = acc
tag_from acc (p ∷ ps) = tag_from (mix64 (bit_xor acc (mix64 p))) ps

unfoldable pub tag : List ℕ → ℕ
tag parts = tag_from 2611923443488327891 parts

abbrev pub tag_str_from : ℕ → Bytes → ℕ
tag_str_from h [] = h
tag_str_from h (b ∷ bs) = tag_str_from (wrap64 (bit_xor h b * 1099511628211)) bs

unfoldable pub tag_str : Bytes → ℕ
tag_str s = tag_str_from 14695981039346656037 s

pub record SimRng : Type 0 where
  pub state : ℕ  -- u64

abbrev pub new : ℕ → SimRng
new seed = record { state = mix64 seed }

abbrev pub for_seed : ℕ → ℕ → SimRng
for_seed seed owner = new (bit_xor seed (mix64 owner))

unfoldable pub next_u64 : SimRng → SimRng × ℕ
next_u64 s =
    let z0 = wrap64 (s.state + 11400714819323198485) in
    let z1 = wrap64 (bit_xor z0 (z0 / 2 ^ 30) * 13787848793156543929) in
    let z2 = wrap64 (bit_xor z1 (z1 / 2 ^ 27) * 10723151780598845931) in
    (record { state = z0 }, bit_xor z2 (z2 / 2 ^ 31))

unfoldable pub next_u32 : SimRng → SimRng × ℕ
next_u32 s = let (s', v) = next_u64 s in (s', v / 2 ^ 32 % 2 ^ 32)

-- `to_le_bytes`.
abbrev pub le_bytes : ℕ → ℕ → Bytes
le_bytes zero v = []
le_bytes (suc n) v = v % 256 ∷ le_bytes n (v / 256)

-- The loop over the chunks of eight bytes, on fuel: a chunk has a byte at least.
unfoldable pub fill_from : ℕ → ℕ → SimRng → SimRng × Bytes
fill_from zero count s = (s, [])
fill_from (suc fuel) count s =
    let (s', v) = next_u64 s in
    let (end, rest) = fill_from fuel (count - 8) s' in
    if count == 0 then (s, []) else (end, take (min 8 count) (le_bytes 8 v) ++ rest)

-- `fill_bytes` into a buffer of `count` bytes.
unfoldable pub fill_bytes : ℕ → SimRng → SimRng × Bytes
fill_bytes count s = fill_from count count s
