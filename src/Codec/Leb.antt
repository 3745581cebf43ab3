-- ===== src/Codec/Leb.antt =====
-- Sizes in groups of seven bits (mod.rs, `Av1Parser::parse_leb128`), and the encoding they are in.
use native.Mathlib.Nat.{pow-suc}
use si_est_a_vr.Common.{
  ℕ, zero, suc, ◌+◌, ◌*◌, ◌^◌, ◌/◌, ◌%◌, ◌≤◌, ◌<◌, ◌≡◌, ap, ◌∙◌, some, arith, ltb, if◌then◌else◌,
  length, [], ◌∷◌, ◌++◌, Bytes, inl, inr, Bool-cases, le→ltb_false,
}
use si_est_a_vr.Codec.Av1.{leb128}

-- The groups of `n`, the lowest first, in at most `most` bytes.
abbrev pub leb_bytes : ℕ → ℕ → Bytes
leb_bytes zero n = []
leb_bytes (suc most) n =
    let rest = leb_bytes most (n / 128) in if ltb n 128 then n ∷ [] else (128 + n % 128) ∷ rest

regroup_mul : (a b w : ℕ) → (a + b * 128) * w ≡ a * w + b * (w * 128)
regroup_mul a b w = grind (arith)

shift_seven : (s : ℕ) → 2 ^ (s + 7) ≡ 2 ^ s * 128
shift_seven s =
    ap (λ n. 2 ^ n) (seven s)
    ∙ rw (pow-suc, pow-suc, pow-suc, pow-suc, pow-suc, pow-suc, pow-suc) (grind arith)
  where
    seven : (s : ℕ) → s + 7 ≡ suc (suc (suc (suc (suc (suc (suc s))))))
    seven s = omega arith

regroup : (n v w : ℕ) → v + n % 128 * w + n / 128 * (w * 128) ≡ v + n * w
regroup n v w = grind (arith, regroup_mul (n % 128) (n / 128) w)

all_groups : (n v s : ℕ) → v + n % 128 * 2 ^ s + n / 128 * 2 ^ (s + 7) ≡ v + n * 2 ^ s
all_groups n v s = rw (shift_seven s) (regroup n v (2 ^ s))

add_one : (k l : ℕ) → k + 1 + l ≡ k + suc l
add_one k l = omega arith

quotient_small : (m n : ℕ) → n < 128 ^ suc m → n / 128 < 128 ^ m
quotient_small m n h = omega (arith, h, pow-suc 128 m)

more_groups : (m n : ℕ) → n < 128 ^ suc m → 128 ≤ n → 0 < m
more_groups zero n h k = absurd (omega (arith, h, k))
more_groups (suc m) n h k = omega arith

-- A size below 128 ^ most, written in at most `most` groups, is read back with their number, whatever
-- follows, as long as at most nine groups are read.
pub leb128-leb_bytes :
    (most n k s v : ℕ) (rest : Bytes)
    → n < 128 ^ most
    → 0 < most
    → k + most ≤ 9
    → leb128 (leb_bytes most n ++ rest) k s v ≡ some (v + n * 2 ^ s, k + length (leb_bytes most n))
unfolding leb128
leb128-leb_bytes zero n k s v rest small pos room = absurd (omega arith)
leb128-leb_bytes (suc most) n k s v rest small pos room = elim (Bool-cases (ltb n 128)) [
  | inl last ↦
      let less : n < 128 = ground (arith, last) in
      let low : n % 128 ≡ n = omega (arith, less) in rw (last, last, low)
  | inr goes_on ↦
      let big : 128 ≤ n = ground (arith, goes_on) in
      let low : (128 + n % 128) % 128 ≡ n % 128 = omega arith in
      let most_pos : 0 < most = more_groups most n small big in
      rw
        (
          goes_on,
          le→ltb_false (128 + n % 128) 128 (omega arith),
          le→ltb_false 8 (k + 1) (omega (arith, most_pos)),
          low,
        )
        (leb128-leb_bytes most (n / 128) (k + 1) (s + 7) (v + n % 128 * 2 ^ s) rest
            (quotient_small most n small) most_pos (omega arith)
          ∙ (λ i. some (all_groups n v s i, add_one k (length (leb_bytes most (n / 128))) i)))
]

-- A size in at most nine groups.
unfoldable pub size_bytes : ℕ → Bytes
size_bytes n = leb_bytes 9 n

pub leb128-size_bytes :
    (n : ℕ) (rest : Bytes)
    → n < 128 ^ 9
    → leb128 (size_bytes n ++ rest) 0 0 0 ≡ some (n, length (size_bytes n))
unfolding size_bytes
leb128-size_bytes n rest h =
    leb128-leb_bytes 9 n 0 0 0 rest h (omega arith) (omega arith)
    ∙ (λ i. some (at_start n i, none_before (length (leb_bytes 9 n)) i))
  where
    at_start : (n : ℕ) → 0 + n * 2 ^ 0 ≡ n
    at_start n = omega arith

    none_before : (l : ℕ) → 0 + l ≡ l
    none_before l = omega arith
