-- ===== src/Shard/Slices.antt =====
-- Slices of a buffer that is written in place, for the shards of alvr_stream_socket.rs.
use si_est_a_vr.Common.{
  ℕ, zero, suc, ◌+◌, ◌-◌, ◌*◌, ◌/◌, ◌≤◌, ◌<◌, ◌≡◌, refl, ap, [], ◌∷◌, ◌++◌, arith, length, take,
  drop, Bytes, write_at,
}
use native.Mathlib.Nat.{le-div_iff_mul-le, lt-div-mul-add}

-- A slice that begins at a write begins with what was written, and goes on as before.
pub take-drop-write_at :
    (b : Bytes) (p : ℕ) (bs : Bytes) (n k q : ℕ)
    → n ≡ length bs + k
    → q ≡ p + length bs
    → q ≤ length b
    → take n (drop p (write_at b p bs)) ≡ bs ++ take k (drop q b)
take-drop-write_at [] zero [] n k zero e f h = ap (λ i. take i []) (omega arith)
take-drop-write_at [] zero [] n k (suc q) e f h = absurd (omega arith)
take-drop-write_at [] zero (c ∷ bs) n k q e f h = absurd (omega arith)
take-drop-write_at [] (suc p) bs n k q e f h = absurd (omega arith)
take-drop-write_at (x ∷ b) zero [] n k zero e f h = ap (λ i. take i (x ∷ b)) (omega arith)
take-drop-write_at (x ∷ b) zero [] n k (suc q) e f h = absurd (omega arith)
take-drop-write_at (x ∷ b) zero (c ∷ bs) zero k q e f h = absurd (omega arith)
take-drop-write_at (x ∷ b) zero (c ∷ bs) (suc n) k zero e f h = absurd (omega arith)
take-drop-write_at (x ∷ b) zero (c ∷ bs) (suc n) k (suc q) e f h =
    ap (◌∷◌ c) (take-drop-write_at b zero bs n k q (omega arith) (omega arith) (omega arith))
take-drop-write_at (x ∷ b) (suc p) bs n k zero e f h = absurd (omega arith)
take-drop-write_at (x ∷ b) (suc p) bs n k (suc q) e f h =
    take-drop-write_at b p bs n k q e (omega arith) (omega arith)

-- What lies above a write stays.
pub drop-write_at :
    (b : Bytes) (p : ℕ) (bs : Bytes) (n : ℕ)
    → p + length bs ≤ n
    → drop n (write_at b p bs) ≡ drop n b
drop-write_at [] p bs n h = refl
drop-write_at (x ∷ b) zero [] n h = refl
drop-write_at (x ∷ b) zero (c ∷ bs) zero h = absurd (omega arith)
drop-write_at (x ∷ b) zero (c ∷ bs) (suc n) h = drop-write_at b zero bs n (omega arith)
drop-write_at (x ∷ b) (suc p) bs zero h = absurd (omega arith)
drop-write_at (x ∷ b) (suc p) bs (suc n) h = drop-write_at b p bs n (omega arith)

-- A round of the loop begins inside the data.
pub mul_lt_of_lt-ceil : (idx d m : ℕ) → 0 < m → idx < (d + m - 1) / m → idx * m < d
mul_lt_of_lt-ceil idx d m pos h =
    omega (arith, (le-div_iff_mul-le {k = m} {x = suc idx} {y = d + m - 1} pos).0 h)

pub data_le_mul-ceil : (d m : ℕ) → 0 < m → d ≤ (d + m - 1) / m * m
data_le_mul-ceil d m pos = omega (arith, lt-div-mul-add {a = d + m - 1} {b = m} pos)
