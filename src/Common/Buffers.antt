-- ===== src/Common/Buffers.antt =====
-- Byte buffers: an in-place copy into a slice, `Vec::resize`, and big-endian words.
use Prim.Native.Nat.{ℕ, zero, suc, ◌+◌, ◌-◌, ◌*◌, ◌/◌, ◌%◌, ◌<◌, ◌≤◌}
use mathlib.Core.Path.{◌≡◌, refl, ap, sym, ◌∙◌}
use mathlib.Core.List.{List, [], ◌∷◌, ◌++◌}
use native.Mathlib.Omega.{arith}
use native.Mathlib.Decide.{dec_lt}
use si_est_a_vr.Common.Lists.{
  length, get_or, take, replicate, length-append, length-replicate, length-take, take-length_le,
  get_or-append_left, get_or-append_right, get_or-replicate, get_or-length_le,
}

abbrev pub Bytes : Type 0
Bytes = List ℕ

-- The byte at a place; 0 outside.
abbrev pub byte : Bytes → ℕ → ℕ
byte b i = get_or b i 0

-- `buf[pos..pos + bs.len()].copy_from_slice(bs)`, where the slice lies inside the buffer. What
-- would fall outside is dropped: the callers test the bounds, where the source panics.
abbrev pub write_at : Bytes → ℕ → Bytes → Bytes
write_at [] pos bs = []
write_at (x ∷ xs) zero [] = x ∷ xs
write_at (x ∷ xs) zero (b ∷ bs) = b ∷ write_at xs zero bs
write_at (x ∷ xs) (suc p) bs = x ∷ write_at xs p bs

-- `Vec::resize(n, 0)`.
abbrev pub resize : ℕ → Bytes → Bytes
resize n b = take n b ++ replicate (n - length b) 0

pub length-write_at : (b : Bytes) (p : ℕ) (bs : Bytes) → length (write_at b p bs) ≡ length b
length-write_at [] p bs = refl
length-write_at (x ∷ xs) zero [] = refl
length-write_at (x ∷ xs) zero (c ∷ bs) = ap suc (length-write_at xs zero bs)
length-write_at (x ∷ xs) (suc p) bs = ap suc (length-write_at xs p bs)

pub length-resize : (n : ℕ) (b : Bytes) → length (resize n b) ≡ n
length-resize n b = omega (
  arith,
  length-append {0} (take n b) (replicate (n - length b) 0),
  length-take {0} n b,
  length-replicate {0} (n - length b) (zero),
)

-- A byte outside the slice is kept.
pub byte-write_at_below :
    (b : Bytes) (p : ℕ) (bs : Bytes) (i : ℕ) → i < p → byte (write_at b p bs) i ≡ byte b i
byte-write_at_below [] p bs i h = refl
byte-write_at_below (x ∷ xs) zero bs i h = absurd (omega arith)
byte-write_at_below (x ∷ xs) (suc p) bs zero h = refl
byte-write_at_below (x ∷ xs) (suc p) bs (suc i) h = byte-write_at_below xs p bs i (omega arith)

pub byte-write_at_above :
    (b : Bytes) (p : ℕ) (bs : Bytes) (i : ℕ)
    → p + length bs ≤ i
    → byte (write_at b p bs) i ≡ byte b i
byte-write_at_above [] p bs i h = refl
byte-write_at_above (x ∷ xs) zero [] i h = refl
byte-write_at_above (x ∷ xs) zero (c ∷ bs) zero h = absurd (omega arith)
byte-write_at_above (x ∷ xs) zero (c ∷ bs) (suc i) h =
    byte-write_at_above xs zero bs i (omega arith)
byte-write_at_above (x ∷ xs) (suc p) bs zero h = absurd (omega arith)
byte-write_at_above (x ∷ xs) (suc p) bs (suc i) h = byte-write_at_above xs p bs i (omega arith)

-- A byte inside it is the copied one.
pub byte-write_at :
    (b : Bytes) (p : ℕ) (bs : Bytes) (i j : ℕ)
    → i ≡ p + j
    → j < length bs
    → p + length bs ≤ length b
    → byte (write_at b p bs) i ≡ byte bs j
byte-write_at [] p [] i j e h k = absurd (omega arith)
byte-write_at [] p (c ∷ bs) i j e h k = absurd (omega arith)
byte-write_at (x ∷ xs) zero [] i j e h k = absurd (omega arith)
byte-write_at (x ∷ xs) zero (c ∷ bs) zero zero e h k = refl
byte-write_at (x ∷ xs) zero (c ∷ bs) zero (suc j) e h k = absurd (omega arith)
byte-write_at (x ∷ xs) zero (c ∷ bs) (suc i) zero e h k = absurd (omega arith)
byte-write_at (x ∷ xs) zero (c ∷ bs) (suc i) (suc j) e h k =
    byte-write_at xs zero bs i j (omega arith) (omega arith) (omega arith)
byte-write_at (x ∷ xs) (suc p) bs zero j e h k = absurd (omega arith)
byte-write_at (x ∷ xs) (suc p) bs (suc i) j e h k =
    byte-write_at xs p bs i j (omega arith) h (omega arith)

-- Growing a buffer keeps its bytes, and the new ones are 0.
pub byte-resize : (n : ℕ) (b : Bytes) (i : ℕ) → length b ≤ n → byte (resize n b) i ≡ byte b i
byte-resize n b i h = rw (take-length_le b n h) (elim (dec_lt i (length b)) [
  | yes p ↦ get_or-append_left b (replicate (n - length b) 0) i 0 p
  | no p ↦
      get_or-append_right b (replicate (n - length b) 0) i (i - length b) 0 (omega arith)
      ∙ get_or-replicate (n - length b) (i - length b) 0
      ∙ sym (get_or-length_le b i 0 (omega arith))
])

-- `u16::to_be_bytes` and `u32::to_be_bytes`, and back.
abbrev pub be16 : ℕ → Bytes
be16 n = (n / 256 % 256) ∷ (n % 256) ∷ []

abbrev pub be32 : ℕ → Bytes
be32 n = (n / 16777216 % 256) ∷ (n / 65536 % 256) ∷ (n / 256 % 256) ∷ (n % 256) ∷ []

abbrev pub from_be16 : ℕ → ℕ → ℕ
from_be16 a b = a * 256 + b

abbrev pub from_be32 : ℕ → ℕ → ℕ → ℕ → ℕ
from_be32 a b c d = a * 16777216 + b * 65536 + c * 256 + d

abbrev pub u32_mod : ℕ
u32_mod = 4294967296

-- `as u32`.
abbrev pub u32 : ℕ → ℕ
u32 n = n % 4294967296

pub from_be32-be32 :
    (n : ℕ)
    → n < u32_mod
    → from_be32 (n / 16777216 % 256) (n / 65536 % 256) (n / 256 % 256) (n % 256) ≡ n
from_be32-be32 n h = omega arith

pub from_be16-be16 : (n : ℕ) → n < 65536 → from_be16 (n / 256 % 256) (n % 256) ≡ n
from_be16-be16 n h = omega arith
