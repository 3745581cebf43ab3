-- ===== src/Codec/Scan.antt =====
-- The search for start codes, in the data there is and in more of it (mod.rs,
-- `HevcParser::find_next_start_code`).
use si_est_a_vr.Common.{
  ℕ, zero, suc, ◌+◌, ◌-◌, ◌≤◌, ◌<◌, ◌≡◌, sym, true, some, arith, length, ◌++◌, Bytes, byte, ok,
  get_or-append_left, length-append, inl, inr, Bool-cases, le→leb, ne→==_false, lt→ltb,
}
use si_est_a_vr.Codec.Hevc.{is_start_code, find_from, find_next_start_code}

byte-append : (b more : Bytes) (i : ℕ) → i < length b → byte (b ++ more) i ≡ byte b i
byte-append b more i h = get_or-append_left b more i 0 h

-- Away from the end of the buffer the test does not change.
is_start_code-append :
    (b more : Bytes) (i : ℕ) → i + 4 < length b → is_start_code (b ++ more) i ≡ is_start_code b i
unfolding is_start_code
is_start_code-append b more i h = rw (
  byte-append b more i (omega arith),
  byte-append b more (i + 1) (omega arith),
  byte-append b more (i + 2) (omega arith),
  byte-append b more (i + 3) (omega arith),
  lt→ltb i (length b - 4) (omega arith),
  lt→ltb i (length (b ++ more) - 4) (omega (arith, length-append {0} b more)),
)

-- At the last place that is tested, a start code stays one.
is_start_code-append_last :
    (b more : Bytes) (i : ℕ)
    → i + 3 < length b
    → is_start_code b i ≡ true
    → is_start_code (b ++ more) i ≡ true
unfolding is_start_code
is_start_code-append_last b more i h found =
    rw
      (
        byte-append b more i (omega arith),
        byte-append b more (i + 1) (omega arith),
        byte-append b more (i + 2) (omega arith),
        byte-append b more (i + 3) (omega arith),
      )
      (ground (arith, found, length-append {0} b more))

some_eq : {x y : ℕ} → some x ≡ some y → x ≡ y
some_eq h = cc h

pub find_from-bounds :
    (b : Bytes) (n i p : ℕ)
    → find_from b n i ≡ some p
    → (i ≤ p) × (p < i + n) × (is_start_code b p ≡ true)
unfolding find_from
find_from-bounds b zero i p h = cc
find_from-bounds b (suc n) i p h = elim (Bool-cases (is_start_code b i)) [
  | inl here ↦ let e : i ≡ p = some_eq (rw here at h) in (omega arith, omega arith, rw (sym e) here)
  | inr there ↦
      let (low, high, code) = find_from-bounds b n (suc i) p (rw there at h) in
      (omega arith, omega arith, code)
]

pub find_from-append :
    (b more : Bytes) (n m i p : ℕ)
    → find_from b n i ≡ some p
    → n ≤ m
    → i + n + 3 ≤ length b
    → find_from (b ++ more) m i ≡ some p
unfolding find_from
find_from-append b more zero m i p h le room = cc
find_from-append b more (suc n) zero i p h le room = absurd (omega arith)
find_from-append b more (suc n) (suc m) i p h le room = elim (Bool-cases (is_start_code b i)) [
  | inl here ↦ rw (is_start_code-append_last b more i (omega arith) here) (rw here at h)
  | inr there ↦
      let later = rw there at h in
      let (low, high, code) = find_from-bounds b n (suc i) p later in
      rw (is_start_code-append b more i (omega arith), there)
        (find_from-append b more n m (suc i) p later (omega arith) (omega arith))
]

-- The search, where the buffer is long enough.
pub find_next-long :
    (b : Bytes) (start : ℕ)
    → 3 ≤ length b
    → find_next_start_code b start ≡ ok (find_from b (length b - 3 - start) start)
unfolding find_next_start_code
find_next-long b start h = rw (ne→==_false (length b) 0 (omega arith), le→leb 3 (length b) h)

-- What a search finds.
pub found-bounds :
    (b : Bytes) (start p : ℕ)
    → find_from b (length b - 3 - start) start ≡ some p
    → (start ≤ p) × (p + 3 < length b) × (is_start_code b p ≡ true)
found-bounds b start p h =
    let (low, high, code) = find_from-bounds b (length b - 3 - start) start p h in
    (low, omega arith, code)

-- A start code that is found is found at the same place when there is more data.
pub found-append :
    (b more : Bytes) (start p : ℕ)
    → find_from b (length b - 3 - start) start ≡ some p
    → find_from (b ++ more) (length (b ++ more) - 3 - start) start ≡ some p
found-append b more start p h =
    find_from-append b more (length b - 3 - start) (length (b ++ more) - 3 - start) start p h
      (omega (arith, length-append {0} b more)) (omega (arith, found-bounds b start p h))
