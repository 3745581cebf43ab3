-- ===== src/Codec/Detected.antt =====
-- The two searches for a keyframe find the same frames (models_XR.rs, `is_keyframe` and
-- `detect_keyframe_nal`).
use si_est_a_vr.Common.{
  ℕ, zero, suc, ◌+◌, ◌-◌, ◌≤◌, ◌<◌, ◌≡◌, refl, sym, ◌∙◌, Bool, true, false, ◌&&◌, ◌||◌, List, inl,
  inr, arith, leb, ltb, ◌==◌, length, Bytes, byte, Bool-cases,
}
use si_est_a_vr.Codec.Keyframe.{
  hevc, is_short_code, is_long_code, is_irap, detect_from, detect_keyframe_nal, scan_codes,
  is_keyframe, codes_from, occurrences,
}

-- A keyframe's start code at a position.
abbrev Short : Bytes → ℕ → Type 0
Short b i = (is_short_code b i ≡ true) × (is_irap (byte b (i + 3)) ≡ true)

abbrev Long : Bytes → ℕ → Type 0
Long b i = (is_long_code b i ≡ true) × (is_irap (byte b (i + 4)) ≡ true)

detect-Short :
    (b : Bytes) (n i : ℕ) → 0 < n → i + 4 < length b → Short b i → detect_from b n i ≡ true
unfolding detect_from is_short_code
detect-Short b zero i h room s = absurd (omega arith)
detect-Short b (suc n) i h room s = ground (arith, s)

detect-Long : (b : Bytes) (n i : ℕ) → 0 < n → i + 4 < length b → Long b i → detect_from b n i ≡ true
unfolding detect_from is_long_code
detect-Long b zero i h room s = absurd (omega arith)
detect-Long b (suc n) i h room s = ground (arith, s)

detect-suc : (b : Bytes) (n i : ℕ) → detect_from b n (suc i) ≡ true → detect_from b (suc n) i ≡ true
unfolding detect_from
detect-suc b n i h = ground (arith, h)

-- A start code of three bytes at the limit, behind a zero: the end of one of four bytes.
abbrev late : Bytes → ℕ → Bool
late b lim =
    leb 1 lim && (byte b (lim - 1) == 0 && (is_short_code b lim && is_irap (byte b (lim + 3))))

late-Long : (b : Bytes) (i : ℕ) → late b (suc i) ≡ true → Long b i
unfolding is_short_code is_long_code
late-Long b i h = ground (arith, h)

detect-late :
    (b : Bytes) (k i : ℕ)
    → i + k + 5 ≤ length b
    → late b (i + k) ≡ true
    → 0 < k
    → detect_from b k i ≡ true
detect-late b zero i room h pos = absurd (omega arith)
detect-late b (suc zero) i room h pos =
    let next : i + 1 ≡ suc i = omega arith in
    detect-Long b 1 i (omega arith) (omega arith) (late-Long b i (rw next at h))
detect-late b (suc (suc k)) i room h pos =
    let next : i + suc (suc k) ≡ suc i + suc k = omega arith in
    detect-suc b (suc k) i
      (detect-late b (suc k) (suc i) (omega arith) (rw next at h) (omega arith))

-- Behind the limit nothing counts.
scan-after : (b : Bytes) (lim n i : ℕ) → lim < i → scan_codes b lim (codes_from b n i) ≡ false
unfolding scan_codes codes_from
scan-after b lim zero i h = refl
scan-after b lim (suc n) i h = ground (arith, scan-after b lim n (suc i))

scan-at :
    (b : Bytes) (lim n : ℕ)
    → lim + 3 < length b
    → scan_codes b lim (codes_from b (suc n) lim) ≡ late b lim
unfolding scan_codes codes_from
scan-at b lim n room = ground (arith, scan-after b lim n (suc lim))

scan-step :
    (b : Bytes) (lim n i : ℕ)
    → i < lim
    → i + 4 < length b
    → scan_codes b lim (codes_from b (suc n) i)
      ≡ (is_short_code b i && is_irap (byte b (i + 3)) || scan_codes b lim (codes_from b n (suc i)))
unfolding scan_codes codes_from
scan-step b lim n i h room = ground arith

detect-step :
    (b : Bytes) (n i : ℕ)
    → i + 4 < length b
    → detect_from b (suc n) i ≡ (
        is_short_code b i && is_irap (byte b (i + 3))
        || (is_long_code b i && is_irap (byte b (i + 4)) || detect_from b n (suc i)))
unfolding detect_from is_short_code is_long_code
detect-step b n i room = ground arith

-- A start code of four bytes holds one of three.
Long-next :
    (b : Bytes) (lim k i : ℕ)
    → i + suc k ≡ lim
    → length b ≡ lim + 5
    → Long b i
    → (detect_from b k (suc i) || late b lim) ≡ true
unfolding is_short_code is_long_code detect_from
Long-next b lim zero i e room h =
    let next : lim ≡ suc i = omega arith in rw next (ground (arith, h))
Long-next b lim (suc k) i e room h =
    rw (detect-Short b (suc k) (suc i) (omega arith) (omega arith) (ground (arith, h))) refl

scan-detect :
    (b : Bytes) (lim k i : ℕ)
    → i + k ≡ lim
    → length b ≡ lim + 5
    → scan_codes b lim (codes_from b (suc (suc (suc k))) i) ≡ (detect_from b k i || late b lim)
unfolding detect_from
scan-detect b lim zero i e room =
    let here : i ≡ lim = omega arith in rw here (scan-at b lim 2 (omega arith))
scan-detect b lim (suc k) i e room = ground (
  arith,
  scan-step b lim (suc (suc (suc k))) i (omega arith) (omega arith),
  detect-step b k i (omega arith),
  scan-detect b lim k (suc i) (omega arith) room,
  Long-next b lim k i e room,
)

scan-zero : (b : Bytes) (n : ℕ) → scan_codes b 0 (codes_from b n 0) ≡ false
unfolding scan_codes codes_from
scan-zero b zero = refl
scan-zero b (suc n) = ground (arith, scan-after b 0 n 1)

detect-none : (b : Bytes) (i : ℕ) → detect_from b 0 i ≡ false
unfolding detect_from
detect-none b i = refl

scan-long :
    (b : Bytes) (lim : ℕ)
    → length b ≡ lim + 5
    → scan_codes b lim (occurrences b) ≡ detect_from b lim 0
scan-long b zero room = scan-zero b (length b - 2) ∙ sym (detect-none b 0)
scan-long b (suc lim) room =
    let places : length b - 2 ≡ suc (suc (suc (suc lim))) = omega arith in
    rw places (
      ground (
        arith,
        scan-detect b (suc lim) (suc lim) 0 (omega arith) room,
        detect-late b (suc lim) 0 (omega arith),
      ))

-- Whatever the bytes of a frame, the keyframe test by the substring search answers as the one that
-- looks at each position, if the search gives all places of 00 00 01 in order.
pub is_keyframe-detect_keyframe_nal :
    (find_iter : Bytes → List ℕ) (frame : Bytes)
    → find_iter frame ≡ occurrences frame
    → is_keyframe find_iter frame hevc ≡ detect_keyframe_nal frame
unfolding is_keyframe detect_keyframe_nal
is_keyframe-detect_keyframe_nal find_iter frame found =
    rw found (elim (Bool-cases (ltb (length frame) 5)) [
      | inl e ↦
          let none_left : length frame - 5 ≡ 0 = ground arith in
          rw none_left (ground (arith, scan-zero frame (length frame - 2), detect-none frame 0))
      | inr e ↦ ground (arith, scan-long frame (length frame - 5) (ground arith))
    ])
