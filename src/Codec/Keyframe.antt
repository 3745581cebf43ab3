-- ===== src/Codec/Keyframe.antt =====
-- Keyframes (models_XR.rs): `is_keyframe`, which looks at the start codes that a substring search
-- finds, and `HevcDecoder::detect_keyframe_nal`, which looks at each position. The search,
-- `memchr::memmem::find_iter` for the bytes 00 00 01, is a parameter.
use si_est_a_vr.Common.{
  ℕ, zero, suc, ◌+◌, ◌-◌, ◌/◌, ◌%◌, Bool, true, false, not, ◌&&◌, ◌||◌, List, [], ◌∷◌, leb, ltb,
  ◌==◌, if◌then◌else◌, length, Bytes, byte,
}

pub data VideoCodec : Type 0 where
  hevc av1 : VideoCodec

-- The start codes of three and of four bytes.
unfoldable pub is_short_code : Bytes → ℕ → Bool
is_short_code b i = byte b i == 0 && (byte b (i + 1) == 0 && byte b (i + 2) == 1)

unfoldable pub is_long_code : Bytes → ℕ → Bool
is_long_code b i =
    byte b i == 0 && (byte b (i + 1) == 0 && (byte b (i + 2) == 0 && byte b (i + 3) == 1))

-- The types 16 to 21, in the bits 1 to 6 of the header.
unfoldable pub is_irap : ℕ → Bool
is_irap nal_header = leb 16 (nal_header / 2 % 64) && leb (nal_header / 2 % 64) 21

-- The loop over the next `count` positions.
unfoldable pub detect_from : Bytes → ℕ → ℕ → Bool
detect_from b zero i = false
detect_from b (suc count) i =
    let rest = detect_from b count (suc i) in
    let nal_header_pos = i + (if byte b (i + 2) == 0 then 4 else 3) in
    if is_short_code b i || is_long_code b i
    then (if ltb nal_header_pos (length b) && is_irap (byte b nal_header_pos) then true else rest)
    else rest

unfoldable pub detect_keyframe_nal : Bytes → Bool
detect_keyframe_nal b = detect_from b (length b - 5) 0

unfoldable pub contains_keyframe : Bytes → Bool
contains_keyframe b = if detect_keyframe_nal b then true else false

-- The loop over the places of 00 00 01, in their order.
unfoldable pub scan_codes : Bytes → ℕ → List ℕ → Bool
scan_codes frame lim [] = false
scan_codes frame lim (p ∷ ps) =
    let rest = scan_codes frame lim ps in
    if leb lim p && not (leb 1 p && (ltb (p - 1) lim && byte frame (p - 1) == 0))
    then (if leb (lim + 1) p then false else rest)
    else (if ltb (p + 3) (length frame) && is_irap (byte frame (p + 3)) then true else rest)

unfoldable pub obu_type : ℕ → ℕ
obu_type header = header / 8 % 16

module _ (find_iter : Bytes → List ℕ) where
  unfoldable pub is_keyframe : Bytes → VideoCodec → Bool
  is_keyframe frame hevc =
      if ltb (length frame) 3 then false else scan_codes frame (length frame - 5) (find_iter frame)
  is_keyframe frame av1 =
      if ltb (length frame) 3
      then false
      else (if obu_type (byte frame 0) == 1
          then true
          else obu_type (byte frame 0) == 2
            && (ltb 2 (length frame) && obu_type (byte frame 2) == 1))

-- What is documented of the search: all places where the bytes stand, in order. They cannot overlap.
unfoldable pub codes_from : Bytes → ℕ → ℕ → List ℕ
codes_from b zero i = []
codes_from b (suc count) i =
    let rest = codes_from b count (suc i) in if is_short_code b i then i ∷ rest else rest

abbrev pub occurrences : Bytes → List ℕ
occurrences b = codes_from b (length b - 2) 0
