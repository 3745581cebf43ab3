-- ===== src/Codec/Keyframes.antt =====
-- The keyframe test at concrete frames.
use si_est_a_vr.Common.{◌≡◌, refl, true, [], ◌∷◌, Bytes}
use si_est_a_vr.Codec.Keyframe.{
  hevc, is_short_code, is_irap, detect_keyframe_nal, scan_codes, is_keyframe, codes_from,
  occurrences,
}
use si_est_a_vr.Codec.Detected.{is_keyframe-detect_keyframe_nal}

-- A start code of four bytes at the limit, and the header of a keyframe.
abbrev at_limit : Bytes
at_limit = 9 ∷ 0 ∷ 0 ∷ 0 ∷ 1 ∷ 38 ∷ 7 ∷ []

found_at_limit : is_keyframe occurrences at_limit hevc ≡ true
unfolding is_keyframe scan_codes codes_from is_short_code is_irap
found_at_limit = refl

is_keyframe-detect_keyframe_nal_example :
    is_keyframe occurrences at_limit hevc ≡ detect_keyframe_nal at_limit
is_keyframe-detect_keyframe_nal_example = is_keyframe-detect_keyframe_nal occurrences at_limit refl
