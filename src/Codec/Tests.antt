-- ===== src/Codec/Tests.antt =====
-- The theorems on the parsers at concrete inputs.
use si_est_a_vr.Common.{◌≡◌, List, [], ◌∷◌, ◌++◌, none, arith, Bytes, ok, map, none, refl}
use si_est_a_vr.Codec.Hevc.{HevcParser, new, add_bytes, get_frames}
use si_est_a_vr.Codec.Chunks.{get_frames-chunks}
use si_est_a_vr.Codec.Av1.{Av1Parser, get_obu_units}
use si_est_a_vr.Codec.RoundTrip.{Obu, AllObu, stream_of, unit_of, get_obu_units-stream_of}

-- A parameter set, a slice, and a second slice whose start code is cut in two.
abbrev first_read : Bytes
first_read = 0 ∷ 0 ∷ 0 ∷ 1 ∷ 64 ∷ 1 ∷ 0 ∷ 0 ∷ 1 ∷ 38 ∷ 1 ∷ 7 ∷ 0 ∷ 0 ∷ []

abbrev second_read : Bytes
second_read = 0 ∷ 1 ∷ 2 ∷ 1 ∷ 8 ∷ 0 ∷ 0 ∷ 1 ∷ 2 ∷ 1 ∷ []

abbrev reading : HevcParser
reading = add_bytes first_read new

get_frames-chunks_example :
    (q : HevcParser) × (r : HevcParser) × (first : List Bytes) × (second : List Bytes) × (get_frames
        reading
      ≡ ok (q, first))
    × (get_frames (add_bytes second_read q) ≡ ok (r, second))
    × (get_frames (add_bytes second_read reading) ≡ ok (r, first ++ second))
get_frames-chunks_example = get_frames-chunks reading second_read (omega arith)

-- Two units, the second with an extension, and the start of a third.
abbrev stream : Av1Parser
stream = record {
  buffer = 10 ∷ 2 ∷ 5 ∷ 6 ∷ 54 ∷ 0 ∷ 1 ∷ 9 ∷ 50 ∷ 3 ∷ 1 ∷ [];
  sequence_header = none;
}

abbrev two_units : List Obu
two_units = (1, 5 ∷ 6 ∷ []) ∷ (6, 9 ∷ []) ∷ []

abbrev written : Av1Parser
written = record { buffer = stream_of two_units; sequence_header = none }

two_units-AllObu : AllObu two_units
two_units-AllObu = (
  record { type_lt = omega arith; size_lt = omega arith },
  (record { type_lt = omega arith; size_lt = omega arith }, tt),
)

get_obu_units-stream_of_example :
    get_obu_units written ≡ (record written { buffer = [] }, map unit_of two_units)
get_obu_units-stream_of_example = get_obu_units-stream_of two_units written two_units-AllObu refl
