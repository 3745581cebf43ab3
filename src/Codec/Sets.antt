-- ===== src/Codec/Sets.antt =====
-- `HevcDecoder::extract_complete_parameter_sets` (models_XR.rs): the last parameter set of each kind in
-- a buffer, with its start code. The loop is on fuel: each round goes past a start code, so one round
-- more than there are bytes is enough.
use si_est_a_vr.Common.{
  ℕ, zero, suc, ◌+◌, ◌-◌, ◌/◌, ◌%◌, ◌==◌, leb, if◌then◌else◌, Option, none, some, length, take,
  drop, Bytes, byte, Outcome, ok, hang,
}
use si_est_a_vr.Codec.Hevc.{NoError, find_from, start_code_len}

pub record ParameterSets : Type 0 where
  pub vps_packet : Option Bytes
  pub sps_packet : Option Bytes
  pub pps_packet : Option Bytes

abbrev pub no_sets : ParameterSets
no_sets = record { vps_packet = none; sps_packet = none; pps_packet = none }

abbrev pub nal_type_at : Bytes → ℕ → ℕ
nal_type_at b header = byte b header / 2 % 64

unfoldable pub keep_set : ℕ → Bytes → ParameterSets → ParameterSets
keep_set nal_type packet s =
    if nal_type == 32
    then record s { vps_packet = some packet }
    else (if nal_type == 33
        then record s { sps_packet = some packet }
        else (if nal_type == 34 then record s { pps_packet = some packet } else s))

-- `find_next_start_code` of the decoder: its range saturates, so that no buffer is too short.
abbrev pub next_start_code : Bytes → ℕ → Option ℕ
next_start_code b start = find_from b (length b - 3 - start) start

-- The next start code or the end of the buffer.
abbrev pub or_end : ℕ → Option ℕ → ℕ
or_end end none = end
or_end end (some pos) = pos

abbrev pub header_of : Bytes → ℕ → ℕ
header_of b pos = pos + start_code_len b pos

abbrev pub end_of : Bytes → ℕ → ℕ
end_of b pos = or_end (length b) (next_start_code b (header_of b pos))

-- One round, from the start code that was found; `again` goes on from a position.
abbrev pub take_set :
    (ℕ → ParameterSets → Outcome NoError ParameterSets)
    → Bytes
    → Option ℕ
    → ParameterSets
    → Outcome NoError ParameterSets
take_set again b none s = ok s
take_set again b (some pos) s =
    if leb (length b) (header_of b pos)
    then ok s
    else again (end_of b pos)
        (keep_set (nal_type_at b (header_of b pos)) (take (end_of b pos - pos) (drop pos b)) s)

unfoldable pub extract_from : Bytes → ℕ → ℕ → ParameterSets → Outcome NoError ParameterSets
extract_from b zero start s = hang
extract_from b (suc fuel) start s = take_set (extract_from b fuel) b (next_start_code b start) s

unfoldable pub extract_complete_parameter_sets : Bytes → Outcome NoError ParameterSets
extract_complete_parameter_sets b = extract_from b (suc (length b)) 0 no_sets
