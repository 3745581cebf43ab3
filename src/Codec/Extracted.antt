-- ===== src/Codec/Extracted.antt =====
-- What `HevcDecoder::extract_complete_parameter_sets` finds (models_XR.rs).
use si_est_a_vr.Common.{
  ℕ, zero, suc, ◌+◌, ◌-◌, ◌≤◌, ◌<◌, ◌==◌, leb, ◌≡◌, refl, true, Option, none, some, length, take,
  drop, Bytes, ok, arith, if_elim, Outcome, eq_of_==,
}
use si_est_a_vr.Codec.Hevc.{NoError, is_start_code, find_from, start_code_len}
use si_est_a_vr.Codec.Scan.{find_from-bounds}
use si_est_a_vr.Codec.Sets.{
  ParameterSets, no_sets, nal_type_at, keep_set, next_start_code, or_end, header_of, end_of,
  take_set, extract_from, extract_complete_parameter_sets,
}

-- A unit of the type, from its start code to the next one or the end of the buffer.
pub record IsUnit (b : Bytes) (nal_type : ℕ) (packet : Bytes) : Type 0 where
  pub pos : ℕ
  pub code : is_start_code b pos ≡ true
  pub inside : header_of b pos < length b
  pub typed : nal_type_at b (header_of b pos) ≡ nal_type
  pub whole : packet ≡ take (end_of b pos - pos) (drop pos b)

abbrev pub UnitIfAny : Bytes → ℕ → Option Bytes → Type 0
UnitIfAny b nal_type none = Unit
UnitIfAny b nal_type (some packet) = IsUnit b nal_type packet

pub record AreSets (b : Bytes) (s : ParameterSets) : Type 0 where
  pub vps : UnitIfAny b 32 s.vps_packet
  pub sps : UnitIfAny b 33 s.sps_packet
  pub pps : UnitIfAny b 34 s.pps_packet

keep_set-AreSets :
    (b : Bytes) (pos : ℕ) (s : ParameterSets)
    → is_start_code b pos ≡ true
    → header_of b pos < length b
    → AreSets b s
    → AreSets b
        (keep_set (nal_type_at b (header_of b pos)) (take (end_of b pos - pos) (drop pos b)) s)
unfolding keep_set
keep_set-AreSets b pos s code inside h =
    let ty = nal_type_at b (header_of b pos) in
    let unit_of : (n : ℕ) → (ty == n) ≡ true → IsUnit b n (take (end_of b pos - pos) (drop pos b)) =
      λ n e. record {
        pos = pos;
        code = code;
        inside = inside;
        typed = eq_of_== ty n e;
        whole = refl;
      } in
    if_elim {A = ParameterSets} (AreSets b) (ty == 32)
      (λ e. record { vps = unit_of 32 e; sps = h.sps; pps = h.pps })
      (λ e.
        if_elim {A = ParameterSets} (AreSets b) (ty == 33)
          (λ i. record { vps = h.vps; sps = unit_of 33 i; pps = h.pps })
          (λ i.
            if_elim {A = ParameterSets} (AreSets b) (ty == 34)
              (λ j. record { vps = h.vps; sps = h.sps; pps = unit_of 34 j }) (λ j. h)))

start_code_len-pos : (b : Bytes) (pos : ℕ) → 3 ≤ start_code_len b pos
unfolding start_code_len
start_code_len-pos b pos = ground arith

-- The next place to look at is further on, and within the buffer.
or_end-bounds :
    (b : Bytes) (n header : ℕ) (o : Option ℕ)
    → find_from b n header ≡ o
    → header + n ≤ length b
    → (header ≤ or_end (length b) o) × (or_end (length b) o ≤ length b)
or_end-bounds b n header none e h = (omega (arith, h), omega arith)
or_end-bounds b n header (some p) e h =
    let (low, high, code) = find_from-bounds b n header p e in (low, omega (arith, high, h))

abbrev Extracts : Bytes → Outcome NoError ParameterSets → Type 0
Extracts b m = (s : ParameterSets) × (m ≡ ok s) × AreSets b s

-- One round, where the rounds after it are right.
take_set-Extracts :
    (b : Bytes) (fuel start : ℕ) (s : ParameterSets) (o : Option ℕ)
    → ((next : ℕ) (s' : ParameterSets)
        → next ≤ length b
        → length b - next < fuel
        → AreSets b s'
        → Extracts b (extract_from b fuel next s'))
    → next_start_code b start ≡ o
    → start ≤ length b
    → length b - start < suc fuel
    → AreSets b s
    → Extracts b (take_set (extract_from b fuel) b o s)
take_set-Extracts b fuel start s none again e le enough h = (s, refl, h)
take_set-Extracts b fuel start s (some pos) again e le enough h =
    let (low, high, code) = find_from-bounds b (length b - 3 - start) start pos e in
    let long = start_code_len-pos b pos in
    if_elim {A = Outcome NoError ParameterSets} (Extracts b) (leb (length b) (header_of b pos))
      (λ out. (s, refl, h))
      (λ inside.
        let room : header_of b pos < length b = ground (arith, inside) in
        let (past, within) =
          or_end-bounds b (length b - 3 - header_of b pos) (header_of b pos)
            (next_start_code b (header_of b pos)) refl (omega (arith, room)) in
        let fewer : length b - end_of b pos < fuel =
          omega (arith, past, within, low, long, enough, room) in
        again (end_of b pos)
          (keep_set (nal_type_at b (header_of b pos)) (take (end_of b pos - pos) (drop pos b)) s)
          within fewer (keep_set-AreSets b pos s code room h))

extract_from-Extracts :
    (b : Bytes) (fuel start : ℕ) (s : ParameterSets)
    → start ≤ length b
    → length b - start < fuel
    → AreSets b s
    → Extracts b (extract_from b fuel start s)
unfolding extract_from
extract_from-Extracts b zero start s le enough h = absurd (omega (arith, enough))
extract_from-Extracts b (suc fuel) start s le enough h =
    take_set-Extracts b fuel start s (next_start_code b start) (extract_from-Extracts b fuel) refl
      le enough h

-- On every buffer the extraction ends, and each parameter set that it gives is a unit of the buffer of
-- its type, from a start code to the next one or to the end of the buffer.
pub extract_complete_parameter_sets-AreSets :
    (b : Bytes) → (s : ParameterSets) × (extract_complete_parameter_sets b ≡ ok s) × AreSets b s
unfolding extract_complete_parameter_sets
extract_complete_parameter_sets-AreSets b =
    extract_from-Extracts b (suc (length b)) 0 no_sets (omega arith) (omega arith)
      (record { vps = tt; sps = tt; pps = tt })
