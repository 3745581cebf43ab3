-- ===== src/Codec/Units.antt =====
-- One NAL unit, in the data there is and in more of it (mod.rs, `HevcParser::next_nal_unit`).
use si_est_a_vr.Common.{
  ℕ, ◌+◌, ◌-◌, ◌≤◌, ◌<◌, ◌≡◌, ap, ◌∙◌, ◌⊎◌, inl, inr, none, some, arith, length, take, drop, ◌++◌,
  Bytes, ok, get_or-append_left, length-append, length-drop, take-append_inside, drop-append_inside,
  Option-cases, lt→ltb, lt→leb_false,
}
use si_est_a_vr.Codec.Hevc.{
  HevcParser, NalUnit, add_bytes, find_from, start_code_len, store_parameter_set, unit_at,
  remove_unit, cut_unit, next_nal_unit,
}
use si_est_a_vr.Codec.Scan.{find_next-long, found-bounds, found-append}

start_code_len-append :
    (b more : Bytes) (start : ℕ)
    → start + 3 < length b
    → start_code_len (b ++ more) start ≡ start_code_len b start
unfolding start_code_len
start_code_len-append b more start h = rw (
  lt→ltb (start + 3) (length b) h,
  lt→ltb (start + 3) (length (b ++ more)) (omega (arith, length-append {0} b more)),
  get_or-append_left b more (start + 2) 0 (omega arith),
  get_or-append_left b more (start + 3) 0 h,
)

start_code_len-bounds :
    (b : Bytes) (start : ℕ) → (3 ≤ start_code_len b start) × (start_code_len b start ≤ 4)
unfolding start_code_len
start_code_len-bounds b start = ground arith

slice-append :
    (b more : Bytes) (i j : ℕ)
    → i ≤ j
    → j ≤ length b
    → take (j - i) (drop i (b ++ more)) ≡ take (j - i) (drop i b)
slice-append b more i j h k =
    ap (take (j - i)) (drop-append_inside b more i (omega arith))
    ∙ take-append_inside (drop i b) more (j - i) (omega (arith, length-drop {0} i b))

unit_at-append :
    (b more : Bytes) (start nal_end : ℕ)
    → start + start_code_len b start ≤ nal_end
    → nal_end < length b
    → unit_at start nal_end (b ++ more) ≡ unit_at start nal_end b
unfolding unit_at
unit_at-append b more start nal_end low high =
    let lengths = start_code_len-bounds b start in
    rw (
      start_code_len-append b more start (omega arith),
      get_or-append_left b more (start + start_code_len b start) 0 (omega arith),
      slice-append b more (start + start_code_len b start) nal_end low (omega arith),
    )

store_parameter_set-append :
    (t : ℕ) (full x more : Bytes) (p : HevcParser)
    → ◌≡◌ {A = HevcParser}
        (record (store_parameter_set t full (add_bytes more p)) { buffer = x ++ more })
        (add_bytes more (record (store_parameter_set t full p) { buffer = x }))
unfolding store_parameter_set
store_parameter_set-append t full x more p = ground arith

remove_unit-append :
    (p : HevcParser) (more : Bytes) (start nal_end : ℕ)
    → start + start_code_len p.buffer start ≤ nal_end
    → nal_end < length p.buffer
    → remove_unit start nal_end (add_bytes more p) ≡ add_bytes more (remove_unit start nal_end p)
unfolding remove_unit
remove_unit-append p more start nal_end low high =
    rw
      (
        unit_at-append p.buffer more start nal_end low high,
        slice-append p.buffer more start nal_end (omega arith) (omega arith),
        drop-append_inside p.buffer more nal_end (omega arith),
      )
      (store_parameter_set-append (unit_at start nal_end p.buffer).nal_type
        (take (nal_end - start) (drop start p.buffer)) (drop nal_end p.buffer) more p)

-- The header lies in the buffer, so a unit is cut.
cut_unit_lem :
    (p : HevcParser) (start nal_end : ℕ)
    → start + start_code_len p.buffer start ≤ nal_end
    → nal_end < length p.buffer
    → cut_unit start nal_end p
      ≡ (remove_unit start nal_end p, some (unit_at start nal_end p.buffer))
unfolding cut_unit
cut_unit_lem p start nal_end low high =
    rw (lt→leb_false (length p.buffer) (start + start_code_len p.buffer start) (omega arith))

-- A call that finds a complete unit, and what it gives whatever data follows.
pub record Cuts (p : HevcParser) : Type 0 where
  pub after : HevcParser
  pub unit : NalUnit
  pub result : next_nal_unit p ≡ ok (after, some unit)
  pub still_long : 3 ≤ length after.buffer
  pub shorter : length after.buffer < length p.buffer
  pub extended :
      (more : Bytes) → next_nal_unit (add_bytes more p) ≡ ok (add_bytes more after, some unit)

next_nal_unit-two :
    (p : HevcParser) (start nal_end : ℕ)
    → 3 ≤ length p.buffer
    → find_from p.buffer (length p.buffer - 3 - 0) 0 ≡ some start
    → (let from = start + start_code_len p.buffer start in
        find_from p.buffer (length p.buffer - 3 - from) from ≡ some nal_end)
    → next_nal_unit p ≡ ok (cut_unit start nal_end p)
unfolding next_nal_unit
next_nal_unit-two p start nal_end long first second = rw (
  find_next-long p.buffer 0 long,
  first,
  find_next-long p.buffer (start + start_code_len p.buffer start) long,
  second,
)

no_second :
    (p : HevcParser) (start : ℕ)
    → 3 ≤ length p.buffer
    → find_from p.buffer (length p.buffer - 3 - 0) 0 ≡ some start
    → (let from = start + start_code_len p.buffer start in
        find_from p.buffer (length p.buffer - 3 - from) from ≡ none)
    → next_nal_unit p ≡ ok (p, none)
unfolding next_nal_unit
no_second p start long first second = rw (
  find_next-long p.buffer 0 long,
  first,
  find_next-long p.buffer (start + start_code_len p.buffer start) long,
  second,
)

no_first :
    (p : HevcParser)
    → 3 ≤ length p.buffer
    → find_from p.buffer (length p.buffer - 3 - 0) 0 ≡ none
    → next_nal_unit p ≡ ok (p, none)
unfolding next_nal_unit
no_first p long first = rw (find_next-long p.buffer 0 long, first)

next_nal_unit-found :
    (p : HevcParser) (start nal_end : ℕ)
    → 3 ≤ length p.buffer
    → find_from p.buffer (length p.buffer - 3 - 0) 0 ≡ some start
    → (let from = start + start_code_len p.buffer start in
        find_from p.buffer (length p.buffer - 3 - from) from ≡ some nal_end)
    → next_nal_unit p ≡ ok (remove_unit start nal_end p, some (unit_at start nal_end p.buffer))
next_nal_unit-found p start nal_end long first second =
    let (low, high, _) =
      found-bounds p.buffer (start + start_code_len p.buffer start) nal_end second in
    next_nal_unit-two p start nal_end long first second
    ∙ ap ok (cut_unit_lem p start nal_end low (omega arith))

length-remove_unit :
    (p : HevcParser) (start nal_end : ℕ)
    → length (remove_unit start nal_end p).buffer ≡ length p.buffer - nal_end
unfolding remove_unit
length-remove_unit p start nal_end = length-drop {0} nal_end p.buffer

found_twice-Cuts :
    (p : HevcParser) (start nal_end : ℕ)
    → 3 ≤ length p.buffer
    → find_from p.buffer (length p.buffer - 3 - 0) 0 ≡ some start
    → (let from = start + start_code_len p.buffer start in
        find_from p.buffer (length p.buffer - 3 - from) from ≡ some nal_end)
    → Cuts p
found_twice-Cuts p start nal_end long first second =
    let from = start + start_code_len p.buffer start in
    let (low, high, _) = found-bounds p.buffer from nal_end second in
    let width = start_code_len-bounds p.buffer start in
    record {
      after = remove_unit start nal_end p;
      unit = unit_at start nal_end p.buffer;
      result = next_nal_unit-found p start nal_end long first second;
      still_long = omega (arith, length-remove_unit p start nal_end);
      shorter = omega (arith, length-remove_unit p start nal_end, width);
      extended = λ more.
          let same : start + start_code_len (p.buffer ++ more) start ≡ from =
            ap (λ w. start + w)
              (start_code_len-append p.buffer more start (omega (arith, width))) in
          next_nal_unit-found (add_bytes more p) start nal_end
            (omega (arith, length-append {0} p.buffer more))
            (found-append p.buffer more 0 start first)
            (rw same (found-append p.buffer more from nal_end second))
          ∙ rw (
            remove_unit-append p more start nal_end low (omega arith),
            unit_at-append p.buffer more start nal_end low (omega arith),
          );
    }

pub next_nal_unit-Cuts :
    (p : HevcParser) → 3 ≤ length p.buffer → (next_nal_unit p ≡ ok (p, none)) ⊎ Cuts p
next_nal_unit-Cuts p long = elim (Option-cases (find_from p.buffer (length p.buffer - 3 - 0) 0)) [
  | inl none_first ↦ inl (no_first p long none_first)
  | inr (start, first) ↦
      let from = start + start_code_len p.buffer start in
      elim (Option-cases (find_from p.buffer (length p.buffer - 3 - from) from)) [
        | inl none_second ↦ inl (no_second p start long first none_second)
        | inr (nal_end, second) ↦ inr (found_twice-Cuts p start nal_end long first second)
      ]
]
