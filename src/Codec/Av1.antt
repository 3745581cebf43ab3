-- ===== src/Codec/Av1.antt =====
-- `Av1Parser` (mod.rs): an AV1 byte stream is cut into open bitstream units by the sizes in their
-- headers. A size has at most nine groups of seven bits, so it fits 63 bits, and `|=` on bits that do
-- not overlap is a sum.
use si_est_a_vr.Common.{
  ℕ, zero, suc, ◌+◌, ◌*◌, ◌^◌, ◌/◌, ◌%◌, Bool, List, [], ◌∷◌, ◌++◌, Option, none, some, ltb, ◌==◌,
  if◌then◌else◌, length, take, drop, map, Bytes,
}

pub record ObuUnit : Type 0 where
  pub obu_type : ℕ  -- u8
  pub bytes : Bytes
  pub is_sequence_header : Bool

pub record Av1Parser : Type 0 where
  pub buffer : Bytes
  pub sequence_header : Option Bytes

abbrev pub new : Av1Parser
new = record { buffer = []; sequence_header = none }

abbrev pub add_bytes : Bytes → Av1Parser → Av1Parser
add_bytes more p = record p { buffer = p.buffer ++ more }

-- The loop of `parse_leb128` on the bytes from `offset` on.
unfoldable pub leb128 : Bytes → ℕ → ℕ → ℕ → Option (ℕ × ℕ)
leb128 [] bytes_read shift value = none
leb128 (b ∷ bs) bytes_read shift value =
    let value' = value + b % 128 * 2 ^ shift in
    let rest = leb128 bs (bytes_read + 1) (shift + 7) value' in
    if ltb b 128
    then some (value', bytes_read + 1)
    else (if ltb 8 (bytes_read + 1) then none else rest)

unfoldable pub parse_leb128 : Bytes → ℕ → Option (ℕ × ℕ)
parse_leb128 b offset = leb128 (drop offset b) 0 0 0

-- The unit of `total_size` bytes, once the size is known.
unfoldable pub take_obu : ℕ → Option (ℕ × ℕ) → ℕ → Av1Parser → Av1Parser × Option ObuUnit
take_obu obu_type none offset p = (p, none)
take_obu obu_type (some (payload_size, leb_bytes)) offset p =
    let total_size = offset + leb_bytes + payload_size in
    if ltb (length p.buffer) total_size then (p, none) else (
      record p { buffer = drop total_size p.buffer },
      some (record {
        obu_type = obu_type;
        bytes = take total_size p.buffer;
        is_sequence_header = obu_type == 1;
      }),
    )

-- Where the size begins: behind the header and its extension.
unfoldable pub size_offset : ℕ → ℕ
size_offset header = if header / 4 % 2 == 1 then 2 else 1

unfoldable pub next_from : Bytes → Av1Parser → Av1Parser × Option ObuUnit
next_from [] p = (p, none)
next_from (header ∷ _) p =
    if header / 2 % 2 == 0
    then (p, none)
    else (if ltb (length p.buffer) (size_offset header)
        then (p, none)
        else take_obu (header / 8 % 16) (parse_leb128 p.buffer (size_offset header))
            (size_offset header) p)

unfoldable pub next_obu : Av1Parser → Av1Parser × Option ObuUnit
unfolding next_from
next_obu p = next_from p.buffer p

abbrev pub units_after :
    (Av1Parser → Av1Parser × List ObuUnit) → Av1Parser × Option ObuUnit → Av1Parser × List ObuUnit
units_after again (p, none) = (p, [])
units_after again (p, some u) = let (q, us) = again p in (q, u ∷ us)

-- The loop on fuel; each round takes at least two bytes.
unfoldable pub units_from : ℕ → Av1Parser → Av1Parser × List ObuUnit
units_from zero p = (p, [])
units_from (suc fuel) p = units_after (units_from fuel) (next_obu p)

unfoldable pub get_obu_units : Av1Parser → Av1Parser × List ObuUnit
get_obu_units p = units_from (length p.buffer) p

unfoldable pub get_frames : Av1Parser → Av1Parser × List Bytes
get_frames p = let (q, us) = get_obu_units p in (q, map (λ u. u.bytes) us)
