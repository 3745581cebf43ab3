-- ===== src/Codec/RoundTrip.antt =====
-- Streams as an AV1 encoder writes them, every unit with its size (mod.rs, `Av1Parser`).
use mathlib.Core.List.{append_assoc}
use si_est_a_vr.Common.{
  ℕ, zero, suc, ◌+◌, ◌*◌, ◌^◌, ◌/◌, ◌%◌, ◌≤◌, ◌<◌, ◌≡◌, refl, sym, ap, ◌∙◌, some, none, arith, ◌==◌,
  length, List, [], ◌∷◌, ◌++◌, Bytes, le→ltb_false, length-append, take-append_length,
  drop-append_length, map,
}
use si_est_a_vr.Codec.Av1.{
  ObuUnit, Av1Parser, leb128, parse_leb128, take_obu, size_offset, next_from, next_obu, units_from,
  get_obu_units,
}
use si_est_a_vr.Codec.Leb.{size_bytes, leb128-size_bytes}

-- A unit to be written: its type and its payload.
abbrev pub Obu : Type 0
Obu = ℕ × Bytes

pub record IsObu (o : Obu) : Type 0 where
  pub type_lt : o.0 < 16
  pub size_lt : length o.1 < 128 ^ 9

-- Header without extension, size, payload.
abbrev pub obu_bytes : Obu → Bytes
obu_bytes (t, payload) = (t * 8 + 2) ∷ (size_bytes (length payload) ++ payload)

abbrev pub unit_of : Obu → ObuUnit
unit_of o = record { obu_type = o.0; bytes = obu_bytes o; is_sequence_header = o.0 == 1 }

take_obu-whole :
    (t : ℕ) (p : Av1Parser) (unit rest : Bytes) (n k : ℕ)
    → p.buffer ≡ unit ++ rest
    → length unit ≡ 1 + k + n
    → take_obu t (some (n, k)) 1 p ≡ (
      record p { buffer = rest },
      some (record { obu_type = t; bytes = unit; is_sequence_header = t == 1 }),
    )
unfolding take_obu
take_obu-whole t p unit rest n k e l = rw (
  e,
  le→ltb_false (length (unit ++ rest)) (1 + k + n) (omega (arith, l, length-append {0} unit rest)),
  take-append_length unit rest (1 + k + n) (sym l),
  drop-append_length unit rest (1 + k + n) (sym l),
)

next_from-header :
    (t : ℕ) (more : Bytes) (p : Av1Parser)
    → t < 16
    → p.buffer ≡ (t * 8 + 2) ∷ more
    → next_from p.buffer p ≡ take_obu t (leb128 more 0 0 0) 1 p
unfolding next_from size_offset parse_leb128
next_from-header t more p h e =
    let kind : (t * 8 + 2) / 8 % 16 ≡ t = omega (arith, h) in
    let no_extension : (t * 8 + 2) / 4 % 2 ≡ 0 = omega arith in
    let sized : (t * 8 + 2) / 2 % 2 ≡ 1 = omega arith in
    rw (e, kind, no_extension, sized, le→ltb_false (length ((t * 8 + 2) ∷ more)) 1 (omega arith))

pub next_obu-obu_bytes :
    (o : Obu) (rest : Bytes) (p : Av1Parser)
    → IsObu o
    → p.buffer ≡ obu_bytes o ++ rest
    → next_obu p ≡ (record p { buffer = rest }, some (unit_of o))
unfolding next_obu
next_obu-obu_bytes (t, payload) rest p w e =
    next_from-header t ((size_bytes (length payload) ++ payload) ++ rest) p w.type_lt e
    ∙ ap (λ bs. take_obu t (leb128 bs 0 0 0) 1 p)
        (append_assoc (size_bytes (length payload)) payload rest)
    ∙ ap (λ r. take_obu t r 1 p) (leb128-size_bytes (length payload) (payload ++ rest) w.size_lt)
    ∙ take_obu-whole t p (obu_bytes (t, payload)) rest (length payload)
        (length (size_bytes (length payload))) e
        (omega (arith, length-append {0} (size_bytes (length payload)) payload))

abbrev pub AllObu : List Obu → Type 0
AllObu [] = Unit
AllObu (o ∷ os) = IsObu o × AllObu os

abbrev pub stream_of : List Obu → Bytes
stream_of [] = []
stream_of (o ∷ os) = obu_bytes o ++ stream_of os

length-stream_of : (o : Obu) (os : List Obu) → length (stream_of os) < length (stream_of (o ∷ os))
length-stream_of o os =
    omega (arith, length-append {0} ((size_bytes (length o.1)) ++ o.1) (stream_of os))

next_obu-empty : (p : Av1Parser) → p.buffer ≡ [] → next_obu p ≡ (p, none)
unfolding next_obu next_from
next_obu-empty p e = rw e

units_from-stream_of :
    (n : ℕ) (os : List Obu) (p : Av1Parser)
    → AllObu os
    → p.buffer ≡ stream_of os
    → length p.buffer ≤ n
    → units_from n p ≡ (record p { buffer = [] }, map unit_of os)
unfolding units_from
units_from-stream_of zero [] p w e h = λ i. (record p { buffer = e i }, [])
units_from-stream_of zero (o ∷ os) p w e h =
    absurd (omega (arith, ap length e, length-stream_of o os))
units_from-stream_of (suc n) [] p w e h =
    rw (next_obu-empty p e) (λ i. (record p { buffer = e i }, []))
units_from-stream_of (suc n) (o ∷ os) p w e h =
    let after : Av1Parser = record p { buffer = stream_of os } in
    rw (
      next_obu-obu_bytes o (stream_of os) p w.0 e,
      units_from-stream_of n os after w.1 refl (omega (arith, ap length e, length-stream_of o os)),
    )

-- Units of any types and of payloads below 2 ^ 63 bytes, written one after the other, come out as
-- they were, in order, with nothing left in the buffer.
pub get_obu_units-stream_of :
    (os : List Obu) (p : Av1Parser)
    → AllObu os
    → p.buffer ≡ stream_of os
    → get_obu_units p ≡ (record p { buffer = [] }, map unit_of os)
unfolding get_obu_units
get_obu_units-stream_of os p w e = units_from-stream_of (length p.buffer) os p w e (omega arith)
