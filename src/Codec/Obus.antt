-- ===== src/Codec/Obus.antt =====
-- What `Av1Parser::get_obu_units` makes of a stream (mod.rs).
use si_est_a_vr.Common.{◌<◌, ◌≡◌, ◌⊎◌, List, [], ◌∷◌, ◌++◌, Option, none, some, length, Bytes}
use si_est_a_vr.Codec.Av1.{ObuUnit, Av1Parser, next_obu}

-- An outcome that takes the bytes of one unit off the front.
pub record Splits (p : Av1Parser) (out : Av1Parser × Option ObuUnit) : Type 0 where
  pub unit : ObuUnit
  pub found : out.1 ≡ some unit
  pub split : unit.bytes ++ out.0.buffer ≡ p.buffer
  pub shorter : length out.0.buffer < length p.buffer

abbrev pub StopsOrSplits : Av1Parser → Av1Parser × Option ObuUnit → Type 0
StopsOrSplits p out = (out ≡ (p, none)) ⊎ Splits p out

-- The bytes of some units, one after the other.
abbrev pub joined : List ObuUnit → Bytes
joined [] = []
joined (u ∷ us) = u.bytes ++ joined us

-- What the loop leaves: all bytes are in the units or still in the buffer, where none is whole.
abbrev Exhausts : Bytes → Av1Parser × List ObuUnit → Type 0
Exhausts b (q, us) = (joined us ++ q.buffer ≡ b) × (next_obu q ≡ (q, none))
