-- ===== src/Control/Report.antt =====
-- `NadaTimerReport` (nada_report.rs). An `f64` and an `i64` are their 64 bits, an `i8` its byte.
use si_est_a_vr.Common.{
  ℕ, ◌+◌, ◌*◌, Bool, ◌&&◌, ◌||◌, not, Option, none, some, [], ◌∷◌, ltb, ◌==◌, if◌then◌else◌, length,
  take, drop, replicate, Bytes, byte, write_at,
}
use si_est_a_vr.Rng.SplitMix.{le_bytes}

pub record NadaTimerReport : Type 0 where
  pub seq : ℕ
  pub xcurr : ℕ
  pub rmode : ℕ
  pub recv : ℕ
  pub plr : ℕ
  pub d_tilde : ℕ
  pub d_queue : ℕ

abbrev pub len : ℕ
len = 49

-- `NAD2`.
abbrev pub magic : Bytes
magic = 78 ∷ 65 ∷ 68 ∷ 50 ∷ []

unfoldable pub encode : NadaTimerReport → Bytes
encode r =
    let b0 = write_at (replicate len 0) 0 magic in
    let b1 = write_at b0 4 (le_bytes 4 r.seq) in
    let b2 = write_at b1 8 (le_bytes 8 r.xcurr) in
    let b3 = write_at b2 16 (r.rmode ∷ []) in
    let b4 = write_at b3 17 (le_bytes 8 r.recv) in
    let b5 = write_at b4 25 (le_bytes 8 r.plr) in
    let b6 = write_at b5 33 (le_bytes 8 r.d_tilde) in write_at b6 41 (le_bytes 8 r.d_queue)

-- `from_le_bytes`.
abbrev pub from_le : Bytes → ℕ
from_le [] = 0
from_le (x ∷ xs) = x + 256 * from_le xs

abbrev pub slice : ℕ → ℕ → Bytes → ℕ
slice from count b = from_le (take count (drop from b))

abbrev pub is_magic : Bytes → Bool
is_magic b = byte b 0 == 78 && (byte b 1 == 65 && (byte b 2 == 68 && byte b 3 == 50))

unfoldable pub decode : Bytes → Option NadaTimerReport
decode b =
    if ltb (length b) len || not (is_magic b)
    then none
    else some (record {
      seq = slice 4 4 b;
      xcurr = slice 8 8 b;
      rmode = byte b 16;
      recv = slice 17 8 b;
      plr = slice 25 8 b;
      d_tilde = slice 33 8 b;
      d_queue = slice 41 8 b;
    })
