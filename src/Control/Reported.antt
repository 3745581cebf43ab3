-- ===== src/Control/Reported.antt =====
-- A report is read as it was written (nada_report.rs).
use si_est_a_vr.Common.{ℕ, ◌<◌, ◌≤◌, ◌≡◌, refl, some, ◌++◌, length, Bytes, arith, le→ltb_false}
use si_est_a_vr.Rng.SplitMix.{le_bytes}
use si_est_a_vr.Control.Report.{NadaTimerReport, encode, decode, from_le, len}

-- The fields fit their types.
pub record Fits (r : NadaTimerReport) : Type 0 where
  pub seq_lt : r.seq < 4294967296
  pub xcurr_lt : r.xcurr < 18446744073709551616
  pub recv_lt : r.recv < 18446744073709551616
  pub plr_lt : r.plr < 18446744073709551616
  pub d_tilde_lt : r.d_tilde < 18446744073709551616
  pub d_queue_lt : r.d_queue < 18446744073709551616

from_le_four : (v : ℕ) → v < 4294967296 → from_le (le_bytes 4 v) ≡ v
from_le_four v h = omega arith

from_le_eight : (v : ℕ) → v < 18446744073709551616 → from_le (le_bytes 8 v) ≡ v
from_le_eight v h = omega arith

-- A report whose fields fit, with whatever follows it, is read back as it was.
pub decode-encode :
    (r : NadaTimerReport) (rest : Bytes) → Fits r → decode (encode r ++ rest) ≡ some r
unfolding decode encode
decode-encode r rest h =
    let long : len ≤ length (encode r ++ rest) = omega arith in
    rw
      (
        le→ltb_false (length (encode r ++ rest)) len long,
        from_le_four r.seq h.seq_lt,
        from_le_eight r.xcurr h.xcurr_lt,
        from_le_eight r.recv h.recv_lt,
        from_le_eight r.plr h.plr_lt,
        from_le_eight r.d_tilde h.d_tilde_lt,
        from_le_eight r.d_queue h.d_queue_lt,
      )
      refl
