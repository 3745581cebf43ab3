-- ===== src/Mac/Edca.antt =====
-- Access categories and their contention parameters (asynchronix/examples/lib/mod.rs, `EdcaAc` and
-- `ac_prio`; models_mm1k.rs, `EdcaParam`, `EDCA_TABLE` and `aifs`).
use si_est_a_vr.Common.{ℕ, ◌+◌, ◌*◌, ◌≤◌, arith}

pub data EdcaAc : Type 0 where
  voice video best_effort background : EdcaAc

pub record EdcaParam : Type 0 where
  pub cw_min : ℕ  -- u32
  pub cw_max : ℕ  -- u32
  pub aifsn : ℕ  -- u8
  pub txop_limit_us : ℕ  -- u16

-- `EDCA_TABLE[ac as usize]`; the categories are numbered in the table's order.
unfoldable pub edca_table : EdcaAc → EdcaParam
edca_table voice = record { cw_min = 3; cw_max = 7; aifsn = 2; txop_limit_us = 1504 }
edca_table video = record { cw_min = 7; cw_max = 15; aifsn = 2; txop_limit_us = 3008 }
edca_table best_effort = record { cw_min = 15; cw_max = 1023; aifsn = 3; txop_limit_us = 0 }
edca_table background = record { cw_min = 15; cw_max = 1023; aifsn = 7; txop_limit_us = 0 }

unfoldable pub ac_prio : EdcaAc → ℕ
ac_prio voice = 0
ac_prio video = 1
ac_prio best_effort = 2
ac_prio background = 3

-- In nanoseconds: a SIFS of 16 µs and `aifsn` slots of 9 µs.
unfoldable pub aifs : EdcaParam → ℕ
aifs p = (16 + p.aifsn * 9) * 1000

-- (station, category, link); a station's id is an `i32`, here its 32 bits.
abbrev pub MacKey : Type 0
MacKey = ℕ × EdcaAc × ℕ

-- A category of higher priority waits no longer and draws from no larger window.
pub edca_table_mono :
    (a b : EdcaAc)
    → ac_prio a ≤ ac_prio b
    → (aifs (edca_table a) ≤ aifs (edca_table b))
      × ((edca_table a).cw_min ≤ (edca_table b).cw_min)
      × ((edca_table a).cw_max ≤ (edca_table b).cw_max)
unfolding edca_table ac_prio aifs
edca_table_mono a b h = ground arith
