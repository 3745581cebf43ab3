-- ===== src/Mac/Backoff.antt =====
-- `DcfStats` (models_mm1k.rs): one station's contention state for a category on a link. The draw
-- `gen_range(0..=cw)` is the rand crate's, over the state of the station's own generator; the
-- fields that only serve the log and the viewer are left out, but for the logged draw.
use si_est_a_vr.Common.{ℕ, ◌+◌, ◌-◌, ◌*◌, ◌≤◌, Bool, true, false, arith, ltb, if◌then◌else◌}
use si_est_a_vr.Mac.Edca.{EdcaAc, EdcaParam, edca_table, MacKey}

-- `draw state bound` gives a value up to `bound`, and the next state.
pub record Draw : Type 0 where
  pub draw : ℕ → ℕ → ℕ × ℕ
  pub draw_le : (state bound : ℕ) → (draw state bound).0 ≤ bound

pub record DcfStats : Type 0 where
  pub mac_key : MacKey
  pub cw : ℕ  -- u32
  pub backoff_counter : ℕ  -- u32
  pub retry_count : ℕ  -- u8
  pub param : EdcaParam
  pub medium_free_since : ℕ
  pub backoff_frozen : Bool
  pub rng : ℕ
  pub last_backoff_drawn_logs : ℕ  -- u32

abbrev pub max_retries_mac : ℕ
max_retries_mac = 10

module _ (r : Draw) where
  -- `rng` is the stream that `sim_rng` derives from the key.
  unfoldable pub new : EdcaAc → MacKey → ℕ → DcfStats
  new ac mac_key rng =
      let p = edca_table ac in
      let (drawn, rng') = r.draw rng p.cw_min in
      record {
        mac_key = mac_key;
        cw = p.cw_min;
        backoff_counter = drawn;
        retry_count = 0;
        param = p;
        medium_free_since = 0;
        backoff_frozen = false;
        rng = rng';
        last_backoff_drawn_logs = drawn;
      }

  unfoldable pub reload_backoff : DcfStats → DcfStats
  reload_backoff st =
      let (drawn, rng') = r.draw st.rng st.cw in
      record st { backoff_counter = drawn; last_backoff_drawn_logs = drawn; rng = rng' }

  unfoldable pub on_success : ℕ → DcfStats → DcfStats
  unfolding reload_backoff
  on_success cw_min st = reload_backoff (record st { cw = cw_min; retry_count = 0 })

  -- The new window, before the draw: twice the old one and one, at most the category's largest.
  abbrev doubled : DcfStats → ℕ
  doubled st =
      let cw' = (st.cw + 1) * 2 - 1 in if ltb st.param.cw_max cw' then st.param.cw_max else cw'

  -- False when the packet is given up.
  unfoldable pub on_failure : DcfStats → DcfStats × Bool
  unfolding reload_backoff
  on_failure st =
      if ltb max_retries_mac (st.retry_count + 1)
      then (reload_backoff (record st { cw = st.param.cw_min; retry_count = 0 }), false)
      else (reload_backoff (record st { retry_count = st.retry_count + 1; cw = doubled st }), true)

-- The window lies in its category's range and the counter within the last draw, which the window
-- bounded; no packet has been retried more than ten times.
pub record IsValid (st : DcfStats) : Type 0 where
  pub cw_ge : st.param.cw_min ≤ st.cw
  pub cw_le : st.cw ≤ st.param.cw_max
  pub counter_le : st.backoff_counter ≤ st.last_backoff_drawn_logs
  pub drawn_le : st.last_backoff_drawn_logs ≤ st.cw
  pub retries_le : st.retry_count ≤ max_retries_mac

module _ (r : Draw) where
  -- A new station's state is sound, for every category and every generator.
  pub new-IsValid : (ac : EdcaAc) (k : MacKey) (rng : ℕ) → IsValid (new r ac k rng)
  unfolding new edca_table
  new-IsValid ac k rng = ground (arith, r.draw_le rng (edca_table ac).cw_min)

  -- A success with the category's smallest window keeps the state sound.
  pub on_success-IsValid : (st : DcfStats) → IsValid st → IsValid (on_success r st.param.cw_min st)
  unfolding on_success
  on_success-IsValid st v = ground (arith, r.draw_le st.rng st.param.cw_min)

  -- A failed attempt keeps the state sound, whether the packet is kept or given up.
  pub on_failure-IsValid : (st : DcfStats) → IsValid st → IsValid (on_failure r st).0
  unfolding on_failure
  on_failure-IsValid st v = ground (
    arith,
    r.draw_le st.rng st.param.cw_min,
    r.draw_le st.rng st.param.cw_max,
    r.draw_le st.rng ((st.cw + 1) * 2 - 1),
  )
