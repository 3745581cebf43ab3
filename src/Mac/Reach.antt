-- ===== src/Mac/Reach.antt =====
-- The life of a contention state (models_mm1k.rs): what `QueueModule::new`, `tick_backoff`,
-- `deque_schedule_service` and `send_ampdu` do to one `DcfStats`.
use si_est_a_vr.Common.{ℕ, ◌≡◌, refl, true, arith}
use si_est_a_vr.Mac.Edca.{EdcaAc, edca_table}
use si_est_a_vr.Mac.Backoff.{
  Draw, DcfStats, IsValid, new, on_success, on_failure, new-IsValid, on_success-IsValid,
  on_failure-IsValid,
}
use si_est_a_vr.Mac.Medium.{Medium}
use si_est_a_vr.Mac.Tick.{tick_station}
use si_est_a_vr.Mac.Slots.{tick_station-IsValid}

-- Another station's transmission, or a collision, on the link.
unfoldable pub freeze : ℕ → DcfStats → DcfStats
freeze until st = record st { backoff_frozen = true; medium_free_since = until }

module _ (r : Draw) where
  -- A slot in which the station has packets, the end of its transmission, a failure, and a freeze.
  pub data Step : DcfStats → DcfStats → Type 0 where
    ticked : (now : ℕ) (m : Medium) (st : DcfStats) → Step st (tick_station now m st)
    sent : (st : DcfStats) → Step st (on_success r st.param.cw_min st)
    failed : (st : DcfStats) → Step st (on_failure r st).0
    frozen : (until : ℕ) (st : DcfStats) → Step st (freeze until st)

  -- The states of the category's own stations, from the start on.
  pub data Reach : DcfStats → Type 0 where
    started : (sta link rng : ℕ) (ac : EdcaAc) → Reach (new r ac (sta, ac, link) rng)
    after : (st st' : DcfStats) → Reach st → Step st st' → Reach st'

  Step-IsValid : (st st' : DcfStats) → Step st st' → IsValid st → IsValid st'
  unfolding freeze
  Step-IsValid _ _ (ticked now m st) v = tick_station-IsValid now m st v
  Step-IsValid _ _ (sent st) v = on_success-IsValid r st v
  Step-IsValid _ _ (failed st) v = on_failure-IsValid r st v
  Step-IsValid _ _ (frozen until st) v = record {
    cw_ge = v.cw_ge;
    cw_le = v.cw_le;
    counter_le = v.counter_le;
    drawn_le = v.drawn_le;
    retries_le = v.retries_le;
  }

  -- The parameters stay those of the category that the key names.
  Step-param :
      (st st' : DcfStats) → Step st st' → (st'.param ≡ st.param) × (st'.mac_key ≡ st.mac_key)
  unfolding freeze tick_station on_success on_failure
  Step-param _ _ (ticked now m st) = (refl, refl)
  Step-param _ _ (sent st) = (refl, refl)
  Step-param _ _ (failed st) = ground arith
  Step-param _ _ (frozen until st) = (refl, refl)

  -- Every state that slots, transmissions, failures and freezes reach from a new station's is sound,
  -- and has the parameters of the category in its key.
  pub Reach-IsValid : (st : DcfStats) → Reach st → IsValid st × (st.param ≡ edca_table st.mac_key.1)
  unfolding new
  Reach-IsValid _ (started sta link rng ac) = (new-IsValid r ac (sta, ac, link) rng, refl)
  Reach-IsValid _ (after before st reached step) =
      let (valid, own) = Reach-IsValid before reached in
      let (same, key) = Step-param before st step in
      (Step-IsValid before st step valid, rw (same, key) own)
