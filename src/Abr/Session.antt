-- ===== src/Abr/Session.antt =====
-- What the whole estimator keeps over a session (gcc_nada_estimator.rs, `GccBandwidthEstimator`).
use native.Mathlib.Nat.{mod-lt}
use si_est_a_vr.Common.{
  ℕ, ◌+◌, ◌-◌, ◌≤◌, ◌<◌, Bool, leb, ltb, Option, none, some, List, [], ◌∷◌, arith, if_elim,
}
use si_est_a_vr.Abr.Float.{Float64, Laws}
use si_est_a_vr.Abr.Bounds.{IsSound, update-IsSound}
use si_est_a_vr.Abr.Steady.{IsSteady, update_trendline-IsSteady}
use si_est_a_vr.Abr.Rate.{
  Window, BitrateEstimator, is_before, restart, advance, update_window, window_of, weigh,
  initial_window_ms,
}
use si_est_a_vr.Abr.Rate
use si_est_a_vr.Abr.Gcc.{GccBandwidthEstimator, Report, update, update_all}

-- The window is not as long as the longest one that is asked for.
abbrev pub IsShort : Window → Type 0
IsShort w = w.current_window_ms < initial_window_ms

restart-IsShort : (now : ℕ) (w : Window) → IsShort w → IsShort (restart now w)
unfolding restart
restart-IsShort now w h =
    let empty : Window = record w { sum = 0; current_window_ms = 0; prev_time_ms = none } in
    let short : IsShort empty = omega arith in
    if_elim {A = Window} IsShort (is_before now w.prev_time_ms) (λ e. short) (λ e. h)

-- A window that grew by less than one, or was reduced.
advance-lt :
    (now rate : ℕ) (prev : Option ℕ) (w : Window)
    → 0 < rate
    → IsShort w
    → (advance now rate prev w).current_window_ms < initial_window_ms + rate
advance-lt now rate none w pos h = omega (arith, h)
advance-lt now rate (some prev) w pos h =
    if_elim {A = Window} (λ x. x.current_window_ms < initial_window_ms + rate)
      (ltb rate (now - prev)) (λ e. omega (arith, mod-lt (w.current_window_ms + (now - prev)) pos))
      (λ e. ground (arith, e, h))

module _ (f : Float64) where
  update_window-IsShort :
      (now bytes rate : ℕ) (w : Window)
      → 0 < rate
      → rate ≤ initial_window_ms
      → IsShort w
      → IsShort (update_window f now bytes rate w).2
  unfolding update_window
  update_window-IsShort now bytes rate w pos le h =
      let started = restart now w in
      let grown = advance now rate started.prev_time_ms started in
      let bound = advance-lt now rate started.prev_time_ms started pos (restart-IsShort now w h) in
      if_elim {A = f.Number × Bool × Window} (λ x. IsShort x.2) (leb rate grown.current_window_ms)
        (λ e. ground (arith, e, bound)) (λ e. ground (arith, e, le))

  window_of-le :
      (b : BitrateEstimator f) → (0 < window_of f b) × (window_of f b ≤ initial_window_ms)
  window_of-le b =
      if_elim (λ n. (0 < n) × (n ≤ initial_window_ms))
        (f.lt b.bitrate_estimate_kbps (f.literal 0 0)) (λ e. (omega arith, omega arith))
        (λ e. (omega arith, omega arith))

  rate_update-IsShort :
      (at_time amount : ℕ) (in_alr : Bool) (b : BitrateEstimator f)
      → IsShort b.window
      → IsShort (Rate.update f at_time amount in_alr b).window
  unfolding Rate.update weigh
  rate_update-IsShort at_time amount in_alr b h =
      let (pos, le) = window_of-le b in
      let short = update_window-IsShort at_time amount (window_of f b) b.window pos le h in
      if_elim {A = BitrateEstimator f} (λ x. IsShort x.window)
        (f.lt (update_window f at_time amount (window_of f b) b.window).0 (f.literal 0 0))
        (λ e. short)
        (λ e.
          if_elim {A = BitrateEstimator f} (λ x. IsShort x.window)
            (f.lt b.bitrate_estimate_kbps (f.literal 0 0)) (λ i. short) (λ i. short))

module _ (f : Float64) (laws : Laws f) where
  pub record IsHealthy (g : GccBandwidthEstimator f) : Type 0 where
    pub steady : IsSteady f laws g.trendline_manager
    pub short : IsShort g.bitrate_estimator_manager.window
    pub sound : IsSound f laws g.aimd_manager

  update-IsHealthy :
      (x : Report f) (g : GccBandwidthEstimator f)
      → IsHealthy g
      → IsHealthy (update f x.send_us x.arrival_us x.frame_size x.at_time g)
  unfolding update
  update-IsHealthy x g h = record {
    steady = update_trendline-IsSteady f laws _ _ _ g.trendline_manager h.steady;
    short = rate_update-IsShort f _ x.frame_size _ g.bitrate_estimator_manager h.short;
    sound = update-IsSound f laws _ x.at_time g.aimd_manager h.sound;
  }

  -- Whatever frames are reported in a session, the detector keeps at most 20 delays and a count of at
  -- most 1000, and its threshold neither over 600 nor below 6; the window of the throughput stays
  -- shorter than 350 ms; and the bit rate stays at the configured least one or above, with no decrease
  -- left to be acted on, and in its increase only with a time of the last change.
  pub update_all-IsHealthy :
      (xs : List (Report f)) (g : GccBandwidthEstimator f)
      → IsHealthy g
      → IsHealthy (update_all f xs g)
  update_all-IsHealthy [] g h = h
  update_all-IsHealthy (x ∷ xs) g h =
      update_all-IsHealthy xs (update f x.send_us x.arrival_us x.frame_size x.at_time g)
        (update-IsHealthy x g h)
