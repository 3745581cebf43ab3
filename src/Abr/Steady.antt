-- ===== src/Abr/Steady.antt =====
-- What the detector of over-use keeps (gcc_nada_estimator.rs, `TrendlineEstimator`).
use si_est_a_vr.Common.{
  ℕ, ◌≤◌, ltb, ◌≡◌, false, List, [], ◌∷◌, ◌++◌, length, drop, arith, if_elim, length-append,
  length-drop,
}
use si_est_a_vr.Abr.Float.{Float64, Laws}
use si_est_a_vr.Abr.Trend.{
  gcc_window_size, PacketTiming, TrendlineEstimator, clip, update_threshold, over_threshold,
  is_overuse, under_threshold, judge, detect, push_timing, accumulate_delay, update_trendline,
}

module _ (f : Float64) (laws : Laws f) where
  -- Neither over 600 nor below 6.
  pub record InRange (x : f.Number) : Type 0 where
    pub not_high : f.lt (f.literal 600 0) x ≡ false
    pub not_low : f.lt x (f.literal 6 0) ≡ false

  pub record IsSteady (t : TrendlineEstimator f) : Type 0 where
    pub hist_le : length t.delay_hist ≤ gcc_window_size
    pub deltas_le : t.num_of_deltas ≤ 1000
    pub in_range : InRange t.threshold

  clip-InRange : (x : f.Number) → InRange (clip f x)
  clip-InRange x =
      if_elim InRange (f.lt (f.literal 600 0) x)
        (λ e. record {
          not_high = laws.lt_irrefl (f.literal 600 0);
          not_low = laws.lt-literal 600 6 (omega arith);
        })
        (λ e.
          if_elim InRange (f.lt x (f.literal 6 0))
            (λ h. record {
              not_high = laws.lt-literal 600 6 (omega arith);
              not_low = laws.lt_irrefl (f.literal 6 0);
            })
            (λ h. record { not_high = e; not_low = h }))

  update_threshold-IsSteady :
      (modified_trend : f.Number) (now : ℕ) (t : TrendlineEstimator f)
      → IsSteady t
      → IsSteady (update_threshold f modified_trend now t)
  unfolding update_threshold
  update_threshold-IsSteady modified_trend now t s =
      if_elim {A = TrendlineEstimator f} IsSteady
        (f.lt (f.add t.threshold (f.literal 15 0)) (f.abs modified_trend))
        (λ e. record { hist_le = s.hist_le; deltas_le = s.deltas_le; in_range = s.in_range })
        (λ e. record { hist_le = s.hist_le; deltas_le = s.deltas_le; in_range = clip-InRange _ })

  judge-IsSteady :
      (modified_trend trend ts_delta : f.Number) (t : TrendlineEstimator f)
      → IsSteady t
      → IsSteady (judge f modified_trend trend ts_delta t)
  unfolding judge over_threshold under_threshold
  judge-IsSteady modified_trend trend ts_delta t s =
      if_elim {A = TrendlineEstimator f} IsSteady (f.lt t.threshold modified_trend)
        (λ e.
          if_elim {A = TrendlineEstimator f} IsSteady (is_overuse f trend ts_delta t)
            (λ h. record { hist_le = s.hist_le; deltas_le = s.deltas_le; in_range = s.in_range })
            (λ h. record { hist_le = s.hist_le; deltas_le = s.deltas_le; in_range = s.in_range }))
        (λ e.
          if_elim {A = TrendlineEstimator f} IsSteady (f.lt modified_trend (f.neg t.threshold))
            (λ h. record { hist_le = s.hist_le; deltas_le = s.deltas_le; in_range = s.in_range })
            (λ h. record { hist_le = s.hist_le; deltas_le = s.deltas_le; in_range = s.in_range }))

  detect-IsSteady :
      (trend ts_delta : f.Number) (now : ℕ) (t : TrendlineEstimator f)
      → IsSteady t
      → IsSteady (detect f trend ts_delta now t)
  unfolding detect
  detect-IsSteady trend ts_delta now t s =
      if_elim {A = TrendlineEstimator f} IsSteady (ltb t.num_of_deltas 2)
        (λ e. record { hist_le = s.hist_le; deltas_le = s.deltas_le; in_range = s.in_range })
        (λ e.
          let j =
            judge-IsSteady _ trend ts_delta _
              (record { hist_le = s.hist_le; deltas_le = s.deltas_le; in_range = s.in_range }) in
          update_threshold-IsSteady _ now _
            (record { hist_le = j.hist_le; deltas_le = j.deltas_le; in_range = j.in_range }))

  push_timing-le :
      (p : PacketTiming f) (ps : List (PacketTiming f))
      → length ps ≤ gcc_window_size
      → length (push_timing f p ps) ≤ gcc_window_size
  unfolding push_timing
  push_timing-le p ps h =
      let grown = ps ++ p ∷ [] in
      let dropped : length (drop 1 grown) ≤ gcc_window_size =
        omega (arith, h, length-append ps (p ∷ []), length-drop 1 grown) in
      if_elim {A = List (PacketTiming f)} (λ l. length l ≤ gcc_window_size)
        (ltb gcc_window_size (length grown)) (λ e. dropped) (λ e. ground (arith, e))

  -- A report keeps at most 20 delays and a count of at most 1000, and the threshold neither over 600
  -- nor below 6.
  pub update_trendline-IsSteady :
      (recv_delta send_delta : f.Number) (arrival : ℕ) (t : TrendlineEstimator f)
      → IsSteady t
      → IsSteady (update_trendline f recv_delta send_delta arrival t)
  unfolding update_trendline accumulate_delay
  update_trendline-IsSteady recv_delta send_delta arrival t s =
      detect-IsSteady _ send_delta arrival _ (record {
        hist_le = push_timing-le _ t.delay_hist s.hist_le;
        deltas_le = omega arith;
        in_range = s.in_range;
      })
