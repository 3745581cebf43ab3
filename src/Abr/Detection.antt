-- ===== src/Abr/Detection.antt =====
-- When the detector reports an over-use (gcc_nada_estimator.rs, `TrendlineEstimator`).
use si_est_a_vr.Common.{ℕ, ◌≤◌, ◌<◌, Bool, ltb, ◌≡◌, ◌≢◌, refl, sym, ◌∙◌, true, arith, if_elim}
use si_est_a_vr.Abr.Float.{Float64}
use si_est_a_vr.Abr.Aimd.{bw_overusing}
use si_est_a_vr.Abr.Trend.{
  TrendlineEstimator, is_overuse, update_threshold, over_threshold, under_threshold, judge, detect,
  modified, trend_of, accumulate_delay, update_trendline,
}

module _ (f : Float64) where
  -- A report's trend is over the threshold.
  unfoldable pub is_excess : f.Number → f.Number → ℕ → TrendlineEstimator f → Bool
  is_excess recv_delta send_delta arrival t =
      let t' = accumulate_delay f recv_delta send_delta arrival t in
      f.lt t'.threshold (modified f (trend_of f t.prev_trend t'.delay_hist) t')

  -- The verdict of `judge` and its counter.
  record Judged (m : f.Number) (t t' : TrendlineEstimator f) : Type 0 where
    reported :
        t.hypothesis ≢ bw_overusing
        → t'.hypothesis ≡ bw_overusing
        → (f.lt t.threshold m ≡ true) × (0 < t.overuse_counter)
    counted : 0 < t'.overuse_counter → f.lt t.threshold m ≡ true
    deltas : t'.num_of_deltas ≡ t.num_of_deltas

  judge-Judged :
      (m trend ts_delta : f.Number) (t : TrendlineEstimator f)
      → Judged m t (judge f m trend ts_delta t)
  unfolding judge over_threshold under_threshold
  judge-Judged m trend ts_delta t =
      if_elim {A = TrendlineEstimator f} (Judged m t) (f.lt t.threshold m)
        (λ e.
          if_elim {A = TrendlineEstimator f} (Judged m t) (is_overuse f trend ts_delta t)
            (λ h. record {
              reported = λ n o. (e, ground (arith, h));
              counted = λ p. e;
              deltas = refl;
            })
            (λ h. record { reported = λ n o. absurd (n o); counted = λ p. e; deltas = refl }))
        (λ e.
          if_elim {A = TrendlineEstimator f} (Judged m t) (f.lt m (f.neg t.threshold))
            (λ h. record {
              reported = λ n o. cc;
              counted = λ p. absurd (omega (arith, p));
              deltas = refl;
            })
            (λ h. record {
              reported = λ n o. cc;
              counted = λ p. absurd (omega (arith, p));
              deltas = refl;
            }))

  record SameVerdict (t t' : TrendlineEstimator f) : Type 0 where
    verdict : t'.hypothesis ≡ t.hypothesis
    counter : t'.overuse_counter ≡ t.overuse_counter
    deltas : t'.num_of_deltas ≡ t.num_of_deltas

  update_threshold-SameVerdict :
      (m : f.Number) (now : ℕ) (t : TrendlineEstimator f)
      → SameVerdict t (update_threshold f m now t)
  unfolding update_threshold
  update_threshold-SameVerdict m now t =
      if_elim {A = TrendlineEstimator f} (SameVerdict t)
        (f.lt (f.add t.threshold (f.literal 15 0)) (f.abs m))
        (λ e. record { verdict = refl; counter = refl; deltas = refl })
        (λ e. record { verdict = refl; counter = refl; deltas = refl })

  detect-Judged :
      (trend ts_delta : f.Number) (now : ℕ) (t : TrendlineEstimator f)
      → 2 ≤ t.num_of_deltas
      → Judged (modified f trend t) t (detect f trend ts_delta now t)
  unfolding detect
  detect-Judged trend ts_delta now t enough =
      if_elim {A = TrendlineEstimator f} (Judged (modified f trend t) t) (ltb t.num_of_deltas 2)
        (λ e. absurd (ground (arith, e, enough)))
        (λ e.
          let m = modified f trend t in
          let noted : TrendlineEstimator f = record t { prev_modified_trend = m } in
          let judged : TrendlineEstimator f = record (judge f m trend ts_delta noted) {
            prev_trend = trend;
          } in
          let j = judge-Judged m trend ts_delta noted in
          let same = update_threshold-SameVerdict m now judged in
          record {
            reported = λ n o. j.reported n (sym same.verdict ∙ o);
            counted = λ p. j.counted (rw (← same.counter) p);
            deltas = same.deltas ∙ j.deltas;
          })

  -- What a report does to the verdict, once there was one before.
  record Reported (recv_delta send_delta : f.Number) (arrival : ℕ) (t t' : TrendlineEstimator f)
      : Type 0 where
    reported :
        t.hypothesis ≢ bw_overusing
        → t'.hypothesis ≡ bw_overusing
        → (is_excess recv_delta send_delta arrival t ≡ true) × (0 < t.overuse_counter)
    counted : 0 < t'.overuse_counter → is_excess recv_delta send_delta arrival t ≡ true
    begun : 1 ≤ t'.num_of_deltas

  update_trendline-Reported :
      (recv_delta send_delta : f.Number) (arrival : ℕ) (t : TrendlineEstimator f)
      → 1 ≤ t.num_of_deltas
      → Reported recv_delta send_delta arrival t
          (update_trendline f recv_delta send_delta arrival t)
  unfolding update_trendline is_excess accumulate_delay
  update_trendline-Reported recv_delta send_delta arrival t begun =
      let t' = accumulate_delay f recv_delta send_delta arrival t in
      let j =
        detect-Judged (trend_of f t.prev_trend t'.delay_hist) send_delta arrival t'
          (omega (arith, begun)) in
      record { reported = j.reported; counted = j.counted; begun = omega (arith, j.deltas, begun) }

  -- After the first report, an over-use is only reported anew where two reports in a row, the last one
  -- and the one before it, are over the threshold.
  pub update_trendline-twice :
      (recv1 send1 : f.Number) (arrival1 : ℕ) (recv2 send2 : f.Number) (arrival2 : ℕ)
      (t : TrendlineEstimator f)
      → 1 ≤ t.num_of_deltas
      → (update_trendline f recv1 send1 arrival1 t).hypothesis ≢ bw_overusing
      → (update_trendline f recv2 send2 arrival2
          (update_trendline f recv1 send1 arrival1 t)).hypothesis
        ≡ bw_overusing
      → (is_excess recv1 send1 arrival1 t ≡ true)
        × (is_excess recv2 send2 arrival2 (update_trendline f recv1 send1 arrival1 t) ≡ true)
  update_trendline-twice recv1 send1 arrival1 recv2 send2 arrival2 t begun calm over =
      let one = update_trendline-Reported recv1 send1 arrival1 t begun in
      let two =
        update_trendline-Reported recv2 send2 arrival2 (update_trendline f recv1 send1 arrival1 t)
          one.begun in
      let (excess, before) = two.reported calm over in (one.counted before, excess)
