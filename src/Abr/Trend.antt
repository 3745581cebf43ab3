-- ===== src/Abr/Trend.antt =====
-- `TrendlineEstimator` (gcc_nada_estimator.rs): the detector of over-use, from the trend of the delay.
-- The time -1 is `none`; other times are milliseconds, and not negative. `hypothesis_predicted_` and the
-- two fields for testing, which nothing reads, and the debug output are left out.
use si_est_a_vr.Common.{
  ℕ, ◌+◌, ◌-◌, min, Bool, ◌&&◌, ltb, ◌==◌, if◌then◌else◌, Option, none, some, List, [], ◌∷◌, ◌++◌,
  length, drop,
}
use si_est_a_vr.Abr.Float.{Float64}
use si_est_a_vr.Abr.Aimd.{BandwidthUsage, bw_normal, bw_underusing, bw_overusing, unwrap_or}

abbrev pub gcc_window_size : ℕ
gcc_window_size = 20

module _ (f : Float64) where
  pub record PacketTiming : Type 0 where
    pub arrival_time_ms : f.Number
    pub smoothed_delay_ms : f.Number
    pub raw_delay_ms : f.Number

  abbrev sum_from : f.Number → (PacketTiming → f.Number) → List PacketTiming → f.Number
  sum_from acc g [] = acc
  sum_from acc g (p ∷ ps) = sum_from (f.add acc (g p)) g ps

  unfoldable pub linear_fit_slope : List PacketTiming → Option f.Number
  linear_fit_slope packets =
      let zero_sum = f.literal 0 0 in
      let count = f.literal (length packets) 0 in
      let x_avg = f.div (sum_from zero_sum (λ p. p.arrival_time_ms) packets) count in
      let y_avg = f.div (sum_from zero_sum (λ p. p.smoothed_delay_ms) packets) count in
      let numerator =
        sum_from zero_sum
          (λ p. f.mul (f.sub p.arrival_time_ms x_avg) (f.sub p.smoothed_delay_ms y_avg)) packets in
      let denominator =
        sum_from zero_sum
          (λ p. f.mul (f.sub p.arrival_time_ms x_avg) (f.sub p.arrival_time_ms x_avg)) packets in
      if ltb 2 (length packets)
      then (if f.eq denominator (f.literal 0 0) then none else some (f.div numerator denominator))
      else none

  pub record TrendlineEstimator : Type 0 where
    pub smoothing_coef : f.Number
    pub threshold_gain : f.Number
    pub num_of_deltas : ℕ
    pub first_arrival_time_ms : Option ℕ
    pub accumulated_delay : f.Number
    pub smoothed_delay : f.Number
    pub k_up : f.Number
    pub k_down : f.Number
    pub overusing_time_threshold : f.Number
    pub threshold : f.Number
    pub prev_modified_trend : f.Number
    pub last_update_ms : Option ℕ
    pub prev_trend : f.Number
    pub time_over_using : f.Number
    pub overuse_counter : ℕ
    pub hypothesis : BandwidthUsage
    pub delay_hist : List PacketTiming

  abbrev pub minus_one : f.Number
  minus_one = f.neg (f.literal 1 0)

  abbrev pub new : TrendlineEstimator
  new = record {
    smoothing_coef = f.literal 9 1;
    threshold_gain = f.literal 4 0;
    num_of_deltas = 0;
    first_arrival_time_ms = none;
    accumulated_delay = f.literal 0 0;
    smoothed_delay = f.literal 0 0;
    k_up = f.literal 87 4;
    k_down = f.literal 39 3;
    overusing_time_threshold = f.literal 10 0;
    threshold = f.literal 125 1;
    prev_modified_trend = f.nan;
    last_update_ms = none;
    prev_trend = f.literal 0 0;
    time_over_using = minus_one;
    overuse_counter = 0;
    hypothesis = bw_normal;
    delay_hist = [];
  }

  -- The time since the last update, at most 100 ms; 0 if there was none.
  abbrev pub time_delta : ℕ → Option ℕ → f.Number
  time_delta now none = f.literal 0 0
  time_delta now (some last) =
      if ltb now last then f.elapsed now (some last) else f.literal (min (now - last) 100) 0

  abbrev pub clip : f.Number → f.Number
  clip threshold =
      if f.lt (f.literal 600 0) threshold
      then f.literal 600 0
      else if f.lt threshold (f.literal 6 0)
      then f.literal 6 0
      else threshold

  -- The threshold is not adapted to a spike.
  unfoldable pub update_threshold : f.Number → ℕ → TrendlineEstimator → TrendlineEstimator
  update_threshold modified_trend now t =
      let size = f.abs modified_trend in
      let k = if f.lt size t.threshold then t.k_down else t.k_up in
      let adapted =
        f.add t.threshold
          (f.mul (f.mul k (f.sub size t.threshold)) (time_delta now t.last_update_ms)) in
      if f.lt (f.add t.threshold (f.literal 15 0)) size
      then record t { last_update_ms = some now }
      else record t { threshold = clip adapted; last_update_ms = some now }

  -- The timer after a sample over the threshold. The first one is counted for half its time.
  abbrev pub time_over : f.Number → TrendlineEstimator → f.Number
  time_over ts_delta t =
      if f.eq t.time_over_using minus_one
      then f.div ts_delta (f.literal 2 0)
      else f.add t.time_over_using ts_delta

  -- The timer and the counter are large enough, and the trend does not fall.
  abbrev pub is_overuse : f.Number → f.Number → TrendlineEstimator → Bool
  is_overuse trend ts_delta t =
      (f.lt t.overusing_time_threshold (time_over ts_delta t) && ltb 1 (t.overuse_counter + 1))
      && f.le t.prev_trend trend

  unfoldable pub over_threshold : f.Number → f.Number → TrendlineEstimator → TrendlineEstimator
  over_threshold trend ts_delta t =
      if is_overuse trend ts_delta t
      then record t {
        time_over_using = f.literal 0 0;
        overuse_counter = 0;
        hypothesis = bw_overusing;
      }
      else record t {
        time_over_using = time_over ts_delta t;
        overuse_counter = t.overuse_counter + 1;
      }

  unfoldable pub under_threshold : BandwidthUsage → TrendlineEstimator → TrendlineEstimator
  under_threshold usage t = record t {
    time_over_using = minus_one;
    overuse_counter = 0;
    hypothesis = usage;
  }

  abbrev pub modified : f.Number → TrendlineEstimator → f.Number
  modified trend t = f.mul (f.mul (f.literal (min t.num_of_deltas 60) 0) trend) t.threshold_gain

  -- The verdict on a trend.
  unfoldable pub judge : f.Number → f.Number → f.Number → TrendlineEstimator → TrendlineEstimator
  judge modified_trend trend ts_delta t =
      if f.lt t.threshold modified_trend
      then over_threshold trend ts_delta t
      else if f.lt modified_trend (f.neg t.threshold)
      then under_threshold bw_underusing t
      else under_threshold bw_normal t

  unfoldable pub detect : f.Number → f.Number → ℕ → TrendlineEstimator → TrendlineEstimator
  detect trend ts_delta now t =
      let modified_trend = modified trend t in
      let judged =
        judge modified_trend trend ts_delta (record t { prev_modified_trend = modified_trend }) in
      if ltb t.num_of_deltas 2
      then record t { hypothesis = bw_normal }
      else update_threshold modified_trend now (record judged { prev_trend = trend })

  abbrev or_now : ℕ → Option ℕ → ℕ
  or_now now none = now
  or_now now (some first) = first

  -- The window of delays, of which the oldest is dropped where there are too many.
  unfoldable pub push_timing : PacketTiming → List PacketTiming → List PacketTiming
  push_timing p ps =
      if ltb gcc_window_size (length (ps ++ p ∷ [])) then drop 1 (ps ++ p ∷ []) else ps ++ p ∷ []

  abbrev pub trend_of : f.Number → List PacketTiming → f.Number
  trend_of prev hist =
      if length hist == gcc_window_size then unwrap_or f prev (linear_fit_slope hist) else prev

  -- What a report adds, before the verdict.
  unfoldable pub accumulate_delay :
      f.Number → f.Number → ℕ → TrendlineEstimator → TrendlineEstimator
  accumulate_delay recv_delta_ms send_delta_ms arrival_time_ms t =
      let first = or_now arrival_time_ms t.first_arrival_time_ms in
      let accumulated = f.add t.accumulated_delay (f.sub recv_delta_ms send_delta_ms) in
      let smoothed =
        f.add (f.mul t.smoothing_coef t.smoothed_delay)
          (f.mul (f.sub (f.literal 1 0) t.smoothing_coef) accumulated) in
      let timing : PacketTiming = record {
        arrival_time_ms = f.elapsed arrival_time_ms (some first);
        smoothed_delay_ms = smoothed;
        raw_delay_ms = accumulated;
      } in
      record t {
        num_of_deltas = min (t.num_of_deltas + 1) 1000;
        first_arrival_time_ms = some first;
        accumulated_delay = accumulated;
        smoothed_delay = smoothed;
        delay_hist = push_timing timing t.delay_hist;
      }

  unfoldable pub update_trendline :
      f.Number → f.Number → ℕ → TrendlineEstimator → TrendlineEstimator
  update_trendline recv_delta_ms send_delta_ms arrival_time_ms t =
      let t' = accumulate_delay recv_delta_ms send_delta_ms arrival_time_ms t in
      detect (trend_of t.prev_trend t'.delay_hist) send_delta_ms arrival_time_ms t'
