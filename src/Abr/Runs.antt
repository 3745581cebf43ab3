-- ===== src/Abr/Runs.antt =====
-- The theorems on the detector and the whole estimator, with numbers for `f64`.
use si_est_a_vr.Common.{◌≡◌, refl, true, List, [], ◌∷◌, arith}
use si_est_a_vr.Abr.Trend.{
  TrendlineEstimator, update_trendline, accumulate_delay, linear_fit_slope, push_timing, detect,
  judge, over_threshold, under_threshold, update_threshold,
}
use si_est_a_vr.Abr.Trend
use si_est_a_vr.Abr.Gcc.{Report, update_all}
use si_est_a_vr.Abr.Gcc
use si_est_a_vr.Abr.Detection.{is_excess, update_trendline-twice}
use si_est_a_vr.Abr.Session.{IsHealthy, update_all-IsHealthy}
use si_est_a_vr.Abr.Tests.{numbers, number_laws}

-- A detector that has seen a rising delay.
abbrev rising : TrendlineEstimator numbers
rising = record (Trend.new numbers) { num_of_deltas = 30; prev_trend = 50 }

abbrev once_more : TrendlineEstimator numbers
once_more = update_trendline numbers 60 40 1000 rising

update_trendline-twice_example :
    (is_excess numbers 60 40 1000 rising ≡ true) × (is_excess numbers 60 40 1040 once_more ≡ true)
unfolding update_trendline accumulate_delay push_timing detect judge over_threshold update_threshold
update_trendline-twice_example =
    update_trendline-twice numbers 60 40 1000 60 40 1040 rising (omega arith) (λ e. cc) refl

abbrev two_frames : List (Report numbers)
two_frames =
    record { send_us = 1000; arrival_us = 3000; frame_size = 50000; at_time = 7000 }
    ∷ record { send_us = 14000; arrival_us = 19000; frame_size = 40000; at_time = 7016 }
    ∷ []

update_all-IsHealthy_example :
    IsHealthy numbers number_laws (update_all numbers two_frames (Gcc.new numbers 90))
update_all-IsHealthy_example =
    update_all-IsHealthy numbers number_laws two_frames (Gcc.new numbers 90) (record {
      steady = record {
        hist_le = omega arith;
        deltas_le = omega arith;
        in_range = record { not_high = refl; not_low = refl };
      };
      short = omega arith;
      sound = record { floor = refl; acted = λ h. cc; started = λ h. cc };
    })
