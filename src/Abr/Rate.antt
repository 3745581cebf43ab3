-- ===== src/Abr/Rate.antt =====
-- `BitrateEstimator` (gcc_nada_estimator.rs): the throughput, from the bytes that came in within a
-- window. The time -1 is `none`; sums and other times are not negative. The fields that keep their
-- initial value are constants.
use si_est_a_vr.Common.{
  ℕ, ◌+◌, ◌-◌, ◌%◌, Bool, false, ◌&&◌, ltb, leb, if◌then◌else◌, Option, none, some,
}
use si_est_a_vr.Abr.Float.{Float64}
use si_est_a_vr.Abr.Trend.{minus_one}

abbrev pub initial_window_ms : ℕ
initial_window_ms = 350

abbrev pub noninitial_window_ms : ℕ
noninitial_window_ms = 250

-- `small_sample_threshold_`, `uncertainty_symmetry_cap_` and `estimate_floor_` are 0.
abbrev pub small_sample_threshold : ℕ
small_sample_threshold = 0

-- The integer fields of the window.
pub record Window : Type 0 where
  pub sum : ℕ
  pub current_window_ms : ℕ
  pub prev_time_ms : Option ℕ

abbrev pub is_before : ℕ → Option ℕ → Bool
is_before now none = false
is_before now (some prev) = ltb now prev

-- A step back in time starts anew.
unfoldable pub restart : ℕ → Window → Window
restart now w =
    if is_before now w.prev_time_ms
    then record w { sum = 0; current_window_ms = 0; prev_time_ms = none }
    else w

-- The window grows by the time that went by; one in which nothing came is passed over.
abbrev pub advance : ℕ → ℕ → Option ℕ → Window → Window
advance now rate_window_ms none w = w
advance now rate_window_ms (some prev) w =
    let grown = w.current_window_ms + (now - prev) in
    if ltb rate_window_ms (now - prev)
    then record w { sum = 0; current_window_ms = grown % rate_window_ms }
    else record w { current_window_ms = grown }

module _ (f : Float64) where
  -- The sample, -1 if the window is not full, with the mark of a small one.
  unfoldable pub update_window : ℕ → ℕ → ℕ → Window → f.Number × Bool × Window
  update_window now bytes rate_window_ms w =
      let started = restart now w in
      let grown = advance now rate_window_ms started.prev_time_ms started in
      if leb rate_window_ms grown.current_window_ms
      then (
        f.div (f.mul (f.literal 8 0) (f.literal grown.sum 0)) (f.literal rate_window_ms 0),
        ltb grown.sum small_sample_threshold,
        record {
          sum = bytes;
          current_window_ms = grown.current_window_ms - rate_window_ms;
          prev_time_ms = some now;
        },
      )
      else (minus_one f, false, record grown { sum = grown.sum + bytes; prev_time_ms = some now })

  pub record BitrateEstimator : Type 0 where
    pub window : Window
    pub uncertainty_scale : f.Number
    pub uncertainty_scale_in_alr : f.Number
    pub small_sample_uncertainty_scale : f.Number
    pub bitrate_estimate_kbps : f.Number
    pub bitrate_estimate_var : f.Number

  abbrev pub new : BitrateEstimator
  new = record {
    window = record { sum = 0; current_window_ms = 0; prev_time_ms = none };
    uncertainty_scale = f.literal 10 0;
    uncertainty_scale_in_alr = f.literal 10 0;
    small_sample_uncertainty_scale = f.literal 10 0;
    bitrate_estimate_kbps = minus_one f;
    bitrate_estimate_var = f.literal 50 0;
  }

  abbrev pub window_of : BitrateEstimator → ℕ
  window_of b =
      if f.lt b.bitrate_estimate_kbps (f.literal 0 0)
      then initial_window_ms
      else noninitial_window_ms

  -- A sample that is not the first is weighed by its distance from the estimate.
  unfoldable pub weigh : f.Number → Bool → Bool → BitrateEstimator → BitrateEstimator
  weigh sample is_small in_alr b =
      let old = b.bitrate_estimate_kbps in
      let scale =
        if is_small && f.lt sample old
        then b.small_sample_uncertainty_scale
        else if in_alr && f.lt sample old
        then b.uncertainty_scale_in_alr
        else b.uncertainty_scale in
      let uncertainty =
        f.div (f.mul scale (f.abs (f.sub old sample))) (f.add old (f.min sample (f.literal 0 0))) in
      let var = f.mul uncertainty uncertainty in
      let pred = f.add b.bitrate_estimate_var (f.literal 5 0) in
      record b {
        bitrate_estimate_kbps =
            f.max (f.div (f.add (f.mul var old) (f.mul pred sample)) (f.add var pred))
              (f.literal 0 0);
        bitrate_estimate_var = f.div (f.mul var pred) (f.add var pred);
      }

  unfoldable pub update : ℕ → ℕ → Bool → BitrateEstimator → BitrateEstimator
  update at_time amount in_alr b =
      let (sample, is_small, w) = update_window at_time amount (window_of b) b.window in
      let b' : BitrateEstimator = record b { window = w } in
      if f.lt sample (f.literal 0 0)
      then b'
      else if f.lt b.bitrate_estimate_kbps (f.literal 0 0)
      then record b' { bitrate_estimate_kbps = sample }
      else weigh sample is_small in_alr b'

  unfoldable pub bitrate : BitrateEstimator → Option f.Number
  bitrate b =
      if f.lt b.bitrate_estimate_kbps (f.literal 0 0)
      then none
      else some (f.mul b.bitrate_estimate_kbps (f.literal 1000 0))
