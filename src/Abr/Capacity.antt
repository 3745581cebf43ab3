-- ===== src/Abr/Capacity.antt =====
-- `LinkCapacityEstimator` (gcc_nada_estimator.rs). `deviation_estimate_kbps` and `estimate` unwrap the
-- estimate, which their callers have tested: they take it as an argument.
use si_est_a_vr.Common.{if◌then◌else◌, Bool, true, false, Option, none, some}
use si_est_a_vr.Abr.Float.{Float64}

module _ (f : Float64) where
  pub record LinkCapacityEstimator : Type 0 where
    pub estimate_kbps : Option f.Number
    pub deviation_kbps : f.Number

  abbrev pub new : LinkCapacityEstimator
  new = record { estimate_kbps = none; deviation_kbps = f.literal 4 1 }

  abbrev pub deviation_estimate_kbps : f.Number → LinkCapacityEstimator → f.Number
  deviation_estimate_kbps estimate c = f.sqrt (f.mul c.deviation_kbps estimate)

  abbrev upper : Option f.Number → LinkCapacityEstimator → f.Number
  upper none c = f.infinity
  upper (some estimate) c =
      f.mul (f.add estimate (f.mul (f.literal 3 0) (deviation_estimate_kbps estimate c)))
        (f.literal 1000 0)

  unfoldable pub upper_bound : LinkCapacityEstimator → f.Number
  upper_bound c = upper c.estimate_kbps c

  abbrev lower : Option f.Number → LinkCapacityEstimator → f.Number
  lower none c = f.literal 0 0
  lower (some estimate) c =
      f.mul
        (f.max (f.literal 0 0)
          (f.sub estimate (f.mul (f.literal 3 0) (deviation_estimate_kbps estimate c))))
        (f.literal 1000 0)

  unfoldable pub lower_bound : LinkCapacityEstimator → f.Number
  lower_bound c = lower c.estimate_kbps c

  unfoldable pub reset : LinkCapacityEstimator → LinkCapacityEstimator
  reset c = record c { estimate_kbps = none }

  abbrev smoothed : Option f.Number → f.Number → f.Number → f.Number
  smoothed none sample_kbps alpha = sample_kbps
  smoothed (some old) sample_kbps alpha =
      f.add (f.mul (f.sub (f.literal 1 0) alpha) old) (f.mul alpha sample_kbps)

  -- The deviation is kept between 0.4 and 2.5.
  abbrev clipped : f.Number → f.Number
  clipped deviation =
      if f.lt (f.literal 25 1) deviation
      then f.literal 25 1
      else if f.lt deviation (f.literal 4 1)
      then f.literal 4 1
      else deviation

  unfoldable pub update : f.Number → f.Number → LinkCapacityEstimator → LinkCapacityEstimator
  update capacity_sample alpha c =
      let sample_kbps = f.mul capacity_sample (f.literal 1 3) in
      let estimate = smoothed c.estimate_kbps sample_kbps alpha in
      let norm = f.max estimate (f.literal 1 0) in
      let error_kbps = f.sub estimate sample_kbps in
      record {
        estimate_kbps = some estimate;
        deviation_kbps = clipped (
            f.add (f.mul (f.sub (f.literal 1 0) alpha) c.deviation_kbps)
              (f.div (f.mul (f.mul alpha error_kbps) error_kbps) norm));
      }

  abbrev pub on_overuse_detected : f.Number → LinkCapacityEstimator → LinkCapacityEstimator
  on_overuse_detected acknowledged_rate c = update acknowledged_rate (f.literal 5 2) c

  abbrev pub on_probe_rate : f.Number → LinkCapacityEstimator → LinkCapacityEstimator
  on_probe_rate probe_rate c = update probe_rate (f.literal 5 1) c

  abbrev pub has_estimate : LinkCapacityEstimator → Bool
  has_estimate c = elim c.estimate_kbps [ none ↦ false | some x ↦ true ]
