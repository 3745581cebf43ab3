-- ===== src/Abr/Aimd.antt =====
-- `AimdRateControl` (gcc_nada_estimator.rs): the bit rate from the detector's verdict and the estimated
-- throughput. The time `i64::MIN` is `none`; other times and the round-trip time are milliseconds, and
-- not negative. The fields that nothing reads are left out: `in_alr_`, `send_side_`,
-- `no_bitrate_increase_in_alr_`, and the estimate's fields but the two bounds.
use si_est_a_vr.Common.{
  ℕ, ◌+◌, Bool, true, false, not, ◌&&◌, ltb, if◌then◌else◌, Option, none, some,
}
use si_est_a_vr.Abr.Float.{Float64}
use si_est_a_vr.Abr.Capacity
use si_est_a_vr.Abr.Capacity.{
  LinkCapacityEstimator, upper_bound, lower_bound, reset, on_overuse_detected, has_estimate,
}

pub data BandwidthUsage : Type 0 where
  bw_normal bw_underusing bw_overusing bw_last : BandwidthUsage

pub data RateControlState : Type 0 where
  rc_hold rc_increase rc_decrease : RateControlState

abbrev pub is_overusing : BandwidthUsage → Bool
is_overusing bw_overusing = true
is_overusing bw_normal = false
is_overusing bw_underusing = false
is_overusing bw_last = false

module _ (f : Float64) where
  pub record RateControlInput : Type 0 where
    pub bw_state : BandwidthUsage
    pub estimated_throughput : Option f.Number

  pub record NetworkStateEstimate : Type 0 where
    pub link_capacity_lower : f.Number
    pub link_capacity_upper : f.Number

  pub record AimdRateControl : Type 0 where
    pub min_configured_bitrate : f.Number
    pub max_configured_bitrate : f.Number
    pub current_bitrate : f.Number
    pub latest_estimated_throughput : f.Number
    pub link_capacity : LinkCapacityEstimator f
    pub network_estimate : Option NetworkStateEstimate
    pub rate_control_state : RateControlState
    pub time_last_bitrate_change : Option ℕ
    pub time_last_bitrate_decrease : Option ℕ
    pub time_first_throughput_estimate : Option ℕ
    pub bitrate_is_initialized : Bool
    pub beta : f.Number
    pub rtt : ℕ
    pub last_decrease : Option f.Number
    pub esitmate_thr_testing : f.Number
    pub gcc_frame_interval : f.Number

  -- A rate that was never estimated has the bounds of minus infinity.
  abbrev pub new : f.Number → AimdRateControl
  new framerate = record {
    min_configured_bitrate = f.literal 10000000 0;
    max_configured_bitrate = f.literal 100000000 0;
    current_bitrate = f.literal 100000000 0;
    latest_estimated_throughput = f.literal 100000000 0;
    link_capacity = Capacity.new f;
    network_estimate =
        some
          (record { link_capacity_lower = f.neg_infinity; link_capacity_upper = f.neg_infinity });
    rate_control_state = rc_hold;
    time_last_bitrate_change = none;
    time_last_bitrate_decrease = none;
    time_first_throughput_estimate = none;
    bitrate_is_initialized = false;
    beta = f.literal 85 2;
    rtt = 200;
    last_decrease = some (f.literal 0 0);
    esitmate_thr_testing = f.literal 0 0;
    gcc_frame_interval = f.div (f.literal 1 0) framerate;
  }

  abbrev pub change_to :
      BandwidthUsage → RateControlState → ℕ → Option ℕ → RateControlState × Option ℕ
  change_to bw_normal rc_hold at_time last = (rc_increase, some at_time)
  change_to bw_normal rc_increase at_time last = (rc_increase, last)
  change_to bw_normal rc_decrease at_time last = (rc_hold, last)
  change_to bw_overusing state at_time last = (rc_decrease, last)
  change_to bw_underusing state at_time last = (rc_hold, last)
  change_to bw_last state at_time last = (state, last)

  unfoldable pub change_state : BandwidthUsage → ℕ → AimdRateControl → AimdRateControl
  change_state bw_state at_time c =
      let (state, last) =
        change_to bw_state c.rate_control_state at_time c.time_last_bitrate_change in
      record c { rate_control_state = state; time_last_bitrate_change = last }

  -- A packet has 12,000 bits.
  unfoldable pub near_max_increase_rate : AimdRateControl → f.Number
  near_max_increase_rate c =
      let frame_size = f.mul c.current_bitrate c.gcc_frame_interval in
      let packets_per_frame = f.div frame_size (f.literal 12000 0) in
      let avg_packet_size = f.div frame_size packets_per_frame in
      let response_time =
        f.mul (f.mul (f.literal (c.rtt + 100) 0) (f.literal 1 3)) (f.literal 2 0) in
      f.max (f.literal 4000 0) (f.div avg_packet_size response_time)

  -- The source compares with `i64::MIN` for equality, so the exponent is used only for a change that
  -- never was.
  abbrev increase_alpha : ℕ → Option ℕ → f.Number
  increase_alpha at_time none =
      f.powf (f.literal 108 2)
        (f.min (f.div (f.elapsed at_time none) (f.literal 1000 0)) (f.literal 1 0))
  increase_alpha at_time (some last) = f.literal 108 2

  unfoldable pub multiplicative_rate_increase : ℕ → Option ℕ → f.Number → f.Number
  multiplicative_rate_increase at_time last_time current =
      f.max (f.mul current (f.sub (increase_alpha at_time last_time) (f.literal 1 0)))
        (f.literal 1000 0)

  unfoldable pub additive_rate_increase : ℕ → Option ℕ → AimdRateControl → f.Number
  additive_rate_increase at_time last_time c =
      f.mul (near_max_increase_rate c) (f.div (f.elapsed at_time last_time) (f.literal 1000 0))

  -- A new bit rate, if the state asks for one, and what else changes.
  abbrev pub hold : f.Number → ℕ → AimdRateControl → Option f.Number × AimdRateControl
  hold estimated at_time c = (none, c)

  unfoldable pub increase : f.Number → ℕ → AimdRateControl → Option f.Number × AimdRateControl
  increase estimated at_time c =
      let link =
        if f.lt (upper_bound f c.link_capacity) estimated
        then reset f c.link_capacity
        else c.link_capacity in
      let increase_limit = f.add (f.mul (f.literal 15 1) estimated) (f.literal 10000 0) in
      let more =
        if has_estimate f link
        then additive_rate_increase at_time c.time_last_bitrate_change c
        else multiplicative_rate_increase at_time c.time_last_bitrate_change c.current_bitrate in
      (
        (if f.lt c.current_bitrate increase_limit
            then some (f.min (f.add c.current_bitrate more) increase_limit)
            else none),
        record c { link_capacity = link; time_last_bitrate_change = some at_time },
      )

  -- `beta * estimate()`.
  abbrev scaled_estimate : AimdRateControl → Option f.Number → f.Number → f.Number
  scaled_estimate c none decreased = decreased
  scaled_estimate c (some kbps) decreased = f.mul c.beta (f.mul kbps (f.literal 1000 0))

  unfoldable pub decreased_bitrate : f.Number → AimdRateControl → f.Number
  decreased_bitrate estimated c =
      let decreased = f.mul estimated c.beta in
      if f.lt c.current_bitrate decreased
      then scaled_estimate c c.link_capacity.estimate_kbps decreased
      else decreased

  abbrev drop_by : f.Number → Option f.Number → Option f.Number
  drop_by current none = none
  drop_by current (some new_br) = some (f.sub current new_br)

  unfoldable pub decrease : f.Number → ℕ → AimdRateControl → Option f.Number × AimdRateControl
  decrease estimated at_time c =
      let decreased = decreased_bitrate estimated c in
      let new_bitrate = if f.lt decreased c.current_bitrate then some decreased else none in
      let link =
        if f.lt estimated (lower_bound f c.link_capacity)
        then reset f c.link_capacity
        else c.link_capacity in
      (
        new_bitrate,
        record c {
          last_decrease =
              if c.bitrate_is_initialized && f.lt estimated c.current_bitrate
              then drop_by c.current_bitrate new_bitrate
              else c.last_decrease;
          link_capacity = on_overuse_detected f estimated link;
          bitrate_is_initialized = true;
          esitmate_thr_testing = estimated;
          rate_control_state = rc_hold;
          time_last_bitrate_change = some at_time;
          time_last_bitrate_decrease = some at_time;
        },
      )

  abbrev pub in_state :
      RateControlState → f.Number → ℕ → AimdRateControl → Option f.Number × AimdRateControl
  in_state rc_hold = hold
  in_state rc_increase = increase
  in_state rc_decrease = decrease

  unfoldable pub bounds_of : AimdRateControl → NetworkStateEstimate
  bounds_of c =
      let low = lower_bound f c.link_capacity in
      let high = upper_bound f c.link_capacity in
      record {
        link_capacity_lower =
            if not (f.eq low (f.literal 0 0))
            then if f.lt low c.min_configured_bitrate then c.min_configured_bitrate else low
            else c.min_configured_bitrate;
        link_capacity_upper =
            if not (f.eq high f.infinity)
            then if f.lt c.max_configured_bitrate high then c.max_configured_bitrate else high
            else c.max_configured_bitrate;
      }

  abbrev pub below_upper : Option NetworkStateEstimate → f.Number → f.Number
  below_upper none new_bitrate = new_bitrate
  below_upper (some e) new_bitrate =
      if not (f.eq e.link_capacity_upper f.neg_infinity)
      then f.min e.link_capacity_upper new_bitrate
      else new_bitrate

  abbrev pub above_lower : Option NetworkStateEstimate → f.Number → f.Number → f.Number → f.Number
  above_lower none current beta new_bitrate = new_bitrate
  above_lower (some e) current beta new_bitrate =
      if not (f.eq e.link_capacity_lower f.neg_infinity) && f.lt new_bitrate current
      then f.min current (f.max new_bitrate (f.mul e.link_capacity_lower beta))
      else new_bitrate

  unfoldable pub clamp_bitrate : f.Number → AimdRateControl → f.Number
  clamp_bitrate new_bitrate c =
      f.max
        (above_lower c.network_estimate c.current_bitrate c.beta
          (below_upper c.network_estimate new_bitrate))
        c.min_configured_bitrate

  abbrev pub unwrap_or : f.Number → Option f.Number → f.Number
  unwrap_or x none = x
  unwrap_or x (some y) = y

  -- What follows the state's own work.
  unfoldable pub settle : Option f.Number × AimdRateControl → AimdRateControl
  settle (new_bitrate, c) =
      let c' : AimdRateControl = record c { network_estimate = some (bounds_of c) } in
      record c' { current_bitrate = clamp_bitrate (unwrap_or c.current_bitrate new_bitrate) c' }

  abbrev pub note_throughput : Option f.Number → AimdRateControl → AimdRateControl
  note_throughput none c = c
  note_throughput (some throughput) c = record c { latest_estimated_throughput = throughput }

  -- Without a first estimate, all but an over-use is ignored.
  unfoldable pub change_bitrate : RateControlInput → ℕ → AimdRateControl → AimdRateControl
  change_bitrate input at_time c =
      let estimated = unwrap_or c.latest_estimated_throughput input.estimated_throughput in
      let c1 = note_throughput input.estimated_throughput c in
      if not c.bitrate_is_initialized && not (is_overusing input.bw_state)
      then c1
      else let c2 = change_state input.bw_state at_time c1 in
        settle (in_state c2.rate_control_state estimated at_time c2)

  -- The first five seconds of estimates.
  abbrev pub first_estimate : Option ℕ → Option f.Number → ℕ → AimdRateControl → AimdRateControl
  first_estimate first none at_time c = c
  first_estimate none (some throughput) at_time c = record c {
    time_first_throughput_estimate = some at_time;
  }
  first_estimate (some t) (some throughput) at_time c =
      if ltb (t + 5000) at_time
      then record c { current_bitrate = throughput; bitrate_is_initialized = true }
      else c

  unfoldable pub update : RateControlInput → ℕ → AimdRateControl → AimdRateControl
  update input at_time c = change_bitrate input at_time (
      if c.bitrate_is_initialized
      then c
      else first_estimate c.time_first_throughput_estimate input.estimated_throughput at_time c)
