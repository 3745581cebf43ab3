-- ===== src/Abr/Gcc.antt =====
-- `GccBandwidthEstimator` (gcc_nada_estimator.rs): one frame's report goes through the detector, the
-- throughput estimate and the rate control.
use si_est_a_vr.Common.{ℕ, false, if◌then◌else◌, Option, none, some, List, [], ◌∷◌}
use si_est_a_vr.Abr.Float.{Float64}
use si_est_a_vr.Abr.Aimd.{
  BandwidthUsage, bw_normal, bw_underusing, bw_overusing, bw_last, RateControlInput,
  AimdRateControl,
}
use si_est_a_vr.Abr.Aimd
use si_est_a_vr.Abr.Trend
use si_est_a_vr.Abr.Trend.{TrendlineEstimator, update_trendline}
use si_est_a_vr.Abr.Rate.{BitrateEstimator, bitrate}
use si_est_a_vr.Abr.Rate

-- Everything but the first two is taken for an under-use.
abbrev pub verdict : BandwidthUsage → BandwidthUsage
verdict bw_normal = bw_normal
verdict bw_overusing = bw_overusing
verdict bw_underusing = bw_underusing
verdict bw_last = bw_underusing

module _ (f : Float64) where
  pub record GccBandwidthEstimator : Type 0 where
    pub trendline_manager : TrendlineEstimator f
    pub aimd_manager : AimdRateControl f
    pub rate_control_input_manager : RateControlInput f
    pub bitrate_estimator_manager : BitrateEstimator f
    pub last_frame_send_timestamp : f.Number
    pub last_frame_arrival_timestamp : f.Number

  abbrev pub new : f.Number → GccBandwidthEstimator
  new framerate = record {
    trendline_manager = Trend.new f;
    aimd_manager = Aimd.new f framerate;
    rate_control_input_manager = record {
      bw_state = bw_normal;
      estimated_throughput = some (f.literal 100000000 0);
    };
    bitrate_estimator_manager = Rate.new f;
    last_frame_send_timestamp = f.literal 0 0;
    last_frame_arrival_timestamp = f.literal 0 0;
  }

  -- Timestamps are microseconds, 0 for none.
  abbrev pub delta_ms : f.Number → f.Number → f.Number → f.Number
  delta_ms last_send current last =
      if f.eq last_send (f.literal 0 0)
      then f.literal 0 0
      else f.mul (f.sub current last) (f.literal 1 3)

  abbrev pub or_throughput : Option f.Number → Option f.Number → Option f.Number
  or_throughput none old = old
  or_throughput (some rate) old = some rate

  -- The state after a frame; the new bit rate is the rate control's `current_bitrate`.
  unfoldable pub update :
      f.Number → f.Number → ℕ → ℕ → GccBandwidthEstimator → GccBandwidthEstimator
  update send_us arrival_us frame_size at_time g =
      let send_delta = delta_ms g.last_frame_send_timestamp send_us g.last_frame_send_timestamp in
      let recv_delta =
        delta_ms g.last_frame_send_timestamp arrival_us g.last_frame_arrival_timestamp in
      let arrival_ms = f.truncate (f.mul arrival_us (f.literal 1 3)) in
      let trendline = update_trendline f recv_delta send_delta arrival_ms g.trendline_manager in
      let estimator = Rate.update f arrival_ms frame_size false g.bitrate_estimator_manager in
      let input : RateControlInput f = record {
        bw_state = verdict trendline.hypothesis;
        estimated_throughput =
            or_throughput (bitrate f estimator) g.rate_control_input_manager.estimated_throughput;
      } in
      record {
        trendline_manager = trendline;
        aimd_manager = Aimd.update f input at_time g.aimd_manager;
        rate_control_input_manager = input;
        bitrate_estimator_manager = estimator;
        last_frame_send_timestamp = send_us;
        last_frame_arrival_timestamp = arrival_us;
      }

  -- A report on a frame: when it was sent and came in, its bytes, and the time of the update.
  pub record Report : Type 0 where
    pub send_us : f.Number
    pub arrival_us : f.Number
    pub frame_size : ℕ
    pub at_time : ℕ

  abbrev pub update_all : List Report → GccBandwidthEstimator → GccBandwidthEstimator
  update_all [] g = g
  update_all (x ∷ xs) g = update_all xs (update x.send_us x.arrival_us x.frame_size x.at_time g)
