-- ===== src/Ap/Samples.antt =====
-- A loaded access point, for the runs of its operations.
use si_est_a_vr.Common.{
  ℕ, ◌+◌, refl, ◌&&◌, ◌==◌, if◌then◌else◌, false, none, [], ◌∷◌, length, arith,
}
use si_est_a_vr.Mac.Edca.{MacKey, video, edca_table, ac_prio}
use si_est_a_vr.Mac.Backoff.{DcfStats}
use si_est_a_vr.Mac.Medium.{Medium}
use si_est_a_vr.Ap.Packets.{MpduPacket, ap_id}
use si_est_a_vr.Ap.State.{QueueModule, opportunistic, same_ac}
use si_est_a_vr.Ap.Counts.{IsValid}
use si_est_a_vr.Ap.Aggregate.{Radio}

-- The first packet sent is lost, the others get through.
abbrev pub sample_radio : Radio
sample_radio = record {
  Seconds = ℕ;
  no_seconds = 0;
  airtime = λ lengths from to width. (1000 + length lengths, 7);
  at_limit = λ time txop. false;
  to_duration = λ time. time;
  coords_queue = 0;
  loses = λ rng. (rng == 1, rng + 1);
}

abbrev pub packet : ℕ → ℕ → ℕ → MpduPacket
packet id src dest = record {
  packet_id = id;
  length_packet_bits = 12000;
  queue_in_instant = 0;
  queue_out_instant = 0;
  t_q = 0;
  t_s = 0;
  sta_src_id = src;
  sta_dest_id = dest;
  sta_src_coords = 0;
  queue_length_when_out = 0;
  header_alvr = 0;
  edca_ac = video;
  mac_key_cached = none;
  assigned_link_id = none;
}

abbrev pub contender : MacKey → DcfStats
contender key = record {
  mac_key = key;
  cw = 7;
  backoff_counter = 0;
  retry_count = 0;
  param = edca_table video;
  medium_free_since = 0;
  backoff_frozen = false;
  rng = 3;
  last_backoff_drawn_logs = 5;
}

abbrev pub free_medium : Medium
free_medium = record {
  busy_until = 0;
  nav_until = 0;
  tx_owner = none;
  last_txop_owner = none;
  last_txop_end = 0;
  max_busy_reached = 0;
}

-- Downwards two packets for station 4 on two links and one for station 5 between them, with an id
-- that is used twice; upwards two packets of station 4.
abbrev pub loaded : QueueModule
loaded = record {
  deques =
      ((ap_id, video, 0), packet 7 1 4 ∷ packet 7 1 5 ∷ [])
      ∷ ((ap_id, video, 1), packet 8 1 4 ∷ [])
      ∷ ((4, video, 0), packet 1 4 1 ∷ packet 2 4 1 ∷ [])
      ∷ ((4, video, 1), [])
      ∷ [];
  dcf_values = contender (ap_id, video, 0) ∷ contender (4, video, 0) ∷ [];
  link_mediums = (0, free_medium) ∷ (1, free_medium) ∷ [];
  link_channel_widths = (0, 80) ∷ (1, 40) ∷ [];
  link_queue_depths = (0, 4) ∷ (1, 1) ∷ [];
  link_is_transmitting = (0, false) ∷ (1, false) ∷ [];
  sta_capabilities = [];
  sta_coords_map = (4, 9) ∷ [];
  active_mac_key_counts = λ sta ac.
      if sta == ap_id && same_ac ac video
      then 3
      else (if sta == 4 && same_ac ac video then 2 else 0);
  sta_stats_cache = [];
  arrived_packet_counter = 5;
  blocked_packet_counter = 0;
  queue_length_counter = 0;
  queue_maxsize_dl = 8192;
  ul_capacity_queue_device = 1024;
  packs_per_ampdu = 64;
  mlo_linkselection_strat = opportunistic;
  slot_tick_pending = false;
  ampdu_id = 0;
  rng = 1;
  link_rng = 2;
  scheduled = [];
}

pub loaded-IsValid : IsValid loaded
unfolding ac_prio
loaded-IsValid = record {
  counted = λ sta ac. ground arith;
  placed = (
    (((refl, refl), ((refl, refl), tt)), omega arith),
    (
      (((refl, refl), tt), omega arith),
      ((((refl, refl), ((refl, refl), tt)), omega arith), ((tt, omega arith), tt)),
    ),
  );
}
