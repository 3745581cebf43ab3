-- ===== src/Ap/Tests.antt =====
-- The theorems on the access point at concrete inputs.
use si_est_a_vr.Common.{
  ℕ, ◌≡◌, refl, true, false, none, some, [], ◌∷◌, ok, arith, ◌+◌, ◌&&◌, ◌==◌, if◌then◌else◌,
}
use si_est_a_vr.Mac.Edca.{video, ac_prio}
use si_est_a_vr.Mac.Medium.{Medium}
use si_est_a_vr.Ap.Packets.{MpduPacket, ap_id}
use si_est_a_vr.Ap.State.{QueueModule, lyapunov_backpressure, get_link_queue_depth, same_ac}
use si_est_a_vr.Ap.Links.{Coin, select_mlo_channel_lyapunov_backpressure, select_link_for_packet}
use si_est_a_vr.Ap.Selection.{OneOf, Deeper, lyapunov_lem}
use si_est_a_vr.Ap.Strategies.{select_link_for_packet_lem}
use si_est_a_vr.Ap.Input.{input, input_ul}
use si_est_a_vr.Ap.Counts.{IsValid}
use si_est_a_vr.Ap.Handled.{Handled, stamped}
use si_est_a_vr.Ap.Arrivals.{input_lem, input_ul_lem}

abbrev heads : Coin
heads rng = (true, rng + 1)

abbrev frame : MpduPacket
frame = record {
  packet_id = 7;
  length_packet_bits = 12000;
  queue_in_instant = 0;
  queue_out_instant = 0;
  t_q = 0;
  t_s = 0;
  sta_src_id = 1;
  sta_dest_id = 4;
  sta_src_coords = 0;
  queue_length_when_out = 0;
  header_alvr = 0;
  edca_ac = video;
  mac_key_cached = none;
  assigned_link_id = none;
}

-- The answer of the station.
abbrev report : MpduPacket
report = record frame { sta_src_id = 4; sta_dest_id = 1 }

abbrev busy_medium : Medium
busy_medium = record {
  busy_until = 90000;
  nav_until = 0;
  tx_owner = none;
  last_txop_owner = none;
  last_txop_end = 0;
  max_busy_reached = 90000;
}

-- Two links, one packet downwards on the first, and a station that uses both.
abbrev sample : QueueModule
sample = record {
  deques =
      ((ap_id, video, 0), frame ∷ [])
      ∷ ((ap_id, video, 1), [])
      ∷ ((4, video, 0), [])
      ∷ ((4, video, 1), [])
      ∷ [];
  dcf_values = [];
  link_mediums = (0, busy_medium) ∷ (1, record busy_medium { busy_until = 0 }) ∷ [];
  link_channel_widths = (0, 80) ∷ (1, 40) ∷ [];
  link_queue_depths = (0, 1) ∷ (1, 0) ∷ [];
  link_is_transmitting = (0, true) ∷ (1, false) ∷ [];
  sta_capabilities = (4, 0 ∷ 1 ∷ []) ∷ [];
  sta_coords_map = (4, 9) ∷ [];
  active_mac_key_counts = λ sta ac. if sta == ap_id && same_ac ac video then 1 else 0;
  sta_stats_cache = ((1, 4), 1) ∷ [];
  arrived_packet_counter = 1;
  blocked_packet_counter = 0;
  queue_length_counter = 0;
  queue_maxsize_dl = 8192;
  ul_capacity_queue_device = 1024;
  packs_per_ampdu = 64;
  mlo_linkselection_strat = lyapunov_backpressure;
  slot_tick_pending = false;
  ampdu_id = 0;
  rng = 1;
  link_rng = 2;
  scheduled = [];
}

sample-IsValid : IsValid sample
unfolding ac_prio
sample-IsValid = record {
  counted = λ sta ac. ground arith;
  placed = (
    (((refl, refl), tt), omega arith),
    ((tt, omega arith), ((tt, omega arith), ((tt, omega arith), tt))),
  );
}

lyapunov_example :
    (link : ℕ) × (select_mlo_channel_lyapunov_backpressure (0 ∷ 1 ∷ []) sample ≡ some link)
    × OneOf link (0 ∷ 1 ∷ [])
    × Deeper (get_link_queue_depth link sample) (0 ∷ 1 ∷ []) sample
unfolding get_link_queue_depth
lyapunov_example = lyapunov_lem 0 (1 ∷ []) sample (omega arith, (omega arith, tt))

select_link_for_packet_example :
    (link : ℕ) × ((select_link_for_packet heads frame 50000 sample).0 ≡ some link)
    × OneOf link (0 ∷ 1 ∷ [])
select_link_for_packet_example = select_link_for_packet_lem heads frame 0 (1 ∷ []) 50000 sample refl

input_example :
    (link : ℕ) × OneOf link (0 ∷ 1 ∷ [])
    × (q' : QueueModule) × (input heads frame 50000 sample ≡ ok q')
    × IsValid q'
    × Handled (stamped frame 50000 (ap_id, video, link)) (ap_id, video, link) 8192 1 sample q'
unfolding ac_prio
input_example =
    input_lem heads frame 50000 0 (1 ∷ []) sample sample-IsValid refl refl
      ((80, refl), (frame ∷ [], refl), ((40, refl), ([], refl), tt))

input_ul_example :
    (link : ℕ) × OneOf link (0 ∷ 1 ∷ [])
    × (q' : QueueModule) × (input_ul heads report 50000 sample ≡ ok q')
    × IsValid q'
    × Handled (stamped report 50000 (4, video, link)) (4, video, link) 1024 0 sample q'
unfolding ac_prio
input_ul_example =
    input_ul_lem heads report 50000 0 (1 ∷ []) sample sample-IsValid refl refl refl
      ((80, refl), ([], refl), ((40, refl), ([], refl), tt))
