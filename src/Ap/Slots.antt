-- ===== src/Ap/Slots.antt =====
-- The theorems on the slots of an access point at concrete inputs.
use si_est_a_vr.Common.{◌+◌, ◌≡◌, refl, false, [], ◌∷◌, ok, arith, true, List, ◌/◌, some, lookup}
use si_est_a_vr.Mac.Edca.{MacKey, video, edca_table, ac_prio}
use si_est_a_vr.Mac.Backoff.{DcfStats, Draw}
use si_est_a_vr.Mac.Backoff
use si_est_a_vr.Ap.Packets.{ap_id}
use si_est_a_vr.Ap.State.{QueueModule, AmpduPacket}
use si_est_a_vr.Ap.Samples.{sample_radio, packet, contender, loaded, loaded-IsValid}
use si_est_a_vr.Ap.State.{all_deques_empty, deque_schedule_event}
use si_est_a_vr.Ap.Overflow.{drop_overflow}
use si_est_a_vr.Ap.Blocked.{IsCounted, accounted, drop_overflow-IsCounted}
use si_est_a_vr.Ap.Service.{collide, send_ampdu}
use si_est_a_vr.Mac.Failures.{AllSound}
use si_est_a_vr.Ap.Turn.{Served}
use si_est_a_vr.Ap.Ends.{AllFrozen, collide_lem, send_ampdu_lem}

abbrev half_draw : Draw
half_draw = record {
  draw = λ state bound. (bound / 2, state + 1);
  draw_le = λ state bound. omega arith;
}

-- Three packets of the flow to station 4 are counted where one is allowed.
abbrev flooded : QueueModule
flooded = record loaded { queue_maxsize_dl = 1; sta_stats_cache = ((1, 4), 3) ∷ [] }

drop_overflow-IsCounted_example :
    IsCounted (drop_overflow flooded) × (accounted (drop_overflow flooded) ≡ accounted flooded)
drop_overflow-IsCounted_example =
    drop_overflow-IsCounted flooded (λ sta ac. loaded-IsValid.counted sta ac)

contender-IsValid : (key : MacKey) → Backoff.IsValid (contender key)
unfolding edca_table
contender-IsValid key = record {
  cw_ge = omega arith;
  cw_le = omega arith;
  counter_le = omega arith;
  drawn_le = omega arith;
  retries_le = omega arith;
}

contenders-AllSound : AllSound loaded.dcf_values
contenders-AllSound = (contender-IsValid (ap_id, video, 0), (contender-IsValid (4, video, 0), tt))

collide_example :
    (q' : QueueModule) × (collide sample_radio half_draw 2000 50000 0
        ((ap_id, video, 0) ∷ (4, video, 0) ∷ [])
        loaded
      ≡ ok q')
    × AllFrozen 0 52000 q'.dcf_values
    × AllSound q'.dcf_values
    × (q'.slot_tick_pending ≡ true)
    × (q'.scheduled ≡ deque_schedule_event 2000 ∷ [])
    × (q'.deques ≡ loaded.deques)
    × (q'.active_mac_key_counts ≡ loaded.active_mac_key_counts)
unfolding ac_prio
collide_example =
    collide_lem sample_radio half_draw 2000 50000 0 ((ap_id, video, 0) ∷ (4, video, 0) ∷ []) loaded
      (refl, (refl, tt)) contenders-AllSound

abbrev on_air : AmpduPacket
on_air = record {
  mpdu_packets = packet 7 1 4 ∷ [];
  total_length = 12000;
  sta_src_id = 1;
  sta_dest_id = 4;
  size = 1;
  mac_key = (ap_id, video, 0);
  link_id = 0;
  mcs_assigned = 7;
}

send_ampdu_example :
    (sent : List AmpduPacket) × (q' : QueueModule) × (send_ampdu sample_radio half_draw 2000 on_air
        60000 loaded
      ≡ ok (sent, q'))
    × (q'.deques ≡ loaded.deques)
    × (q'.active_mac_key_counts ≡ loaded.active_mac_key_counts)
    × (lookup 0 q'.link_is_transmitting ≡ some false)
    × AllSound q'.dcf_values
    × (all_deques_empty loaded.deques ≡ false → q'.slot_tick_pending ≡ true)
unfolding ac_prio
send_ampdu_example =
    send_ampdu_lem sample_radio half_draw 2000 on_air 60000 loaded refl contenders-AllSound

abbrev downlink : List MacKey
downlink = (ap_id, video, 0) ∷ []
