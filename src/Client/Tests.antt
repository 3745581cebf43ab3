-- ===== src/Client/Tests.antt =====
-- The theorems on the headset's side at concrete inputs.
use si_est_a_vr.Common.{ℕ, ◌+◌, ◌-◌, ◌≡◌, refl, true, List, [], ◌∷◌, ◌++◌, length, drop, arith}
use si_est_a_vr.Mac.Edca.{best_effort}
use si_est_a_vr.Ap.Packets.{ap_id}
use si_est_a_vr.Ap.State.{AmpduPacket}
use si_est_a_vr.Ap.Parts.{PartOf, Distinct}
use si_est_a_vr.Ap.Taken.{idents}
use si_est_a_vr.Ap.Returned.{same_packet_id}
use si_est_a_vr.Client.Queue.{new, push_all, push}
use si_est_a_vr.Client.Newest.{push_all-newest}
use si_est_a_vr.Client.Playback.{
  Playback, start, Event, frame_event, vsync_event, session_end_event, frames_of, received, play,
}
use si_est_a_vr.Client.InOrder.{play-PartOf, play-early}
use si_est_a_vr.Client.Station.{
  Traffic, Station, Input, app_input, wireless_input, bg_input, handle_all, packets_out, packets_in,
  new_packet,
}
use si_est_a_vr.Client.Numbered.{all_addressed, handle_all_lem}

abbrev five : List ℕ
five = 1 ∷ 2 ∷ 3 ∷ 4 ∷ 5 ∷ []

newest_three : (push_all five (new 3)).deque ≡ 3 ∷ 4 ∷ 5 ∷ []
unfolding push
newest_three = refl

push_all-newest_example : (push_all five (new 3)).deque ≡ drop (0 + 5 - 3) five
push_all-newest_example = push_all-newest five (new 3) (omega arith) (omega arith)

abbrev session : List Event
session =
    frame_event (1, 10 ∷ [])
    ∷ frame_event (2, 20 ∷ [])
    ∷ frame_event (3, 30 ∷ [])
    ∷ vsync_event
    ∷ frame_event (5, 50 ∷ [])
    ∷ vsync_event
    ∷ session_end_event
    ∷ vsync_event
    ∷ []

play-PartOf_example :
    PartOf
      (frames_of (play session start).0 ++ (play session start).1.decoder_queue.deque)
      (received session)
play-PartOf_example = play-PartOf session start

abbrev warming_up : List Event
warming_up = frame_event (1, 10 ∷ []) ∷ vsync_event ∷ frame_event (2, 20 ∷ []) ∷ vsync_event ∷ []

-- Warm, with one more frame waiting.
abbrev showing : Playback
showing = record start {
  decoder_queue = record start.decoder_queue { deque = (9, 90 ∷ []) ∷ [] };
  jitter_buffer_warmup_ready = true;
}

play-early_example :
    ((play warming_up start).0 ≡ []) × ((play (session_end_event ∷ warming_up) showing).0 ≡ [])
play-early_example = play-early warming_up showing (omega arith)

abbrev station : Station
station = record {
  sta_id = 4;
  destination_id = ap_id;
  num_packets_sent = 9;
  received_packet_counter = 0;
  sta_coordinates = 2;
  does_sta_tx = true;
  is_bg_sta = true;
  is_ul_bg = 0;
  random_seed = 1;
}

abbrev traffic : Traffic
traffic = record {
  gen_bool = λ n. (true, n + 1);
  interarrival = λ n. (n, n + 1);
  mean_length = 12000;
}

abbrev ampdu_for : ℕ → AmpduPacket
ampdu_for id = record {
  mpdu_packets = new_packet ∷ new_packet ∷ [];
  total_length = 0;
  sta_src_id = ap_id;
  sta_dest_id = id;
  size = 2;
  mac_key = (ap_id, best_effort, 1);
  link_id = 1;
  mcs_assigned = 0;
}

abbrev inputs : List (Input traffic)
inputs =
    app_input new_packet
    ∷ bg_input
    ∷ wireless_input (ampdu_for 5) 100
    ∷ wireless_input (ampdu_for 4) 200
    ∷ []

handle_all_lem_example :
    Distinct same_packet_id (idents (packets_out (handle_all traffic inputs station).1))
    × (packets_in (handle_all traffic inputs station).1 ≡ all_addressed traffic 4 inputs)
    × ((handle_all traffic inputs station).0.received_packet_counter
        ≡ 0 + length (all_addressed traffic 4 inputs))
handle_all_lem_example = handle_all_lem traffic inputs station
