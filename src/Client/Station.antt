-- ===== src/Client/Station.antt =====
-- `STA_extended` (models_XR.rs): the Wi-Fi station of a headset or a server, and of background traffic.
-- A handler gives the new state and the events that it schedules, each with its delay in nanoseconds.
-- The draws of the generator (`gen::<bool>`, and the exponential distribution of lib/mod.rs in `f64`)
-- are a parameter. The movement, the coordinates' ports and the location events are left out.
use si_est_a_vr.Common.{
  ℕ, ◌+◌, max, Bool, ◌&&◌, ◌==◌, if◌then◌else◌, none, List, [], ◌∷◌, ◌++◌, length,
}
use si_est_a_vr.Mac.Edca.{best_effort}
use si_est_a_vr.Ap.Packets.{MpduPacket}
use si_est_a_vr.Ap.State.{AmpduPacket}

-- `gen_bool`, and the time to the next packet in nanoseconds, each with the generator's next state;
-- and the mean length as a number of bits.
pub record Traffic : Type 0 where
  pub gen_bool : ℕ → Bool × ℕ
  pub interarrival : ℕ → ℕ × ℕ
  pub mean_length : ℕ

pub record Station : Type 0 where
  pub sta_id : ℕ
  pub destination_id : ℕ
  pub num_packets_sent : ℕ
  pub received_packet_counter : ℕ
  pub sta_coordinates : ℕ
  pub does_sta_tx : Bool
  pub is_bg_sta : Bool
  pub is_ul_bg : ℕ
  pub random_seed : ℕ

pub data Event : Type 0 where
  send_packet_wireless_event : ℕ → MpduPacket → Event
  to_app_socket_send_event : ℕ → List MpduPacket → ℕ → Event
  send_packet_bg_event : ℕ → Event

-- `MpduPacket::new`.
abbrev pub new_packet : MpduPacket
new_packet = record {
  packet_id = 0;
  length_packet_bits = 0;
  queue_in_instant = 0;
  queue_out_instant = 0;
  t_q = 0;
  t_s = 0;
  sta_src_id = 0;
  sta_dest_id = 0;
  sta_src_coords = 0;
  queue_length_when_out = 0;
  header_alvr = 0;
  edca_ac = best_effort;
  mac_key_cached = none;
  assigned_link_id = none;
}

unfoldable pub input_xr_app : MpduPacket → Station → Station × List Event
input_xr_app p s = (
  record s { num_packets_sent = s.num_packets_sent + 1 },
  send_packet_wireless_event 10 (record p {
    packet_id = s.num_packets_sent;
    sta_src_id = s.sta_id;
    sta_dest_id = s.destination_id;
    sta_src_coords = s.sta_coordinates;
  })
      ∷ [],
)

-- To the application in one batch, if there is any packet.
abbrev pub hand_over : ℕ → List MpduPacket → List Event
hand_over now [] = []
hand_over now (p ∷ ps) = to_app_socket_send_event 10 (p ∷ ps) now ∷ []

unfoldable pub input_wireless : AmpduPacket → ℕ → Station → Station × List Event
input_wireless ampdu now s =
    if ampdu.sta_dest_id == s.sta_id
    then (
      record s { received_packet_counter = s.received_packet_counter + length ampdu.mpdu_packets },
      hand_over now ampdu.mpdu_packets,
    )
    else (s, [])

module _ (traffic : Traffic) where
  -- The packet of one source and destination, and the next one's time.
  unfoldable pub send_bg : ℕ → ℕ → Station → Station × List Event
  send_bg src dest s =
      let (delay, seed) = traffic.interarrival s.random_seed in
      (
        record s { num_packets_sent = s.num_packets_sent + 1; random_seed = seed },
        send_packet_wireless_event 10 (record new_packet {
          length_packet_bits = max 1 traffic.mean_length;
          packet_id = s.num_packets_sent;
          sta_src_id = src;
          sta_dest_id = dest;
          sta_src_coords = s.sta_coordinates;
        })
            ∷ send_packet_bg_event (max delay 1)
            ∷ [],
      )

  -- The three modes; another one stops.
  unfoldable pub send_packet_bg : Station → Station × List Event
  send_packet_bg s =
      let (up, seed) = traffic.gen_bool s.random_seed in
      let s' : Station = record s { random_seed = seed } in
      if s.does_sta_tx && s.is_bg_sta
      then (if s.is_ul_bg == 0
          then send_bg s.sta_id s.destination_id s
          else (if s.is_ul_bg == 1
              then send_bg s.destination_id s.sta_id s
              else (if s.is_ul_bg == 2
                  then (if up
                      then send_bg s.destination_id s.sta_id s'
                      else send_bg s.sta_id s.destination_id s')
                  else (s, []))))
      else (s, [])

  -- What comes to a station: a packet of its application, an A-MPDU on the air at an instant, or the
  -- time of a background packet.
  pub data Input : Type 0 where
    app_input : MpduPacket → Input
    wireless_input : AmpduPacket → ℕ → Input
    bg_input : Input

  abbrev pub handle : Input → Station → Station × List Event
  handle (app_input p) s = input_xr_app p s
  handle (wireless_input ampdu now) s = input_wireless ampdu now s
  handle bg_input s = send_packet_bg s

  abbrev pub handle_all : List Input → Station → Station × List Event
  handle_all [] s = (s, [])
  handle_all (i ∷ is) s =
      let (s', now) = handle i s in let (s'', later) = handle_all is s' in (s'', now ++ later)

abbrev pub packets_out : List Event → List MpduPacket
packets_out [] = []
packets_out (send_packet_wireless_event delay p ∷ es) = p ∷ packets_out es
packets_out (to_app_socket_send_event delay ps now ∷ es) = packets_out es
packets_out (send_packet_bg_event delay ∷ es) = packets_out es

abbrev pub packets_in : List Event → List MpduPacket
packets_in [] = []
packets_in (send_packet_wireless_event delay p ∷ es) = packets_in es
packets_in (to_app_socket_send_event delay ps now ∷ es) = ps ++ packets_in es
packets_in (send_packet_bg_event delay ∷ es) = packets_in es
