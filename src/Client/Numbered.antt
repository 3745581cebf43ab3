-- ===== src/Client/Numbered.antt =====
-- What a station sends and what it hands over (models_XR.rs, `STA_extended`).
use mathlib.Core.List.{append-nil, append_assoc}
use si_est_a_vr.Common.{
  ℕ, ◌+◌, ◌<◌, suc, ◌&&◌, ◌==◌, ◌≡◌, refl, sym, ap, ◌∙◌, false, if◌then◌else◌, List, [], ◌∷◌, ◌++◌,
  length, arith, if_elim, length-append, Bool-cases, inl, inr,
}
use si_est_a_vr.Ap.Packets.{MpduPacket}
use si_est_a_vr.Ap.Parts.{has, Distinct}
use si_est_a_vr.Ap.Taken.{Ident, ident, idents}
use si_est_a_vr.Ap.Returned.{same_packet_id}
use si_est_a_vr.Client.Station.{
  Traffic, Station, hand_over, Event, send_packet_wireless_event, to_app_socket_send_event,
  send_packet_bg_event, input_xr_app, input_wireless, send_bg, send_packet_bg, Input, app_input,
  wireless_input, bg_input, handle, handle_all, packets_out, packets_in,
}

-- The ids are those from a number on, one by one.
abbrev Numbered : ℕ → List MpduPacket → Type 0
Numbered n [] = Unit
Numbered n (p ∷ ps) = (p.packet_id ≡ n) × Numbered (n + 1) ps

-- What one handler did.
record Sent (ours : List MpduPacket) (s : Station) (r : Station × List Event) : Type 0 where
  numbered : Numbered s.num_packets_sent (packets_out r.1)
  counted : r.0.num_packets_sent ≡ s.num_packets_sent + length (packets_out r.1)
  received : r.0.received_packet_counter ≡ s.received_packet_counter + length (packets_in r.1)
  handed_over : packets_in r.1 ≡ ours
  same_id : r.0.sta_id ≡ s.sta_id

out_of_batch : (now : ℕ) (ps : List MpduPacket) → packets_out (hand_over now ps) ≡ []
out_of_batch now [] = refl
out_of_batch now (p ∷ ps) = refl

in_of_batch : (now : ℕ) (ps : List MpduPacket) → packets_in (hand_over now ps) ≡ ps
in_of_batch now [] = refl
in_of_batch now (p ∷ ps) = append-nil (p ∷ ps)

packets_out-append :
    (es fs : List Event) → packets_out (es ++ fs) ≡ packets_out es ++ packets_out fs
packets_out-append [] fs = refl
packets_out-append (send_packet_wireless_event delay p ∷ es) fs =
    ap (◌∷◌ p) (packets_out-append es fs)
packets_out-append (to_app_socket_send_event delay ps now ∷ es) fs = packets_out-append es fs
packets_out-append (send_packet_bg_event delay ∷ es) fs = packets_out-append es fs

packets_in-append : (es fs : List Event) → packets_in (es ++ fs) ≡ packets_in es ++ packets_in fs
packets_in-append [] fs = refl
packets_in-append (send_packet_wireless_event delay p ∷ es) fs = packets_in-append es fs
packets_in-append (to_app_socket_send_event delay ps now ∷ es) fs =
    ap (λ xs. ps ++ xs) (packets_in-append es fs)
    ∙ sym (append_assoc ps (packets_in es) (packets_in fs))
packets_in-append (send_packet_bg_event delay ∷ es) fs = packets_in-append es fs

Numbered-append :
    (n : ℕ) (ps qs : List MpduPacket)
    → Numbered n ps
    → Numbered (n + length ps) qs
    → Numbered n (ps ++ qs)
Numbered-append n [] qs h k = let e : n + 0 ≡ n = omega arith in rw e at k
Numbered-append n (p ∷ ps) qs h k =
    let e : n + suc (length ps) ≡ n + 1 + length ps = omega arith in
    (h.0, Numbered-append (n + 1) ps qs h.1 (rw e at k))

-- A later number is a new one.
Numbered-has :
    (m : ℕ) (ps : List MpduPacket) (i : Ident)
    → Numbered m ps
    → i.0 < m
    → has same_packet_id i (idents ps) ≡ false
Numbered-has m [] i h less = refl
Numbered-has m (p ∷ ps) i h less =
    ground (arith, h.0, less, Numbered-has (m + 1) ps i h.1 (omega (arith, less)))

Numbered-Distinct :
    (n : ℕ) (ps : List MpduPacket) → Numbered n ps → Distinct same_packet_id (idents ps)
Numbered-Distinct n [] h = tt
Numbered-Distinct n (p ∷ ps) h =
    (Numbered-has (n + 1) ps (ident p) h.1 (omega (arith, h.0)), Numbered-Distinct (n + 1) ps h.1)

module _ (traffic : Traffic) where
  -- The packets of an A-MPDU for the station.
  abbrev pub addressed : ℕ → Input traffic → List MpduPacket
  addressed id (app_input p) = []
  addressed id (wireless_input ampdu now) =
      if ampdu.sta_dest_id == id then ampdu.mpdu_packets else []
  addressed id bg_input = []

  abbrev pub all_addressed : ℕ → List (Input traffic) → List MpduPacket
  all_addressed id [] = []
  all_addressed id (i ∷ is) = addressed id i ++ all_addressed id is

  send_bg-Sent :
      (src dest seed : ℕ) (s : Station)
      → Sent [] s (send_bg traffic src dest (record s { random_seed = seed }))
  unfolding send_bg
  send_bg-Sent src dest seed s = record {
    numbered = (refl, tt);
    counted = omega arith;
    received = omega arith;
    handed_over = refl;
    same_id = refl;
  }

  nothing-Sent : (s : Station) → Sent [] s (s, [])
  nothing-Sent s = record {
    numbered = tt;
    counted = omega arith;
    received = omega arith;
    handed_over = refl;
    same_id = refl;
  }

  handle-Sent :
      (i : Input traffic) (s : Station) → Sent (addressed s.sta_id i) s (handle traffic i s)
  unfolding input_xr_app input_wireless send_packet_bg
  handle-Sent (app_input p) s = record {
    numbered = (refl, tt);
    counted = omega arith;
    received = omega arith;
    handed_over = refl;
    same_id = refl;
  }
  handle-Sent (wireless_input ampdu now) s =
      let none_out = out_of_batch now ampdu.mpdu_packets in
      elim (Bool-cases (ampdu.sta_dest_id == s.sta_id)) [
        | inl e ↦ rw e (record {
          numbered = rw none_out tt;
          counted = rw none_out (omega arith);
          received = rw (in_of_batch now ampdu.mpdu_packets) refl;
          handed_over = in_of_batch now ampdu.mpdu_packets;
          same_id = refl;
        })
        | inr e ↦ rw e (nothing-Sent s)
      ]
  handle-Sent bg_input s =
      let seed = (traffic.gen_bool s.random_seed).1 in
      if_elim (Sent [] s) (s.does_sta_tx && s.is_bg_sta)
        (λ on.
          if_elim (Sent [] s) (s.is_ul_bg == 0)
            (λ e. send_bg-Sent s.sta_id s.destination_id s.random_seed s)
            (λ e.
              if_elim (Sent [] s) (s.is_ul_bg == 1)
                (λ e'. send_bg-Sent s.destination_id s.sta_id s.random_seed s)
                (λ e'.
                  if_elim (Sent [] s) (s.is_ul_bg == 2)
                    (λ e''.
                      if_elim (Sent [] s) (traffic.gen_bool s.random_seed).0
                        (λ up. send_bg-Sent s.destination_id s.sta_id seed s)
                        (λ down. send_bg-Sent s.sta_id s.destination_id seed s))
                    (λ e''. nothing-Sent s))))
        (λ off. nothing-Sent s)

  handle_all-Sent :
      (is : List (Input traffic)) (s : Station)
      → Sent (all_addressed s.sta_id is) s (handle_all traffic is s)
  handle_all-Sent [] s = nothing-Sent s
  handle_all-Sent (i ∷ is) s =
      let r = handle traffic i s in
      let now = handle-Sent i s in
      let later = handle_all-Sent is r.0 in
      let after = handle_all traffic is r.0 in
      let out = packets_out-append r.1 after.1 in
      let taken = packets_in-append r.1 after.1 in
      record {
        numbered = rw out (
            Numbered-append s.num_packets_sent (packets_out r.1) (packets_out after.1) now.numbered
              (rw (sym now.counted) later.numbered));
        counted = rw out (
            omega (
              arith,
              now.counted,
              later.counted,
              length-append {0} (packets_out r.1) (packets_out after.1),
            ));
        received = rw taken (
            omega (
              arith,
              now.received,
              later.received,
              length-append {0} (packets_in r.1) (packets_in after.1),
            ));
        handed_over =
            taken
            ∙ ap (λ ps. ps ++ packets_in after.1) now.handed_over
            ∙ ap (λ ps. addressed s.sta_id i ++ ps)
                (later.handed_over ∙ ap (λ id. all_addressed id is) now.same_id);
        same_id = later.same_id ∙ now.same_id;
      }

  -- Whatever comes to a station, no two packets that it sends have the same id, and it hands over to
  -- its application exactly the packets of the A-MPDUs for it, in their order, and counts them.
  pub handle_all_lem :
      (is : List (Input traffic)) (s : Station)
      → Distinct same_packet_id (idents (packets_out (handle_all traffic is s).1))
        × (packets_in (handle_all traffic is s).1 ≡ all_addressed s.sta_id is)
        × ((handle_all traffic is s).0.received_packet_counter
            ≡ s.received_packet_counter + length (all_addressed s.sta_id is))
  handle_all_lem is s =
      let h = handle_all-Sent is s in
      (
        Numbered-Distinct s.num_packets_sent (packets_out (handle_all traffic is s).1) h.numbered,
        h.handed_over,
        h.received ∙ ap (λ ps. s.received_packet_counter + length ps) h.handed_over,
      )
