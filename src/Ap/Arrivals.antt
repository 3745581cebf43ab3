-- ===== src/Ap/Arrivals.antt =====
-- Packets that come in, from the choice of a link to the queue (models_mm1k.rs, `input` and
-- `input_UL`).
use si_est_a_vr.Common.{ℕ, ◌==◌, ◌+◌, ◌≡◌, true, false, some, List, ◌∷◌, lookup, ok}
use si_est_a_vr.Ap.Packets.{MpduPacket, is_ul, ap_id}
use si_est_a_vr.Ap.State.{QueueModule, packets_queued}
use si_est_a_vr.Ap.Selection.{OneOf}
use si_est_a_vr.Ap.Strategies.{select_link_for_packet_lem}
use si_est_a_vr.Ap.Links.{Coin, select_link_for_packet}
use si_est_a_vr.Ap.Input.{input, input_ul}
use si_est_a_vr.Ap.Counts.{IsValid}
use si_est_a_vr.Ap.Handled.{
  Served, Served-OneOf, Handled, accepted, dropped, stamped, input_on_lem, input_ul_on_lem,
}

module _ (flip : Coin) where
  -- A packet downwards, for a registered station whose links have a width and a queue of the access
  -- point, is handled without a panic, from a sound state to a sound state. On one of the station's
  -- links it either fits the downlink's limit, is stamped and put behind the others, and leaves a
  -- tick pending if it is the first there and some link is free; or the queue is full, no queue
  -- changes and one more packet is counted as blocked.
  pub input_lem :
      (pkt : MpduPacket) (now l : ℕ) (ls : List ℕ) (q : QueueModule)
      → IsValid q
      → is_ul pkt ≡ false
      → lookup pkt.sta_dest_id q.sta_capabilities ≡ some (l ∷ ls)
      → Served ap_id pkt.edca_ac (l ∷ ls) q
      → (link : ℕ) × OneOf link (l ∷ ls)
        × (q' : QueueModule) × (input flip pkt now q ≡ ok q')
        × IsValid q'
        × Handled
            (stamped pkt now (ap_id, pkt.edca_ac, link))
            (ap_id, pkt.edca_ac, link)
            q.queue_maxsize_dl
            1
            q
            q'
  unfolding input
  input_lem pkt now l ls q valid down registered served =
      let pkt' : MpduPacket = record pkt { queue_in_instant = now } in
      let counted : QueueModule = record q {
        arrived_packet_counter = q.arrived_packet_counter + 1;
      } in
      let (link, selected, one) =
        select_link_for_packet_lem flip pkt' l ls now counted (rw down registered) in
      let ((width, wide), (waiting, found)) =
        Served-OneOf ap_id pkt.edca_ac link (l ∷ ls) q one served in
      let chosen : QueueModule = record counted {
        link_rng = (select_link_for_packet flip pkt' now counted).1;
      } in
      let (q', result, valid', handled) =
        input_on_lem pkt' link width waiting chosen
          (record { counted = valid.counted; placed = valid.placed }) down wide found in
      (
        link,
        one,
        q',
        rw (down, selected) result,
        valid',
        elim handled [
          | accepted waiting there fits stored blocked wakes ↦
              accepted waiting there fits stored blocked wakes
          | dropped waiting there full same blocked ↦ dropped waiting there full same blocked
        ],
      )

  -- A packet upwards, from a registered station other than the access point whose links have a width
  -- and a queue, is handled in the same way within the device's limit; but one that finds the queue
  -- full is not counted as blocked.
  pub input_ul_lem :
      (pkt : MpduPacket) (now l : ℕ) (ls : List ℕ) (q : QueueModule)
      → IsValid q
      → is_ul pkt ≡ true
      → (pkt.sta_src_id == ap_id) ≡ false
      → lookup pkt.sta_src_id q.sta_capabilities ≡ some (l ∷ ls)
      → Served pkt.sta_src_id pkt.edca_ac (l ∷ ls) q
      → (link : ℕ) × OneOf link (l ∷ ls)
        × (q' : QueueModule) × (input_ul flip pkt now q ≡ ok q')
        × IsValid q'
        × Handled
            (stamped pkt now (pkt.sta_src_id, pkt.edca_ac, link))
            (pkt.sta_src_id, pkt.edca_ac, link)
            q.ul_capacity_queue_device
            0
            q
            q'
  unfolding input_ul
  input_ul_lem pkt now l ls q valid up station registered served =
      let counted : QueueModule = record q {
        arrived_packet_counter = q.arrived_packet_counter + 1;
        queue_length_counter = q.queue_length_counter + packets_queued q.deques;
      } in
      let (link, selected, one) =
        select_link_for_packet_lem flip pkt l ls now counted (rw up registered) in
      let ((width, wide), (waiting, found)) =
        Served-OneOf pkt.sta_src_id pkt.edca_ac link (l ∷ ls) q one served in
      let chosen : QueueModule = record counted {
        link_rng = (select_link_for_packet flip pkt now counted).1;
      } in
      let (q', result, valid', handled) =
        input_ul_on_lem pkt now link width waiting chosen
          (record { counted = valid.counted; placed = valid.placed }) up station wide found in
      (
        link,
        one,
        q',
        rw (up, selected) result,
        valid',
        elim handled [
          | accepted waiting there fits stored blocked wakes ↦
              accepted waiting there fits stored blocked wakes
          | dropped waiting there full same blocked ↦ dropped waiting there full same blocked
        ],
      )
