-- ===== src/Ap/Input.antt =====
-- Packets that come in (models_mm1k.rs, `cache_input_packet`, `input` and `input_UL`). The airtime
-- statistics of the first function, in `f64`, are left out: what it looks up for them is kept, since
-- a missing link or key panics. The log and the viewer's events are left out.
use si_est_a_vr.Common.{
  ℕ, ◌+◌, ◌==◌, Bool, not, ◌&&◌, ltb, if◌then◌else◌, Option, none, some, [], ◌∷◌, ◌++◌, length,
  Outcome, ok, ◌>>=◌, lookup, insert,
}
use si_est_a_vr.Mac.Edca.{EdcaAc, MacKey}
use si_est_a_vr.Mac.Tick.{NoError}
use si_est_a_vr.Ap.Packets.{MpduPacket, is_ul, signed_gt, ap_id, assign_link, str_plus_mode_mlo}
use si_est_a_vr.Ap.State.{
  QueueModule, deque_at, set_deque, packets_queued, need, schedule_tick, get_link_queue_depth,
  count_one, count_flow, any_link_idle,
}
use si_est_a_vr.Ap.Links.{Coin, select_link_for_packet}

-- The key under which a flow's packets wait: downwards the access point's own.
abbrev pub key_of : ℕ → ℕ → EdcaAc → ℕ → MacKey
key_of src dest ac link = if signed_gt src dest then (src, ac, link) else (ap_id, ac, link)

unfoldable pub cache_input_packet : ℕ → ℕ → EdcaAc → ℕ → QueueModule → Outcome NoError QueueModule
cache_input_packet src dest ac link q = do
  width ← need (lookup link q.link_channel_widths)
  dcf ← need (deque_at (key_of src dest ac link) q.deques)
  ok (record q { sta_stats_cache = count_flow src dest q.sta_stats_cache })

-- Whether a link is free for the packet: any link in the STR+ mode, else the packet's own.
abbrev pub link_free : ℕ → QueueModule → Outcome NoError Bool
link_free link q =
    if str_plus_mode_mlo
    then ok (any_link_idle q.link_is_transmitting)
    else need (lookup link q.link_is_transmitting) >>= (λ tx. ok (not tx))

-- What both directions do with a packet that fits: `depth` packets wait under its key already.
unfoldable pub admit : MpduPacket → MacKey → ℕ → QueueModule → Outcome NoError QueueModule
admit pkt (sta, ac, link) depth q = do
  q1 ← cache_input_packet pkt.sta_src_id pkt.sta_dest_id ac link q
  let q2 = record q1 {
    link_queue_depths = insert link (get_link_queue_depth link q1 + 1) q1.link_queue_depths;
    active_mac_key_counts = count_one sta ac q1.active_mac_key_counts;
  }
  free ← link_free link q2
  waiting ← need (deque_at (sta, ac, link) q2.deques)
  let q3 = record q2 { deques = set_deque (sta, ac, link) (waiting ++ pkt ∷ []) q2.deques }
  ok (if depth + 1 == 1 && free then schedule_tick q3 else q3)

abbrev pub block : QueueModule → QueueModule
block q = record q { blocked_packet_counter = q.blocked_packet_counter + 1 }

-- A packet downwards, once its link is chosen.
unfoldable pub input_on : MpduPacket → Option ℕ → QueueModule → Outcome NoError QueueModule
input_on pkt none q = ok (block q)
input_on pkt (some link) q = do
  assigned ← assign_link link pkt
  let key : MacKey = (ap_id, pkt.edca_ac, link)
  waiting ← need (deque_at key q.deques)
  if ltb (length waiting) q.queue_maxsize_dl
      then admit (record assigned { mac_key_cached = some key }) key (length waiting) q
      else ok (block q)

-- A packet upwards. One that does not fit is dropped without being counted as blocked.
unfoldable pub input_ul_on : MpduPacket → ℕ → Option ℕ → QueueModule → Outcome NoError QueueModule
input_ul_on pkt now none q = ok (block q)
input_ul_on pkt now (some link) q = do
  assigned ← assign_link link pkt
  let key : MacKey = (pkt.sta_src_id, pkt.edca_ac, link)
  waiting ← need (deque_at key q.deques)
  if ltb (length waiting) q.ul_capacity_queue_device
      then admit (record assigned { mac_key_cached = some key; queue_in_instant = now }) key
          (length waiting) q
      else ok q

module _ (flip : Coin) where
  unfoldable pub input : MpduPacket → ℕ → QueueModule → Outcome NoError QueueModule
  input pkt now q =
      let pkt' = record pkt { queue_in_instant = now } in
      let counted = record q { arrived_packet_counter = q.arrived_packet_counter + 1 } in
      let (selected, link_rng') = select_link_for_packet flip pkt' now counted in
      let chosen = record counted { link_rng = link_rng' } in
      if is_ul pkt' then ok chosen else input_on pkt' selected chosen

  unfoldable pub input_ul : MpduPacket → ℕ → QueueModule → Outcome NoError QueueModule
  input_ul pkt now q =
      let counted = record q {
        arrived_packet_counter = q.arrived_packet_counter + 1;
        queue_length_counter = q.queue_length_counter + packets_queued q.deques;
      } in
      let (selected, link_rng') = select_link_for_packet flip pkt now counted in
      let chosen = record counted { link_rng = link_rng' } in
      if is_ul pkt then input_ul_on pkt now selected chosen else ok chosen
