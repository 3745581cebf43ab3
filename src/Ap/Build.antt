-- ===== src/Ap/Build.antt =====
-- `build_new_ampdu` (models_mm1k.rs): the next A-MPDU of a flow on a link. Its packets leave their
-- queues; those that the channel loses go back to the front. The statistics sent on, the log and the
-- viewer's events are left out, and `XRSIM_DL_ID_LEGACY` is unset.
use si_est_a_vr.Common.{
  ℕ, ◌+◌, ◌-◌, Bool, true, false, ◌&&◌, ◌==◌, if◌then◌else◌, Option, none, some, List, [], ◌∷◌,
  drop, length, Outcome, ok, ◌>>=◌, require, lookup, insert,
}
use si_est_a_vr.Mac.Edca.{MacKey}
use si_est_a_vr.Mac.Virtual.{same_key}
use si_est_a_vr.Mac.Tick.{NoError}
use si_est_a_vr.Ap.Packets.{MpduPacket, is_ul, signed_gt, owner_of}
use si_est_a_vr.Ap.State.{QueueModule, AmpduPacket, Deques, deque_at, set_deque, need, discount_one}
use si_est_a_vr.Ap.Input.{key_of}
use si_est_a_vr.Ap.Aggregate.{Radio, dcf, Flow, Taking, take_from_all, source_keys}

-- The packets that get through, with their service time, the number of the others, and the
-- generator's next state.
unfoldable pub transmit :
    (ℕ → Bool × ℕ) → ℕ → List (MacKey × MpduPacket) → ℕ → List MpduPacket × ℕ × ℕ
transmit loses t_s [] rng = ([], 0, rng)
transmit loses t_s ((key, p) ∷ ps) rng =
    let (lost, rng') = loses rng in
    let (sent, failed, rng'') = transmit loses t_s ps rng' in
    if lost then (sent, failed + 1, rng'') else (record p { t_s = t_s } ∷ sent, failed, rng'')

abbrev pub change_deque : (List MpduPacket → List MpduPacket) → MacKey → Deques → Deques
change_deque f key ds = elim (deque_at key ds) [ none ↦ ds | some d ↦ set_deque key (f d) ds ]

-- Upwards a queue holds one flow, and what was taken is at its front.
unfoldable pub pop_taken : List (MacKey × ℕ) → Deques → Deques
pop_taken [] ds = ds
pop_taken ((key, n) ∷ sources) ds = pop_taken sources (change_deque (drop n) key ds)

-- (source, destination, id).
abbrev pub same_id : MpduPacket → MpduPacket → Bool
same_id p p' =
    p.sta_src_id == p'.sta_src_id
    && (p.sta_dest_id == p'.sta_dest_id && p.packet_id == p'.packet_id)

abbrev pub was_taken : MpduPacket → List (MacKey × MpduPacket) → Bool
was_taken p [] = false
was_taken p ((key, p') ∷ ps) = let rest = was_taken p ps in if same_id p p' then true else rest

abbrev pub retain : List (MacKey × MpduPacket) → List MpduPacket → List MpduPacket
retain taken [] = []
retain taken (p ∷ ps) = let rest = retain taken ps in if was_taken p taken then rest else p ∷ rest

abbrev pub has_key : MacKey → List MacKey → Bool
has_key key [] = false
has_key key (k ∷ ks) = let rest = has_key key ks in if same_key k key then true else rest

-- The queues that a packet was taken from, each once.
abbrev pub involved_deques : List (MacKey × MpduPacket) → List MacKey
involved_deques [] = []
involved_deques ((key, p) ∷ ps) =
    let rest = involved_deques ps in if has_key key rest then rest else key ∷ rest

-- Downwards the packets of other stations may stand between those that were taken.
unfoldable pub retain_in : List (MacKey × MpduPacket) → List MacKey → Deques → Deques
retain_in taken [] ds = ds
retain_in taken (key ∷ keys) ds = retain_in taken keys (change_deque (retain taken) key ds)

-- `successful_ids` holds bare packet ids.
abbrev pub succeeded : MpduPacket → List MpduPacket → Bool
succeeded p [] = false
succeeded p (p' ∷ ps) =
    let rest = succeeded p ps in if p.packet_id == p'.packet_id then true else rest

-- The packets that did not get through, in front of their queues in their old order.
unfoldable pub push_failed : List MpduPacket → List (MacKey × MpduPacket) → Deques → Deques
push_failed sent [] ds = ds
push_failed sent ((key, p) ∷ ps) ds =
    let rest = push_failed sent ps ds in
    if succeeded p sent then rest else change_deque (◌∷◌ p) key rest

abbrev discount_link : Option ℕ → List (ℕ × ℕ) → List (ℕ × ℕ)
discount_link none depths = depths
discount_link (some link) depths = elim (lookup link depths) [
  | none ↦ depths
  | some n ↦ insert link (n - 1) depths
]

-- One packet less for a flow that is in the cache.
abbrev pub discount_flow : ℕ → ℕ → List ((ℕ × ℕ) × ℕ) → List ((ℕ × ℕ) × ℕ)
discount_flow src dest [] = []
discount_flow src dest (((s, d), n) ∷ fs) =
    let rest = discount_flow src dest fs in
    if s == src && d == dest then ((s, d), n - 1) ∷ fs else ((s, d), n) ∷ rest

-- Each packet that got through is taken off the counts.
unfoldable pub discount_all : List MpduPacket → QueueModule → QueueModule
discount_all [] q = q
discount_all (p ∷ ps) q = discount_all ps (record q {
  link_queue_depths = discount_link p.assigned_link_id q.link_queue_depths;
  active_mac_key_counts = discount_one (owner_of p) p.edca_ac q.active_mac_key_counts;
  sta_stats_cache = discount_flow p.sta_src_id p.sta_dest_id q.sta_stats_cache;
})

module _ (radio : Radio) where
  abbrev pub nothing_taken : ℕ → Taking radio
  nothing_taken flow_backlog = record {
    taken_snapshot = [];
    total_length = 0;
    size = 0;
    flow_backlog = flow_backlog;
    resultz = radio.no_seconds;
    mcs_assigned = 0;
    last_service_duration = 0;
    deque_sources = [];
  }

  -- The queues without what was taken.
  abbrev pub removed_from : Flow → Taking radio → Deques → Deques
  removed_from flow t ds =
      if flow.up
      then pop_taken t.deque_sources ds
      else retain_in t.taken_snapshot (involved_deques t.taken_snapshot) ds

  -- What follows the aggregation.
  unfoldable pub finish_ampdu :
      MpduPacket → ℕ → Flow → Taking radio → QueueModule → AmpduPacket × ℕ × QueueModule
  finish_ampdu first link flow t q =
      let (sent, failed, rng') =
        transmit radio.loses (radio.to_duration t.resultz) t.taken_snapshot q.rng in
      let counted : QueueModule = discount_all sent (record q {
        rng = rng';
        blocked_packet_counter = q.blocked_packet_counter + failed;
        deques = push_failed sent t.taken_snapshot (removed_from flow t q.deques);
      }) in
      (
        record {
          mpdu_packets = sent;
          total_length = t.total_length;
          sta_src_id = first.sta_src_id;
          sta_dest_id = first.sta_dest_id;
          size = t.size;
          mac_key = flow.mac_key;
          link_id = link;
          mcs_assigned = t.mcs_assigned;
        },
        t.last_service_duration,
        record counted { link_is_transmitting = insert link true counted.link_is_transmitting },
      )

  -- The A-MPDU, its airtime, and the new state.
  unfoldable pub build_new_ampdu :
      MpduPacket → ℕ → ℕ → QueueModule → Outcome NoError (AmpduPacket × ℕ × QueueModule)
  build_new_ampdu first link now q = do
    width ← need (lookup link q.link_channel_widths)
    require (signed_gt first.sta_src_id 0 && signed_gt first.sta_dest_id 0) (do
      let key : MacKey = key_of first.sta_src_id first.sta_dest_id first.edca_ac link
      st ← dcf key q.dcf_values
      backlog ← need (deque_at key q.deques)
      let flow : Flow = record {
        up = is_ul first;
        target_dest_id = first.sta_dest_id;
        mac_key = key;
        channel_width = width;
        txop_limit_us = st.param.txop_limit_us;
      }
      t ← take_from_all radio now q flow (source_keys key q) (nothing_taken (length backlog))
      ok (finish_ampdu first link flow t q))
