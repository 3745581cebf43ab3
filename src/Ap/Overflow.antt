-- ===== src/Ap/Overflow.antt =====
-- The overflow check at the start of `deque_schedule_service` (models_mm1k.rs): flows of which more
-- packets are counted than the limit lose the excess. As in the source, the excess is taken anew for
-- each access category.
use si_est_a_vr.Common.{
  ℕ, ◌+◌, ◌-◌, min, ◌&&◌, ◌==◌, ltb, if◌then◌else◌, Option, none, some, List, [], ◌∷◌, take, drop,
  length, lookup, insert,
}
use si_est_a_vr.Mac.Edca.{EdcaAc, voice, video, best_effort, background, MacKey}
use si_est_a_vr.Mac.Medium.{Medium}
use si_est_a_vr.Ap.Packets.{MpduPacket, signed_gt, ap_id}
use si_est_a_vr.Ap.State.{QueueModule, deque_at, set_deque, same_ac}
use si_est_a_vr.Ap.Build.{discount_flow}

-- `retain`: without the first `n` packets for the destination; and their number.
abbrev pub drop_for : ℕ → ℕ → List MpduPacket → List MpduPacket × ℕ
drop_for n dest [] = ([], 0)
drop_for n dest (p ∷ ps) =
    let fewer = drop_for (n - 1) dest ps in
    let same = drop_for n dest ps in
    if ltb 0 n && p.sta_dest_id == dest then (fewer.0, fewer.1 + 1) else (p ∷ same.0, same.1)

-- A saturating subtraction from a link's depth, if the map has the link.
abbrev lower : ℕ → ℕ → Option ℕ → List (ℕ × ℕ) → List (ℕ × ℕ)
lower link n none depths = depths
lower link n (some depth) depths = insert link (depth - n) depths

abbrev pub lower_depth : ℕ → ℕ → List (ℕ × ℕ) → List (ℕ × ℕ)
lower_depth link n depths = lower link n (lookup link depths) depths

abbrev pub discount_many : ℕ → ℕ → EdcaAc → (ℕ → EdcaAc → ℕ) → ℕ → EdcaAc → ℕ
discount_many n sta ac counts s a = if s == sta && same_ac a ac then counts s a - n else counts s a

abbrev pub discount_flows : List MpduPacket → List ((ℕ × ℕ) × ℕ) → List ((ℕ × ℕ) × ℕ)
discount_flows [] cache = cache
discount_flows (p ∷ ps) cache = discount_flows ps (discount_flow p.sta_src_id p.sta_dest_id cache)

-- `n` packets of one flow less.
abbrev pub discount_flow_by : ℕ → ℕ → ℕ → List ((ℕ × ℕ) × ℕ) → List ((ℕ × ℕ) × ℕ)
discount_flow_by n src dest [] = []
discount_flow_by n src dest (((s, d), m) ∷ fs) =
    let rest = discount_flow_by n src dest fs in
    if s == src && d == dest then ((s, d), m - n) ∷ fs else ((s, d), m) ∷ rest

-- What leaves one queue: `n` packets, with the queue that is left and the new cache.
abbrev pub without : MacKey → List MpduPacket → ℕ → List ((ℕ × ℕ) × ℕ) → QueueModule → QueueModule
without (sta, ac, link) left n cache q = record q {
  deques = set_deque (sta, ac, link) left q.deques;
  blocked_packet_counter = q.blocked_packet_counter + n;
  link_queue_depths = lower_depth link n q.link_queue_depths;
  active_mac_key_counts = discount_many n sta ac q.active_mac_key_counts;
  sta_stats_cache = cache;
}

-- One link: the drops that remain and the state.
unfoldable pub drop_at :
    ℕ → ℕ → EdcaAc → ℕ → ℕ → Option (List MpduPacket) → QueueModule → ℕ × QueueModule
drop_at src dest ac link remaining none q = (remaining, q)
drop_at src dest ac link remaining (some d) q =
    if signed_gt src dest
    then (let n = min remaining (length d) in
        let gone = drop (length d - n) d in
        (
          remaining - n,
          without (src, ac, link) (take (length d - n) d) n (discount_flows gone q.sta_stats_cache)
              q,
        ))
    else (let (left, n) = drop_for remaining dest d in
        (
          remaining - n,
          without (ap_id, ac, link) left n (discount_flow_by n src dest q.sta_stats_cache) q,
        ))

abbrev pub flow_owner : ℕ → ℕ → ℕ
flow_owner src dest = if signed_gt src dest then src else ap_id

unfoldable pub drop_on_links : ℕ → ℕ → EdcaAc → List (ℕ × Medium) → ℕ → QueueModule → QueueModule
drop_on_links src dest ac [] remaining q = q
drop_on_links src dest ac ((link, m) ∷ ms) remaining q =
    let next = drop_on_links src dest ac ms in
    if remaining == 0
    then q
    else (let (remaining', q') =
          drop_at src dest ac link remaining (deque_at (flow_owner src dest, ac, link) q.deques)
            q in
        next remaining' q')

unfoldable pub drop_excess : ℕ → ℕ → ℕ → QueueModule → QueueModule
drop_excess src dest excess q =
    let on = λ (ac : EdcaAc) (x : QueueModule). drop_on_links src dest ac x.link_mediums excess x in
    on background (on best_effort (on video (on voice q)))

-- The flows over their limit, with the excess, before anything is dropped.
abbrev pub overflowing_flows : ℕ → ℕ → List ((ℕ × ℕ) × ℕ) → List ((ℕ × ℕ) × ℕ)
overflowing_flows dl ul [] = []
overflowing_flows dl ul (((src, dest), n) ∷ fs) =
    let rest = overflowing_flows dl ul fs in
    let limit = if signed_gt src dest then ul else dl in
    if ltb limit n then ((src, dest), n - limit) ∷ rest else rest

unfoldable pub drop_all : List ((ℕ × ℕ) × ℕ) → QueueModule → QueueModule
drop_all [] q = q
drop_all (((src, dest), excess) ∷ flows) q = drop_all flows (drop_excess src dest excess q)

unfoldable pub drop_overflow : QueueModule → QueueModule
drop_overflow q =
    drop_all (overflowing_flows q.queue_maxsize_dl q.ul_capacity_queue_device q.sta_stats_cache) q
