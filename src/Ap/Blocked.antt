-- ===== src/Ap/Blocked.antt =====
-- What the overflow check drops is counted (models_mm1k.rs, `deque_schedule_service`).
use si_est_a_vr.Common.{
  ℕ, ◌+◌, ◌-◌, min, ◌==◌, ◌≡◌, refl, sym, ap, ◌∙◌, inl, inr, Bool, true, false, if◌then◌else◌,
  Option, none, some, List, [], ◌∷◌, take, drop, length, length-take, arith, Bool-cases, if_elim,
}
use si_est_a_vr.Mac.Edca.{EdcaAc, MacKey, voice, video, best_effort, background}
use si_est_a_vr.Mac.Medium.{Medium}
use si_est_a_vr.Mac.Virtual.{same_key}
use si_est_a_vr.Ap.Packets.{MpduPacket, signed_gt, ap_id}
use si_est_a_vr.Ap.State.{Deques, QueueModule, deque_at, set_deque, packets_queued}
use si_est_a_vr.Ap.Counts.{total, total-set_deque, deque_at-hit}
use si_est_a_vr.Ap.Overflow.{
  drop_for, without, discount_flows, discount_flow_by, drop_at, flow_owner, drop_on_links,
  drop_excess, overflowing_flows, drop_all, drop_overflow,
}

abbrev pub IsCounted : QueueModule → Type 0
IsCounted q = (sta : ℕ) (ac : EdcaAc) → q.active_mac_key_counts sta ac ≡ total sta ac q.deques

-- Packets that wait or were blocked.
abbrev pub accounted : QueueModule → ℕ
accounted q = packets_queued q.deques + q.blocked_packet_counter

record Kept (q q' : QueueModule) : Type 0 where
  counted : IsCounted q'
  same : accounted q' ≡ accounted q

packets_queued-set_deque :
    (key : MacKey) (old new : List MpduPacket) (ds : Deques)
    → deque_at key ds ≡ some old
    → packets_queued (set_deque key new ds) + length old ≡ packets_queued ds + length new
packets_queued-set_deque key old new [] h = absurd (ground (arith, h))
packets_queued-set_deque key old new ((k, d) ∷ ds) h = elim (Bool-cases (same_key k key)) [
  | inl e ↦
      let same : length d ≡ length old =
        ap (λ (o : Option (List MpduPacket)). elim o [ none ↦ 0 | some x ↦ length x ])
          (sym (deque_at-hit k key d ds e) ∙ h) in
      rw e (omega (arith, same))
  | inr e ↦ rw e (omega (arith, packets_queued-set_deque key old new ds (sym (rw e refl) ∙ h)))
]

length-drop_for :
    (n dest : ℕ) (d : List MpduPacket)
    → length (drop_for n dest d).0 + (drop_for n dest d).1 ≡ length d
length-drop_for n dest [] = omega arith
length-drop_for n dest (p ∷ ps) =
    ground (arith, length-drop_for (n - 1) dest ps, length-drop_for n dest ps)

without-Kept :
    (key : MacKey) (d left : List MpduPacket) (n : ℕ) (cache : List ((ℕ × ℕ) × ℕ)) (q : QueueModule)
    → IsCounted q
    → deque_at key q.deques ≡ some d
    → length left + n ≡ length d
    → Kept q (without key left n cache q)
without-Kept (sta, ac, link) d left n cache q counted found sizes = record {
  counted = λ s a.
      ground (arith, counted s a, total-set_deque s a (sta, ac, link) d left q.deques found, sizes);
  same = omega (arith, packets_queued-set_deque (sta, ac, link) d left q.deques found, sizes);
}

owner_up :
    (src dest : ℕ) (ac : EdcaAc) (link : ℕ) (ds : Deques)
    → signed_gt src dest ≡ true
    → deque_at (src, ac, link) ds ≡ deque_at (flow_owner src dest, ac, link) ds
owner_up src dest ac link ds e =
    ap (λ (b : Bool). deque_at ((if b then src else ap_id), ac, link) ds) (sym e)

owner_down :
    (src dest : ℕ) (ac : EdcaAc) (link : ℕ) (ds : Deques)
    → signed_gt src dest ≡ false
    → deque_at (ap_id, ac, link) ds ≡ deque_at (flow_owner src dest, ac, link) ds
owner_down src dest ac link ds e =
    ap (λ (b : Bool). deque_at ((if b then src else ap_id), ac, link) ds) (sym e)

drop_at-Kept :
    (src dest : ℕ) (ac : EdcaAc) (link remaining : ℕ) (o : Option (List MpduPacket))
    (q : QueueModule)
    → IsCounted q
    → deque_at (flow_owner src dest, ac, link) q.deques ≡ o
    → Kept q (drop_at src dest ac link remaining o q).1
unfolding drop_at
drop_at-Kept src dest ac link remaining none q counted found = record {
  counted = counted;
  same = refl;
}
drop_at-Kept src dest ac link remaining (some d) q counted found =
    let n = min remaining (length d) in
    let gone = drop (length d - n) d in
    let after : QueueModule =
      without (src, ac, link) (take (length d - n) d) n (discount_flows gone q.sta_stats_cache) q in
    let left = drop_for remaining dest d in
    let after' : QueueModule =
      without (ap_id, ac, link) left.0 left.1 (discount_flow_by left.1 src dest q.sta_stats_cache)
        q in
    if_elim {A = ℕ × QueueModule} (λ r. Kept q r.1) (signed_gt src dest)
      {x = (remaining - n, after)} {y = (remaining - left.1, after')}
      (λ e.
        without-Kept (src, ac, link) d (take (length d - n) d) n
          (discount_flows gone q.sta_stats_cache) q counted
          (owner_up src dest ac link q.deques e ∙ found)
          (omega (arith, length-take (length d - n) d)))
      (λ e.
        without-Kept (ap_id, ac, link) d left.0 left.1
          (discount_flow_by left.1 src dest q.sta_stats_cache) q counted
          (owner_down src dest ac link q.deques e ∙ found) (length-drop_for remaining dest d))

chained : (q q' q'' : QueueModule) → Kept q q' → Kept q' q'' → Kept q q''
chained q q' q'' a b = record { counted = b.counted; same = b.same ∙ a.same }

drop_on_links-Kept :
    (src dest : ℕ) (ac : EdcaAc) (ms : List (ℕ × Medium)) (remaining : ℕ) (q : QueueModule)
    → IsCounted q
    → Kept q (drop_on_links src dest ac ms remaining q)
unfolding drop_on_links
drop_on_links-Kept src dest ac [] remaining q counted = record { counted = counted; same = refl }
drop_on_links-Kept src dest ac ((link, m) ∷ ms) remaining q counted =
    let one =
      drop_at src dest ac link remaining (deque_at (flow_owner src dest, ac, link) q.deques) q in
    let kept =
      drop_at-Kept src dest ac link remaining (deque_at (flow_owner src dest, ac, link) q.deques) q
        counted refl in
    if_elim (Kept q) (remaining == 0) (λ e. record { counted = counted; same = refl })
      (λ e.
        chained q one.1 (drop_on_links src dest ac ms one.0 one.1) kept
          (drop_on_links-Kept src dest ac ms one.0 one.1 kept.counted))

drop_excess-Kept :
    (src dest excess : ℕ) (q : QueueModule) → IsCounted q → Kept q (drop_excess src dest excess q)
unfolding drop_excess
drop_excess-Kept src dest excess q counted =
    let on = λ (ac : EdcaAc) (x : QueueModule). drop_on_links src dest ac x.link_mediums excess x in
    let step : (ac : EdcaAc) (x : QueueModule) → IsCounted x → Kept x (on ac x) =
      λ ac x c. drop_on_links-Kept src dest ac x.link_mediums excess x c in
    let a = step voice q counted in
    let b = step video (on voice q) a.counted in
    let c = step best_effort (on video (on voice q)) b.counted in
    let d = step background (on best_effort (on video (on voice q))) c.counted in
    record { counted = d.counted; same = d.same ∙ c.same ∙ b.same ∙ a.same }

drop_all-Kept :
    (flows : List ((ℕ × ℕ) × ℕ)) (q : QueueModule) → IsCounted q → Kept q (drop_all flows q)
unfolding drop_all
drop_all-Kept [] q counted = record { counted = counted; same = refl }
drop_all-Kept (((src, dest), excess) ∷ flows) q counted =
    let one = drop_excess-Kept src dest excess q counted in
    chained q (drop_excess src dest excess q) (drop_all flows (drop_excess src dest excess q)) one
      (drop_all-Kept flows (drop_excess src dest excess q) one.counted)

-- The overflow check keeps the counts those of the queues, whatever flows are over their limit, and
-- every packet that it takes off a queue is counted as blocked.
pub drop_overflow-IsCounted :
    (q : QueueModule)
    → IsCounted q
    → IsCounted (drop_overflow q) × (accounted (drop_overflow q) ≡ accounted q)
unfolding drop_overflow
drop_overflow-IsCounted q counted =
    let kept =
      drop_all-Kept
        (overflowing_flows q.queue_maxsize_dl q.ul_capacity_queue_device q.sta_stats_cache) q
        counted in
    (kept.counted, kept.same)
