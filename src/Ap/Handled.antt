-- ===== src/Ap/Handled.antt =====
-- A packet on the link that was chosen for it (models_mm1k.rs, `input` and `input_UL`).
use si_est_a_vr.Common.{
  ℕ, ◌==◌, ◌+◌, ◌≤◌, ◌<◌, ◌≡◌, refl, true, false, none, some, List, [], ◌∷◌, ◌++◌, length, arith,
  inl, inr, Bool-cases, ltb→lt, lookup, ltb, ok,
}
use si_est_a_vr.Mac.Edca.{EdcaAc, MacKey}
use si_est_a_vr.Ap.Packets.{MpduPacket, is_ul, ap_id, assign_link}
use si_est_a_vr.Ap.State.{QueueModule, deque_at, any_link_idle}
use si_est_a_vr.Ap.Selection.{OneOf}
use si_est_a_vr.Ap.Stored.{admit-Admitted}
use si_est_a_vr.Ap.Input.{block, input_on, input_ul_on}
use si_est_a_vr.Ap.Counts.{IsValid}

-- Each of the links has a channel width and a queue for the station and the category.
abbrev pub Served : ℕ → EdcaAc → List ℕ → QueueModule → Type 0
Served sta ac [] q = Unit
Served sta ac (l ∷ ls) q =
    ((width : ℕ) × (lookup l q.link_channel_widths ≡ some width))
    × ((waiting : List MpduPacket) × (deque_at (sta, ac, l) q.deques ≡ some waiting))
    × Served sta ac ls q

pub Served-OneOf :
    (sta : ℕ) (ac : EdcaAc) (link : ℕ) (ls : List ℕ) (q : QueueModule)
    → OneOf link ls
    → Served sta ac ls q
    → ((width : ℕ) × (lookup link q.link_channel_widths ≡ some width))
      × ((waiting : List MpduPacket) × (deque_at (sta, ac, link) q.deques ≡ some waiting))
Served-OneOf sta ac link [] q one served = elim one [ ]
Served-OneOf sta ac link (l ∷ ls) q (inl same) served = rw same (served.0, served.1)
Served-OneOf sta ac link (l ∷ ls) q (inr one) served = Served-OneOf sta ac link ls q one served.2

-- What became of a packet for a key: it fits below `capacity`, waits behind the others and, if it is
-- the first there and some link is free, a tick is pending; or it does not fit, and the queues stay.
pub data Handled (pkt : MpduPacket) (key : MacKey) (capacity lost : ℕ) (q q' : QueueModule)
    : Type 0 where
  accepted :
      (waiting : List MpduPacket)
      → deque_at key q.deques ≡ some waiting
      → length waiting < capacity
      → deque_at key q'.deques ≡ some (waiting ++ pkt ∷ [])
      → q'.blocked_packet_counter ≡ q.blocked_packet_counter
      → (length waiting ≡ 0
          → any_link_idle q.link_is_transmitting ≡ true
          → q'.slot_tick_pending ≡ true)
      → Handled pkt key capacity lost q q'
  dropped :
      (waiting : List MpduPacket)
      → deque_at key q.deques ≡ some waiting
      → capacity ≤ length waiting
      → q'.deques ≡ q.deques
      → q'.blocked_packet_counter ≡ q.blocked_packet_counter + lost
      → Handled pkt key capacity lost q q'

-- The packet as it is queued.
abbrev pub stamped : MpduPacket → ℕ → MacKey → MpduPacket
stamped pkt now key = record pkt {
  queue_in_instant = now;
  assigned_link_id = none;
  mac_key_cached = some key;
}

pub input_on_lem :
    (pkt : MpduPacket) (link width : ℕ) (waiting : List MpduPacket) (q : QueueModule)
    → IsValid q
    → is_ul pkt ≡ false
    → lookup link q.link_channel_widths ≡ some width
    → deque_at (ap_id, pkt.edca_ac, link) q.deques ≡ some waiting
    → (q' : QueueModule) × (input_on pkt (some link) q ≡ ok q')
      × IsValid q'
      × Handled
          (stamped pkt pkt.queue_in_instant (ap_id, pkt.edca_ac, link))
          (ap_id, pkt.edca_ac, link)
          q.queue_maxsize_dl
          1
          q
          q'
unfolding input_on assign_link
input_on_lem pkt link width waiting q valid down wide found =
    elim (Bool-cases (ltb (length waiting) q.queue_maxsize_dl)) [
      | inl e ↦
          let fits = ltb→lt (length waiting) q.queue_maxsize_dl e in
          let (q', result, done) =
            admit-Admitted (stamped pkt pkt.queue_in_instant (ap_id, pkt.edca_ac, link)) ap_id
              pkt.edca_ac link width waiting q valid wide found (rw down refl) (rw down refl, refl)
              fits in
          (
            q',
            rw (found, e) result,
            done.valid,
            accepted waiting found fits done.stored done.blocked done.wakes,
          )
      | inr e ↦ (
        block q,
        rw (found, e) refl,
        record { counted = valid.counted; placed = valid.placed },
        dropped waiting found (ground (arith, e)) refl refl,
      )
    ]

pub input_ul_on_lem :
    (pkt : MpduPacket) (now link width : ℕ) (waiting : List MpduPacket) (q : QueueModule)
    → IsValid q
    → is_ul pkt ≡ true
    → (pkt.sta_src_id == ap_id) ≡ false
    → lookup link q.link_channel_widths ≡ some width
    → deque_at (pkt.sta_src_id, pkt.edca_ac, link) q.deques ≡ some waiting
    → (q' : QueueModule) × (input_ul_on pkt now (some link) q ≡ ok q')
      × IsValid q'
      × Handled
          (stamped pkt now (pkt.sta_src_id, pkt.edca_ac, link))
          (pkt.sta_src_id, pkt.edca_ac, link)
          q.ul_capacity_queue_device
          0
          q
          q'
unfolding input_ul_on assign_link
input_ul_on_lem pkt now link width waiting q valid up station wide found =
    elim (Bool-cases (ltb (length waiting) q.ul_capacity_queue_device)) [
      | inl e ↦
          let fits = ltb→lt (length waiting) q.ul_capacity_queue_device e in
          let (q', result, done) =
            admit-Admitted (stamped pkt now (pkt.sta_src_id, pkt.edca_ac, link)) pkt.sta_src_id
              pkt.edca_ac link width waiting q valid wide found (rw up refl) (rw up refl, refl)
              (rw station fits) in
          (
            q',
            rw (found, e) result,
            done.valid,
            accepted waiting found fits done.stored done.blocked done.wakes,
          )
      | inr e ↦ (
        q,
        rw (found, e) refl,
        valid,
        dropped waiting found (ground (arith, e)) refl (omega arith),
      )
    ]
