-- ===== src/Ap/Servable.antt =====
-- What a winner on a link needs to send, and an A-MPDU in either direction (models_mm1k.rs,
-- `deque_schedule_service`).
use mathlib.Core.Path.{subst}
use si_est_a_vr.Common.{
  ℕ, ◌≡◌, refl, true, false, ◌&&◌, Option, none, some, List, ok, lookup, inl, inr, arith, ◌⊎◌,
}
use si_est_a_vr.Mac.Edca.{EdcaAc, MacKey}
use si_est_a_vr.Mac.Backoff.{DcfStats}
use si_est_a_vr.Mac.Virtual.{has_state}
use si_est_a_vr.Ap.Packets.{ap_id, MpduPacket, is_ul, signed_gt}
use si_est_a_vr.Ap.State.{QueueModule, AmpduPacket, deque_at}
use si_est_a_vr.Ap.Counts.{IsValid}
use si_est_a_vr.Ap.Aggregate.{Radio, source_keys}
use si_est_a_vr.Ap.Build.{build_new_ampdu}
use si_est_a_vr.Ap.Parts.{Distinct}
use si_est_a_vr.Ap.Taken.{for_dest, Ident, idents_in}
use si_est_a_vr.Ap.Returned.{same_packet_id}
use si_est_a_vr.Ap.Keys.{DistinctLinks}
use si_est_a_vr.Ap.Retained.{same_flow_id}
use si_est_a_vr.Ap.Finished.{IsReady, Built}
use si_est_a_vr.Ap.Upward.{build_new_ampdu-Built_upwards}
use si_est_a_vr.Ap.Downward.{build_new_ampdu-Built_downwards}
use si_est_a_vr.Ap.Service.{first_packet}
use si_est_a_vr.Ap.Fronts.{OwnFront, dcf-has_state}

-- The packets that an A-MPDU of the key may take.
abbrev pub waiting_for : MacKey → QueueModule → List Ident
waiting_for key q = idents_in (source_keys key q) q.deques

-- The link has a width, both stations have positive ids, and the ids tell the packets apart: upwards
-- all of the station's, downwards by source, destination and id, and those for the destination by the
-- id alone.
pub record CanSend (p : MpduPacket) (key : MacKey) (q : QueueModule) : Type 0 where
  pub width : ℕ
  pub wide : lookup key.2 q.link_channel_widths ≡ some width
  pub positive : (signed_gt p.sta_src_id 0 && signed_gt p.sta_dest_id 0) ≡ true
  pub distinct :
      ((is_ul p ≡ true) × Distinct same_packet_id (waiting_for key q))
      ⊎ ((is_ul p ≡ false)
          × ((coords : ℕ) × (lookup p.sta_dest_id q.sta_coords_map ≡ some coords))
          × Distinct same_flow_id (waiting_for key q)
          × Distinct same_packet_id (for_dest p.sta_dest_id (waiting_for key q)))

abbrev pub Sendable : MacKey → QueueModule → Option MpduPacket → Type 0
Sendable key q none = Unit
Sendable key q (some p) = CanSend p key q

-- A key that may win on a link: it has a contention state and a queue, and what it would send first
-- can be sent.
pub record IsServable (link : ℕ) (q : QueueModule) (key : MacKey) : Type 0 where
  pub on_link : key.2 ≡ link
  pub state : has_state key q.dcf_values ≡ true
  pub waiting : List MpduPacket
  pub queued : deque_at key q.deques ≡ some waiting
  pub first : Sendable key q (first_packet key waiting q)

-- The part of it that a change of the contention states leaves.
pub Sendable-states :
    (key : MacKey) (q : QueueModule) (sts : List DcfStats) (o : Option MpduPacket)
    → Sendable key q o
    → Sendable key (record q { dcf_values = sts }) o
unfolding source_keys
Sendable-states key q sts none s = tt
Sendable-states key q sts (some p) s = record {
  width = s.width;
  wide = s.wide;
  positive = s.positive;
  distinct = s.distinct;
}

pub record HasQueue (key : MacKey) (q : QueueModule) : Type 0 where
  pub state : has_state key q.dcf_values ≡ true
  pub waiting : List MpduPacket
  pub queued : deque_at key q.deques ≡ some waiting

module _ (radio : Radio) where
  abbrev pub Builds : MpduPacket → ℕ → ℕ → QueueModule → MacKey → Type 0
  Builds p link now q key =
      (ampdu : AmpduPacket) × (airtime : ℕ) × (q' : QueueModule) × (build_new_ampdu radio p link now
          q
        ≡ ok (ampdu, airtime, q'))
      × Built radio key q ampdu q'

  is_ready :
      (p : MpduPacket) (key : MacKey) (q : QueueModule)
      → DistinctLinks q.link_mediums
      → HasQueue key q
      → CanSend p key q
      → IsReady p key key.2 q
  is_ready p key q links h c =
      let (st, contends) = dcf-has_state key q.dcf_values h.state in
      record {
        width = c.width;
        wide = c.wide;
        positive = c.positive;
        state = st;
        contends = contends;
        waiting = h.waiting;
        queued = h.queued;
        links = links;
      }

  up_key :
      (p : MpduPacket) (sta : ℕ) (ac : EdcaAc) (link : ℕ)
      → is_ul p ≡ true
      → OwnFront sta ac (some p)
      → Path MacKey (p.sta_src_id, p.edca_ac, link) (sta, ac, link)
  up_key p sta ac link up own =
      let src : p.sta_src_id ≡ sta = ground (arith, own.0, up) in rw (src, own.1) refl

  down_key :
      (p : MpduPacket) (sta : ℕ) (ac : EdcaAc) (link : ℕ)
      → is_ul p ≡ false
      → OwnFront sta ac (some p)
      → Path MacKey (ap_id, p.edca_ac, link) (sta, ac, link)
  down_key p sta ac link down own =
      let src : ap_id ≡ sta = ground (arith, own.0, down) in rw (src, own.1) refl

  -- An A-MPDU in the direction of its first packet.
  pub build_new_ampdu-Builds :
      (p : MpduPacket) (now sta : ℕ) (ac : EdcaAc) (link : ℕ) (q : QueueModule)
      → IsValid q
      → DistinctLinks q.link_mediums
      → OwnFront sta ac (some p)
      → HasQueue (sta, ac, link) q
      → CanSend p (sta, ac, link) q
      → Builds p link now q (sta, ac, link)
  build_new_ampdu-Builds p now sta ac link q valid links own h c = elim c.distinct [
    | inl (up, ids) ↦
        subst
          (λ (key : MacKey).
            HasQueue key q
            → CanSend p key q
            → Distinct same_packet_id (waiting_for key q)
            → key.2 ≡ link
            → Builds p link now q key)
          (up_key p sta ac link up own)
          (λ h' c' ids' e.
            build_new_ampdu-Built_upwards radio p link now q valid up
              (is_ready p (p.sta_src_id, p.edca_ac, link) q links h' c') ids')
          h c ids refl
    | inr (down, (coords, placed), flows, ids) ↦
        subst
          (λ (key : MacKey).
            HasQueue key q
            → CanSend p key q
            → Distinct same_flow_id (waiting_for key q)
            → Distinct same_packet_id (for_dest p.sta_dest_id (waiting_for key q))
            → Builds p link now q key)
          (down_key p sta ac link down own)
          (λ h' c' flows' ids'.
            build_new_ampdu-Built_downwards radio p link now coords q valid down placed
              (is_ready p (ap_id, p.edca_ac, link) q links h' c') flows' ids')
          h c flows ids
  ]
