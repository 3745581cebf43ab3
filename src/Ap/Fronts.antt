-- ===== src/Ap/Fronts.antt =====
-- The packet that a winner sends first (models_mm1k.rs, `deque_schedule_service`), and what
-- `build_new_ampdu` leaves as it is.
use mathlib.Core.Path.{subst}
use si_est_a_vr.Common.{
  ℕ, ◌≡◌, refl, true, false, Bool, Option, none, some, List, [], ◌∷◌, Outcome, ok, err, panic, hang,
  ◌>>=◌, require, lookup, inl, inr, length, Bool-cases, arith,
}
use si_est_a_vr.Mac.Edca.{EdcaAc, MacKey}
use si_est_a_vr.Mac.Backoff.{DcfStats}
use si_est_a_vr.Mac.Tick.{NoError}
use si_est_a_vr.Mac.Virtual.{same_key, has_state}
use si_est_a_vr.Ap.Packets.{MpduPacket, owner_of, is_ul}
use si_est_a_vr.Ap.State.{QueueModule, AmpduPacket, Deques, deque_at, need}
use si_est_a_vr.Ap.Input.{key_of}
use si_est_a_vr.Ap.Counts.{Placed}
use si_est_a_vr.Ap.Stored.{Placed-deque_at}
use si_est_a_vr.Ap.Aggregate.{Radio, Flow, Taking, dcf, take_from_all, source_keys, other_links}
use si_est_a_vr.Ap.Build.{nothing_taken, discount_all, finish_ampdu, build_new_ampdu}
use si_est_a_vr.Ap.Service.{front_at, or_front, front_of_links, first_packet}

-- A packet, if there is one, of the station and the category.
abbrev pub OwnFront : ℕ → EdcaAc → Option MpduPacket → Type 0
OwnFront sta ac none = Unit
OwnFront sta ac (some p) = (owner_of p ≡ sta) × (p.edca_ac ≡ ac)

front_at-OwnFront :
    (dl ul : ℕ) (key : MacKey) (ds : Deques) (o : Option (List MpduPacket))
    → Placed dl ul ds
    → deque_at key ds ≡ o
    → OwnFront key.0 key.1 (front_at o)
front_at-OwnFront dl ul key ds none placed e = tt
front_at-OwnFront dl ul key ds (some []) placed e = tt
front_at-OwnFront dl ul key ds (some (p ∷ ps)) placed e =
    (Placed-deque_at dl ul key (p ∷ ps) ds placed e).0

or_front-OwnFront :
    (sta : ℕ) (ac : EdcaAc) (o o' : Option MpduPacket)
    → OwnFront sta ac o
    → OwnFront sta ac o'
    → OwnFront sta ac (or_front o o')
or_front-OwnFront sta ac none o' h h' = h'
or_front-OwnFront sta ac (some p) o' h h' = h

front_of_links-OwnFront :
    (dl ul sta : ℕ) (ac : EdcaAc) (ls : List ℕ) (ds : Deques)
    → Placed dl ul ds
    → OwnFront sta ac (front_of_links sta ac ls ds)
front_of_links-OwnFront dl ul sta ac [] ds placed = tt
front_of_links-OwnFront dl ul sta ac (l ∷ ls) ds placed =
    or_front-OwnFront sta ac (front_at (deque_at (sta, ac, l) ds)) (front_of_links sta ac ls ds)
      (front_at-OwnFront dl ul (sta, ac, l) ds (deque_at (sta, ac, l) ds) placed refl)
      (front_of_links-OwnFront dl ul sta ac ls ds placed)

-- The packet that is sent first is of the winner's station and category.
pub first_packet-OwnFront :
    (key : MacKey) (waiting : List MpduPacket) (q : QueueModule)
    → Placed q.queue_maxsize_dl q.ul_capacity_queue_device q.deques
    → deque_at key q.deques ≡ some waiting
    → OwnFront key.0 key.1 (first_packet key waiting q)
first_packet-OwnFront (sta, ac, link) waiting q placed e =
    let dl = q.queue_maxsize_dl in
    let ul = q.ul_capacity_queue_device in
    let others = other_links link q.link_mediums in
    or_front-OwnFront sta ac (front_at (some waiting)) (front_of_links sta ac others q.deques)
      (front_at-OwnFront dl ul (sta, ac, link) q.deques (some waiting) placed e)
      (front_of_links-OwnFront dl ul sta ac others q.deques placed)

pub dcf-has_state :
    (key : MacKey) (sts : List DcfStats)
    → has_state key sts ≡ true
    → (st : DcfStats) × (dcf key sts ≡ ok st)
dcf-has_state key [] h = absurd (ground (arith, h))
dcf-has_state key (st ∷ sts) h = elim (Bool-cases (same_key st.mac_key key)) [
  | inl e ↦ (st, rw e refl)
  | inr e ↦
      let (st', found) = dcf-has_state key sts (ground (arith, h, e)) in (st', rw (e, found) refl)
]

-- What an A-MPDU does not touch.
pub record Untouched (q q' : QueueModule) : Type 0 where
  pub states : q'.dcf_values ≡ q.dcf_values
  pub events : q'.scheduled ≡ q.scheduled
  pub pending : q'.slot_tick_pending ≡ q.slot_tick_pending

discount_all-Untouched : (ps : List MpduPacket) (q : QueueModule) → Untouched q (discount_all ps q)
unfolding discount_all
discount_all-Untouched [] q = record { states = refl; events = refl; pending = refl }
discount_all-Untouched (p ∷ ps) q =
    let rest = discount_all-Untouched ps _ in
    record { states = rest.states; events = rest.events; pending = rest.pending }

Leaves : QueueModule → Outcome NoError (AmpduPacket × ℕ × QueueModule) → Type 0
Leaves q (ok (ampdu, airtime, q')) = Untouched q q'
Leaves q (err e) = Unit
Leaves q panic = Unit
Leaves q hang = Unit

bind-Leaves {ℓ} :
    {A : Type ℓ} (q : QueueModule) (m : Outcome NoError A)
    (f : A → Outcome NoError (AmpduPacket × ℕ × QueueModule))
    → ((a : A) → Leaves q (f a))
    → Leaves q (m >>= f)
unfolding Leaves
bind-Leaves q (ok a) f h = h a
bind-Leaves q (err e) f h = tt
bind-Leaves q panic f h = tt
bind-Leaves q hang f h = tt

require-Leaves :
    (q : QueueModule) (b : Bool) (m : Outcome NoError (AmpduPacket × ℕ × QueueModule))
    → Leaves q m
    → Leaves q (require b m)
unfolding Leaves
require-Leaves q true m h = h
require-Leaves q false m h = tt

module _ (radio : Radio) where
  finish_ampdu-Untouched :
      (first : MpduPacket) (link : ℕ) (flow : Flow) (t : Taking radio) (q : QueueModule)
      → Untouched q (finish_ampdu radio first link flow t q).2
  unfolding finish_ampdu
  finish_ampdu-Untouched first link flow t q =
      let kept = discount_all-Untouched _ _ in
      record { states = kept.states; events = kept.events; pending = kept.pending }

  build_new_ampdu-Leaves :
      (first : MpduPacket) (link now : ℕ) (q : QueueModule)
      → Leaves q (build_new_ampdu radio first link now q)
  unfolding build_new_ampdu Leaves
  build_new_ampdu-Leaves first link now q =
      let key : MacKey = key_of first.sta_src_id first.sta_dest_id first.edca_ac link in
      bind-Leaves q (need (lookup link q.link_channel_widths)) _ (λ width. require-Leaves q _ _ (
        bind-Leaves q (dcf key q.dcf_values) _ (λ st.
          bind-Leaves q (need (deque_at key q.deques)) _ (λ backlog.
            let flow : Flow = record {
              up = is_ul first;
              target_dest_id = first.sta_dest_id;
              mac_key = key;
              channel_width = width;
              txop_limit_us = st.param.txop_limit_us;
            } in
            bind-Leaves q
              (take_from_all radio now q flow (source_keys key q)
                (nothing_taken radio (length backlog)))
              (λ t. ok (finish_ampdu radio first link flow t q))
              (λ t. finish_ampdu-Untouched first link flow t q)))))

  pub build_new_ampdu-Untouched :
      (first : MpduPacket) (link now : ℕ) (q : QueueModule) (ampdu : AmpduPacket) (airtime : ℕ)
      (q' : QueueModule)
      → build_new_ampdu radio first link now q ≡ ok (ampdu, airtime, q')
      → Untouched q q'
  unfolding Leaves
  build_new_ampdu-Untouched first link now q ampdu airtime q' e =
      subst (λ x. Leaves q x) e (build_new_ampdu-Leaves first link now q)
