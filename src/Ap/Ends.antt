-- ===== src/Ap/Ends.antt =====
-- How a slot ends in a collision, and how a transmission ends (models_mm1k.rs,
-- `deque_schedule_service` and `send_ampdu`).
use si_est_a_vr.Common.{
  ℕ, ◌+◌, ◌==◌, ◌≡◌, refl, ap, ◌∙◌, inl, inr, true, false, some, List, [], ◌∷◌, ok, lookup,
  lookup-insert, ==_refl, arith, Bool-cases, if_elim,
}
use si_est_a_vr.Mac.Edca.{MacKey}
use si_est_a_vr.Mac.Backoff.{
  Draw, DcfStats, on_failure, on_success, on_failure-IsValid, on_success-IsValid,
}
use si_est_a_vr.Mac.Backoff
use si_est_a_vr.Mac.Medium.{occupy_collision}
use si_est_a_vr.Mac.Virtual.{same_key, has_state}
use si_est_a_vr.Mac.Winners.{HaveStates}
use si_est_a_vr.Mac.Failures.{AllSound, fail_key-Changed, HaveStates-same}
use si_est_a_vr.Mac.Reach.{freeze}
use si_est_a_vr.Ap.State.{
  QueueModule, AmpduPacket, all_deques_empty, schedule_tick, deque_schedule_event,
}
use si_est_a_vr.Ap.Service.{
  freeze_link, succeed_key, fail_all, collide, send_ampdu, change_medium, end_txop, wake_if_waiting,
  sent_on,
}
use si_est_a_vr.Ap.Aggregate.{Radio}

-- Everybody on the link waits until its next free instant.
abbrev pub AllFrozen : ℕ → ℕ → List DcfStats → Type 0
AllFrozen link until [] = Unit
AllFrozen link until (st ∷ sts) =
    ((st.mac_key.2 == link) ≡ true → (st.backoff_frozen ≡ true) × (st.medium_free_since ≡ until))
    × AllFrozen link until sts

freeze_link-AllFrozen :
    (link until : ℕ) (sts : List DcfStats) → AllFrozen link until (freeze_link link until sts)
unfolding freeze
freeze_link-AllFrozen link until [] = tt
freeze_link-AllFrozen link until (st ∷ sts) = (
  if_elim {A = DcfStats}
      (λ s.
        (s.mac_key.2 == link) ≡ true → (s.backoff_frozen ≡ true) × (s.medium_free_since ≡ until))
      (st.mac_key.2 == link) (λ e h. (refl, refl)) (λ e h. absurd (ground (arith, e, h))),
  freeze_link-AllFrozen link until sts,
)

pub freeze_link-AllSound :
    (link until : ℕ) (sts : List DcfStats) → AllSound sts → AllSound (freeze_link link until sts)
unfolding freeze
freeze_link-AllSound link until [] v = tt
freeze_link-AllSound link until (st ∷ sts) v = (
  if_elim Backoff.IsValid (st.mac_key.2 == link)
      (λ e. record {
        cw_ge = v.0.cw_ge;
        cw_le = v.0.cw_le;
        counter_le = v.0.counter_le;
        drawn_le = v.0.drawn_le;
        retries_le = v.0.retries_le;
      })
      (λ e. v.0),
  freeze_link-AllSound link until sts v.1,
)

record Woken (q q' : QueueModule) : Type 0 where
  queues : q'.deques ≡ q.deques
  counts : q'.active_mac_key_counts ≡ q.active_mac_key_counts
  transmitting : q'.link_is_transmitting ≡ q.link_is_transmitting
  states : q'.dcf_values ≡ q.dcf_values
  pending : all_deques_empty q.deques ≡ false → q'.slot_tick_pending ≡ true

wake_if_waiting-Woken : (q : QueueModule) → Woken q (wake_if_waiting q)
unfolding schedule_tick
wake_if_waiting-Woken q =
    if_elim (Woken q) (all_deques_empty q.deques)
      (λ e. record {
        queues = refl;
        counts = refl;
        transmitting = refl;
        states = refl;
        pending = λ h. absurd (ground (arith, e, h));
      })
      (λ e.
        if_elim (Woken q) q.slot_tick_pending
          (λ f. record {
            queues = refl;
            counts = refl;
            transmitting = refl;
            states = refl;
            pending = λ h. f;
          })
          (λ f. record {
            queues = refl;
            counts = refl;
            transmitting = refl;
            states = refl;
            pending = λ h. refl;
          }))

module _ (radio : Radio) (r : Draw) (t_col : ℕ) where
  fail_all_sound :
      (keys : List MacKey) (sts : List DcfStats)
      → HaveStates keys sts
      → AllSound sts
      → (sts' : List DcfStats) × (fail_all radio r t_col keys sts ≡ ok sts') × AllSound sts'
  unfolding fail_all
  fail_all_sound [] sts h v = (sts, refl, v)
  fail_all_sound (key ∷ keys) sts h v =
      let (sts1, failed, c) = fail_key-Changed r key sts h.0 v in
      let (sts', rest, v') =
        fail_all_sound keys sts1 (HaveStates-same r keys sts sts1 c.states h.1) c.sound in
      (sts', rw failed rest, v')

  pub succeed_key_sound :
      (key : MacKey) (sts : List DcfStats)
      → has_state key sts ≡ true
      → AllSound sts
      → (sts' : List DcfStats) × (succeed_key radio r t_col key sts ≡ ok sts') × AllSound sts'
  unfolding succeed_key
  succeed_key_sound key [] h v = absurd (ground (arith, h))
  succeed_key_sound key (st ∷ sts) h v = elim (Bool-cases (same_key st.mac_key key)) [
    | inl e ↦ (on_success r st.param.cw_min st ∷ sts, rw e refl, (on_success-IsValid r st v.0, v.1))
    | inr e ↦
        let (sts', result, rest) = succeed_key_sound key sts (ground (arith, h, e)) v.1 in
        (st ∷ sts', rw (e, result) refl, (v.0, rest))
  ]

  -- A collision of contenders that have their states does not panic. It leaves the queues and the
  -- counts, freezes everybody on the link until its end, keeps all contention states sound, and leaves
  -- a slot pending at its end.
  pub collide_lem :
      (now link : ℕ) (contenders : List MacKey) (q : QueueModule)
      → HaveStates contenders q.dcf_values
      → AllSound q.dcf_values
      → (q' : QueueModule) × (collide radio r t_col now link contenders q ≡ ok q')
        × AllFrozen link (now + t_col) q'.dcf_values
        × AllSound q'.dcf_values
        × (q'.slot_tick_pending ≡ true)
        × (q'.scheduled ≡ deque_schedule_event t_col ∷ q.scheduled)
        × (q'.deques ≡ q.deques)
        × (q'.active_mac_key_counts ≡ q.active_mac_key_counts)
  unfolding collide
  collide_lem now link contenders q h v =
      let (sts, failed, sound) = fail_all_sound contenders q.dcf_values h v in
      (
        record q {
          link_mediums = change_medium (occupy_collision now (now + t_col)) link q.link_mediums;
          dcf_values = freeze_link link (now + t_col) sts;
          scheduled = deque_schedule_event t_col ∷ q.scheduled;
          slot_tick_pending = true;
        },
        rw failed refl,
        freeze_link-AllFrozen link (now + t_col) sts,
        freeze_link-AllSound link (now + t_col) sts sound,
        refl,
        refl,
        refl,
        refl,
      )

  -- The end of a transmission whose station has its state does not panic. The queues and the counts
  -- stay, the link is not transmitting any more, the contention states stay sound, and if any packet
  -- waits, a tick is pending.
  pub send_ampdu_lem :
      (ampdu : AmpduPacket) (now : ℕ) (q : QueueModule)
      → has_state ampdu.mac_key q.dcf_values ≡ true
      → AllSound q.dcf_values
      → (sent : List AmpduPacket) × (q' : QueueModule) × (send_ampdu radio r t_col ampdu now q
          ≡ ok (sent, q'))
        × (q'.deques ≡ q.deques)
        × (q'.active_mac_key_counts ≡ q.active_mac_key_counts)
        × (lookup ampdu.link_id q'.link_is_transmitting ≡ some false)
        × AllSound q'.dcf_values
        × (all_deques_empty q.deques ≡ false → q'.slot_tick_pending ≡ true)
  unfolding send_ampdu
  send_ampdu_lem ampdu now q h v =
      let (sts, result, sound) = succeed_key_sound ampdu.mac_key q.dcf_values h v in
      let ended : QueueModule = end_txop ampdu.link_id now q in
      let w = wake_if_waiting-Woken ended in
      (
        sent_on (lookup ampdu.link_id q.link_mediums) ampdu,
        record (wake_if_waiting ended) { dcf_values = sts },
        rw (w.states, result) refl,
        w.queues,
        w.counts,
        ap (lookup ampdu.link_id) w.transmitting
            ∙ lookup-insert ampdu.link_id ampdu.link_id false q.link_is_transmitting
            ∙ rw (==_refl ampdu.link_id) refl,
        sound,
        w.pending,
      )
