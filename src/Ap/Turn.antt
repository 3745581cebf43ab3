-- ===== src/Ap/Turn.antt =====
-- What comes of a link's turn in a slot (models_mm1k.rs, `deque_schedule_service`).
use si_est_a_vr.Common.{
  ℕ, ◌<◌, ◌≡◌, refl, true, false, none, some, List, [], ◌∷◌, length, arith, ◌⊎◌, inl, inr, ok, ◌||◌,
  ◌==◌, if_elim,
}
use si_est_a_vr.Mac.Edca.{EdcaAc, MacKey}
use si_est_a_vr.Mac.Backoff.{DcfStats}
use si_est_a_vr.Mac.Failures.{AllSound}
use si_est_a_vr.Ap.Packets.{MpduPacket}
use si_est_a_vr.Ap.State.{
  QueueModule, AmpduPacket, deque_schedule_event, send_ampdu_event, schedule_tick, deque_at,
  slot_time,
}
use si_est_a_vr.Ap.Counts.{total}
use si_est_a_vr.Ap.Aggregate.{Radio, source_keys}
use si_est_a_vr.Ap.Build.{build_new_ampdu}
use si_est_a_vr.Ap.Finished.{Built}
use si_est_a_vr.Ap.Service.{is_empty, first_packet}

-- Nobody won, or the one that won has no packet.
abbrev pub NothingToSend : List MacKey → QueueModule → Type 0
NothingToSend winners q =
    (winners ≡ [])
    ⊎ ((key : MacKey) × (waiting : List MpduPacket) × (winners ≡ key ∷ [])
        × (deque_at key q.deques ≡ some waiting)
        × (first_packet key waiting q ≡ none))

-- The A-MPDU and its airtime are those that are built for the first packet of the winner.
pub record Aggregated (radio : Radio) (now : ℕ) (key : MacKey) (q : QueueModule)
    (ampdu : AmpduPacket) (airtime : ℕ) : Type 0 where
  pub waiting : List MpduPacket
  pub queued : deque_at key q.deques ≡ some waiting
  pub first : MpduPacket
  pub front : first_packet key waiting q ≡ some first
  pub states : List DcfStats
  pub after : QueueModule
  pub built :
      build_new_ampdu radio first key.2 now (record q { dcf_values = states })
      ≡ ok (ampdu, airtime, after)

-- What comes of a turn: nobody sends, the contenders collide, an A-MPDU goes on the air, or nothing of
-- it got through or it takes no time, and the next slot is pending.
pub data Turn (radio : Radio) (t_col now : ℕ) (winners : List MacKey) (q q' : QueueModule)
    : Type 0 where
  quiet :
      NothingToSend winners q
      → q'.deques ≡ q.deques
      → q'.active_mac_key_counts ≡ q.active_mac_key_counts
      → q'.scheduled ≡ q.scheduled
      → Turn radio t_col now winners q q'
  collided :
      1 < length winners
      → q'.deques ≡ q.deques
      → q'.active_mac_key_counts ≡ q.active_mac_key_counts
      → q'.scheduled ≡ deque_schedule_event t_col ∷ q.scheduled
      → q'.slot_tick_pending ≡ true
      → Turn radio t_col now winners q q'
  sent :
      (key : MacKey) (ampdu : AmpduPacket) (airtime : ℕ)
      → winners ≡ key ∷ []
      → Aggregated radio now key q ampdu airtime
      → Built radio key q ampdu q'
      → 0 < length ampdu.mpdu_packets
      → 0 < airtime
      → q'.scheduled ≡ send_ampdu_event airtime (record ampdu { link_id = key.2 }) ∷ q.scheduled
      → Turn radio t_col now winners q q'
  refused :
      (key : MacKey) (ampdu : AmpduPacket) (airtime : ℕ)
      → winners ≡ key ∷ []
      → Aggregated radio now key q ampdu airtime
      → (ampdu.mpdu_packets ≡ []) ⊎ (airtime ≡ 0)
      → Built radio key q ampdu q'
      → q'.slot_tick_pending ≡ true
      → (q.slot_tick_pending ≡ false → q'.scheduled ≡ deque_schedule_event slot_time ∷ q.scheduled)
      → Turn radio t_col now winners q q'

-- After the turn the contention states are sound, and the counts are those of the queues.
pub record Served (radio : Radio) (t_col now : ℕ) (winners : List MacKey) (q q' : QueueModule)
    : Type 0 where
  pub sound : AllSound q'.dcf_values
  pub counted : (s : ℕ) (a : EdcaAc) → q'.active_mac_key_counts s a ≡ total s a q'.deques
  pub turn : Turn radio t_col now winners q q'

pub not_empty : (ps : List MpduPacket) → is_empty ps ≡ false → 0 < length ps
not_empty [] h = absurd (ground (arith, h))
not_empty (p ∷ ps) h = omega arith

pub refused_why :
    (ps : List MpduPacket) (n : ℕ) → (is_empty ps || n == 0) ≡ true → (ps ≡ []) ⊎ (n ≡ 0)
refused_why [] n h = inl refl
refused_why (p ∷ ps) n h = inr (ground (arith, h))

pub schedule_tick-pending : (q : QueueModule) → (schedule_tick q).slot_tick_pending ≡ true
unfolding schedule_tick
schedule_tick-pending q =
    if_elim {A = QueueModule} (λ x. x.slot_tick_pending ≡ true) q.slot_tick_pending (λ e. e)
      (λ e. refl)

pub schedule_tick-scheduled :
    (q : QueueModule)
    → q.slot_tick_pending ≡ false
    → (schedule_tick q).scheduled ≡ deque_schedule_event slot_time ∷ q.scheduled
unfolding schedule_tick
schedule_tick-scheduled q e = rw e refl

pub record Ticked (q q' : QueueModule) : Type 0 where
  pub states : q'.dcf_values ≡ q.dcf_values
  pub queues : q'.deques ≡ q.deques
  pub counts : q'.active_mac_key_counts ≡ q.active_mac_key_counts

pub schedule_tick-Ticked : (q : QueueModule) → Ticked q (schedule_tick q)
unfolding schedule_tick
schedule_tick-Ticked q =
    if_elim {A = QueueModule} (Ticked q) q.slot_tick_pending
      (λ e. record { states = refl; queues = refl; counts = refl })
      (λ e. record { states = refl; queues = refl; counts = refl })

-- What `Built` says goes by the queues, the counts, the mediums and the limit.
pub Built-same :
    (radio : Radio) (key : MacKey) (q : QueueModule) (sts : List DcfStats) (ampdu : AmpduPacket)
    (q1 q' : QueueModule)
    → q'.deques ≡ q1.deques
    → q'.active_mac_key_counts ≡ q1.active_mac_key_counts
    → Built radio key (record q { dcf_values = sts }) ampdu q1
    → Built radio key q ampdu q'
unfolding source_keys
Built-same radio key q sts ampdu q1 q' queues counts b = record {
  balanced = record {
    counted = λ s a. rw (queues, counts) (b.balanced.counted s a);
    conserved = λ s a. rw queues (b.balanced.conserved s a);
    content = λ test. rw queues (b.balanced.content test);
  };
  size_le = b.size_le;
  sent_le = b.sent_le;
  in_order = b.in_order;
  complete = b.complete;
  lossless = b.lossless;
}
