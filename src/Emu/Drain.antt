-- ===== src/Emu/Drain.antt =====
-- Packets that leave an emulated link (models_mm1k.rs, `EmulatedLink::drain`).
use mathlib.Core.List.{append_assoc, append-nil}
use si_est_a_vr.Common.{
  ℕ, ◌+◌, ◌-◌, ◌≤◌, ◌<◌, max, ◌≡◌, refl, sym, ap, ◌∙◌, ◌⊎◌, inl, inr, false, ltb, none, some, List,
  [], ◌∷◌, ◌++◌, length, length-append, ok, Outcome, arith, Bool-cases,
}
use si_est_a_vr.Mac.Tick.{NoError}
use si_est_a_vr.Ap.Packets.{MpduPacket}
use si_est_a_vr.Ap.Parts.{PartOf, nothing, keep, skip}
use si_est_a_vr.Emu.Link.{
  BandwidthOutcome, sent, exceeds_limit, wait, Patterns, QueuedPacket, add_or_stay, EmulatedLink,
  schedule_drain_at, drain_queue, after_attempt, drain,
}
use si_est_a_vr.Emu.Waiting.{EnqueuedBy, IsHeld, IsAwake, Armed}

abbrev pub packets_of : List QueuedPacket → List MpduPacket
packets_of [] = []
packets_of (p ∷ ps) = p.packet ∷ packets_of ps

module _ (patterns : Patterns) where
  -- Some packets of the queue leave it from the front, those that are sent in their order; what is
  -- left waits for a later event.
  pub record Drained (now : ℕ) (ps : List QueuedPacket) (l l' : EmulatedLink patterns)
      : Type 0 where
    pub gone : List QueuedPacket
    pub new : List MpduPacket
    pub split : ps ≡ gone ++ l'.queue
    pub outputs : l'.output ≡ l.output ++ new
    pub part : PartOf new (packets_of gone)
    pub limit : l'.max_queue_size ≡ l.max_queue_size
    pub later :
        (l'.queue ≡ [])
        ⊎ ((wake_at event : ℕ) × (l'.next_flush_scheduled ≡ some wake_at)
            × (now ≤ wake_at)
            × (now < event)
            × (l'.scheduled ≡ event ∷ l.scheduled))
    pub armed : l.next_flush_scheduled ≡ none → Armed l'.next_flush_scheduled l'.scheduled

  stays-Drained :
      (now wake_at : ℕ) (ps : List QueuedPacket) (state : patterns.State)
      (l : EmulatedLink patterns)
      → now ≤ wake_at
      → Drained now ps l (
          schedule_drain_at patterns wake_at now
            (record l { queue = ps; network_emulator = state }))
  unfolding schedule_drain_at
  stays-Drained now wake_at ps state l h = record {
    gone = [];
    new = [];
    split = refl;
    outputs = sym (append-nil l.output);
    part = nothing;
    limit = refl;
    later = inr (wake_at, now + max (wake_at - now) 1, refl, h, omega arith, refl);
    armed = λ off. (now + max (wake_at - now) 1, omega arith, inl refl);
  }

  after_attempt-Drained :
      (o : BandwidthOutcome)
      (next : EmulatedLink patterns → Outcome NoError (EmulatedLink patterns)) (p : QueuedPacket)
      (ps : List QueuedPacket) (now : ℕ) (l : EmulatedLink patterns)
      → ((l0 : EmulatedLink patterns)
          → (l' : EmulatedLink patterns) × (next l0 ≡ ok l') × Drained now ps l0 l')
      → (l' : EmulatedLink patterns) × (after_attempt patterns o next p ps now l ≡ ok l')
        × Drained now (p ∷ ps) l l'
  after_attempt-Drained sent next p ps now l others =
      let (l', result, d) = others (record l { output = l.output ++ p.packet ∷ [] }) in
      (
        l',
        result,
        record {
          gone = p ∷ d.gone;
          new = p.packet ∷ d.new;
          split = ap (◌∷◌ p) d.split;
          outputs = d.outputs ∙ append_assoc l.output (p.packet ∷ []) d.new;
          part = keep p.packet d.new (packets_of d.gone) d.part;
          limit = d.limit;
          later = d.later;
          armed = d.armed;
        },
      )
  after_attempt-Drained (wait retry_in) next p ps now l others = (
    schedule_drain_at patterns (add_or_stay now retry_in) now (record l { queue = p ∷ ps }),
    refl,
    stays-Drained now (add_or_stay now retry_in) (p ∷ ps) l.network_emulator l (ground arith),
  )
  after_attempt-Drained exceeds_limit next p ps now l others =
      let (l', result, d) = others l in
      (
        l',
        result,
        record {
          gone = p ∷ d.gone;
          new = d.new;
          split = ap (◌∷◌ p) d.split;
          outputs = d.outputs;
          part = skip p.packet d.new (packets_of d.gone) d.part;
          limit = d.limit;
          later = d.later;
          armed = d.armed;
        },
      )

  drain_queue-Drained :
      (ps : List QueuedPacket) (now : ℕ) (l : EmulatedLink patterns)
      → EnqueuedBy now ps
      → (l' : EmulatedLink patterns) × (drain_queue patterns ps now l ≡ ok l') × Drained now ps l l'
  unfolding drain_queue
  drain_queue-Drained [] now l came = (
    record l { queue = [] },
    refl,
    record {
      gone = [];
      new = [];
      split = refl;
      outputs = sym (append-nil l.output);
      part = nothing;
      limit = refl;
      later = inl refl;
      armed = λ off. rw off tt;
    },
  )
  drain_queue-Drained (p ∷ ps) now l came = elim (Bool-cases (ltb now p.bandwidth_eligible_at)) [
    | inl e ↦ (
      schedule_drain_at patterns p.bandwidth_eligible_at now (record l { queue = p ∷ ps }),
      rw e refl,
      stays-Drained now p.bandwidth_eligible_at (p ∷ ps) l.network_emulator l (ground (arith, e)),
    )
    | inr e ↦
        let timely : ltb now p.enqueued_at ≡ false = ground (arith, came.0) in
        let tried =
          patterns.try_send l.network_emulator now p.packet.length_packet_bits
            (now - p.enqueued_at) in
        let (l', result, d) =
          after_attempt-Drained tried.0 (drain_queue patterns ps now) p ps now
            (record l { network_emulator = tried.1 })
            (λ l0. drain_queue-Drained ps now l0 came.1) in
        (
          l',
          rw (e, timely) result,
          record {
            gone = d.gone;
            new = d.new;
            split = d.split;
            outputs = d.outputs;
            part = d.part;
            limit = d.limit;
            later = d.later;
            armed = d.armed;
          },
        )
  ]

  length_tail : (xs ys : List QueuedPacket) → length ys ≤ length (xs ++ ys)
  length_tail xs ys = omega (arith, length-append xs ys)

  left_enqueued :
      (now : ℕ) (xs ys : List QueuedPacket) → EnqueuedBy now (xs ++ ys) → EnqueuedBy now ys
  left_enqueued now [] ys e = e
  left_enqueued now (x ∷ xs) ys e = left_enqueued now xs ys e.1

  -- A drain of a link within its limit, filled up to now, does not panic, whatever drains are marked or
  -- scheduled: it leaves the link sound. The packets that leave the queue are its first ones, those that
  -- are sent are among them in their order, and if any stay, the next drain is scheduled, at least a
  -- nanosecond later.
  pub drain-IsAwake :
      (now : ℕ) (l : EmulatedLink patterns)
      → IsHeld patterns now l
      → (l' : EmulatedLink patterns) × (drain patterns now l ≡ ok l')
        × IsAwake patterns now l'
        × Drained now l.queue (record l { next_flush_scheduled = none }) l'
  unfolding drain
  drain-IsAwake now l a =
      let (l', result, d) =
        drain_queue-Drained l.queue now (record l { next_flush_scheduled = none }) a.came in
      (
        l',
        result,
        record {
          held = record {
            bounded =
                omega (arith, a.bounded, ap length d.split, length_tail d.gone l'.queue, d.limit);
            came = left_enqueued now d.gone l'.queue (rw (sym d.split) a.came);
          };
          awake = elim d.later [
            | inl none_left ↦ inl none_left
            | inr (wake_at, event, pending, _, _, _) ↦ inr (wake_at, pending)
          ];
          armed = d.armed refl;
        },
        d,
      )
