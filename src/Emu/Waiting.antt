-- ===== src/Emu/Waiting.antt =====
-- Packets that come to an emulated link (models_mm1k.rs, `EmulatedLink::input` and
-- `QueueMechanism::enqueue`).
use si_est_a_vr.Common.{
  ℕ, ◌+◌, ◌-◌, max, ◌≤◌, ◌<◌, ◌≡◌, refl, sym, ◌⊎◌, inl, inr, leb, Option, none, some, List, [], ◌∷◌,
  ◌++◌, length, length-append, arith, if_elim,
}
use si_est_a_vr.Ap.Packets.{MpduPacket}
use si_est_a_vr.Emu.Link.{
  EnqueueOutcome, queued, dropped, ArrivalOutcome, drop, delay, Patterns, QueuedPacket, add_or_stay,
  EmulatedLink, nic_floor, enqueue_delayed, enqueue, schedule_drain_at, wake_for, input,
}

abbrev pub EnqueuedBy : ℕ → List QueuedPacket → Type 0
EnqueuedBy now [] = Unit
EnqueuedBy now (p ∷ ps) = (p.enqueued_at ≤ now) × EnqueuedBy now ps

EnqueuedBy-append :
    (before now : ℕ) (ps : List QueuedPacket) (p : QueuedPacket)
    → before ≤ now
    → p.enqueued_at ≤ now
    → EnqueuedBy before ps
    → EnqueuedBy now (ps ++ p ∷ [])
EnqueuedBy-append before now [] p h k e = (k, tt)
EnqueuedBy-append before now (x ∷ xs) p h k e =
    (omega (arith, e.0), EnqueuedBy-append before now xs p h k e.1)

still_enqueued :
    (before now : ℕ) (ps : List QueuedPacket)
    → before ≤ now
    → EnqueuedBy before ps
    → EnqueuedBy now ps
still_enqueued before now [] h e = tt
still_enqueued before now (x ∷ xs) h e = (omega (arith, e.0), still_enqueued before now xs h e.1)

abbrev pub IsScheduled : ℕ → List ℕ → Type 0
IsScheduled t [] = ⊥
IsScheduled t (e ∷ es) = (t ≡ e) ⊎ IsScheduled t es

-- A drain that is marked as pending is scheduled, at that time or after it.
abbrev pub Armed : Option ℕ → List ℕ → Type 0
Armed none es = Unit
Armed (some t) es = (e : ℕ) × (t ≤ e) × IsScheduled e es

module _ (patterns : Patterns) where
  -- The queue is within its limit and came in up to now.
  pub record IsHeld (now : ℕ) (l : EmulatedLink patterns) : Type 0 where
    pub bounded : length l.queue ≤ l.max_queue_size
    pub came : EnqueuedBy now l.queue

  -- And a drain is marked as pending unless it is empty; one that is so marked is scheduled.
  pub record IsAwake (now : ℕ) (l : EmulatedLink patterns) : Type 0 where
    pub held : IsHeld now l
    pub awake : (l.queue ≡ []) ⊎ ((t : ℕ) × (l.next_flush_scheduled ≡ some t))
    pub armed : Armed l.next_flush_scheduled l.scheduled

  put_behind :
      (pending : Option ℕ) (before now : ℕ) (q : QueuedPacket) (l : EmulatedLink patterns)
      → before ≤ now
      → q.enqueued_at ≤ now
      → IsAwake before l
      → length l.queue < l.max_queue_size
      → pending ≡ l.next_flush_scheduled
      → IsAwake now (wake_for patterns queued pending now (record l { queue = l.queue ++ q ∷ [] }))
  unfolding schedule_drain_at
  put_behind none before now q l h k a room same = record {
    held = record {
      bounded = omega (arith, room, length-append l.queue (q ∷ []));
      came = EnqueuedBy-append before now l.queue q h k a.held.came;
    };
    awake = inr (now, refl);
    armed = (now + max (now - now) 1, omega arith, inl refl);
  }
  put_behind (some t) before now q l h k a room same = record {
    held = record {
      bounded = omega (arith, room, length-append l.queue (q ∷ []));
      came = EnqueuedBy-append before now l.queue q h k a.held.came;
    };
    awake = inr (t, sym same);
    armed = a.armed;
  }

  later-IsAwake :
      (before now : ℕ) (l : EmulatedLink patterns) → before ≤ now → IsAwake before l → IsAwake now l
  later-IsAwake before now l h a = record {
    held = record {
      bounded = a.held.bounded;
      came = still_enqueued before now l.queue h a.held.came;
    };
    awake = a.awake;
    armed = a.armed;
  }

  -- The packet is refused by the patterns or for lack of room, and else put behind the others.
  abbrev pub Placed :
      MpduPacket → ℕ → ArrivalOutcome → EmulatedLink patterns → EmulatedLink patterns → Type 0
  Placed p now o l l' =
      ((l'.queue ≡ l.queue) × ((o ≡ drop) ⊎ (l.max_queue_size ≤ length l.queue)))
      ⊎ ((length l.queue < l.max_queue_size)
          × (q : QueuedPacket) × (q.packet ≡ p)
          × (q.enqueued_at ≡ now)
          × (l'.queue ≡ l.queue ++ q ∷ []))

  record Arrived (o : ArrivalOutcome) (p : MpduPacket) (now : ℕ) (l l' : EmulatedLink patterns)
      : Type 0 where
    awake : IsAwake now l'
    placed : Placed p now o l l'

  wake_for-queue :
      (pending : Option ℕ) (now : ℕ) (l : EmulatedLink patterns)
      → (wake_for patterns queued pending now l).queue ≡ l.queue
  unfolding schedule_drain_at
  wake_for-queue none now l = refl
  wake_for-queue (some t) now l = refl

  enqueue_delayed-Arrived :
      (o : ArrivalOutcome) (p : MpduPacket) (deadline : Option ℕ) (before now : ℕ)
      (l : EmulatedLink patterns)
      → before ≤ now
      → IsAwake before l
      → Arrived o p now l (
          wake_for patterns
            (enqueue_delayed patterns p deadline now o l).0
            (enqueue_delayed patterns p deadline now o l).1.next_flush_scheduled
            now
            (enqueue_delayed patterns p deadline now o l).1)
  enqueue_delayed-Arrived drop p deadline before now l h a = record {
    awake = later-IsAwake before now l h a;
    placed = inl (refl, inl refl);
  }
  enqueue_delayed-Arrived (delay jitter_extra) p deadline before now l h a =
      let q : QueuedPacket = record {
        packet = p;
        enqueued_at = now;
        bandwidth_eligible_at = add_or_stay (nic_floor patterns deadline now) jitter_extra;
      } in
      let behind : EmulatedLink patterns = record l { queue = l.queue ++ q ∷ [] } in
      if_elim {A = EnqueueOutcome × EmulatedLink patterns}
        (λ r.
          Arrived (delay jitter_extra) p now l
            (wake_for patterns r.0 r.1.next_flush_scheduled now r.1))
        (leb l.max_queue_size (length l.queue)) {x = (dropped, l)} {y = (queued, behind)}
        (λ e. record {
          awake = later-IsAwake before now l h a;
          placed = inl (refl, inr (ground (arith, e)));
        })
        (λ e. record {
          awake =
              put_behind l.next_flush_scheduled before now q l h (omega arith) a (ground (arith, e))
                refl;
          placed =
              inr (
                ground (arith, e),
                q,
                refl,
                refl,
                wake_for-queue l.next_flush_scheduled now behind,
              );
        })

  -- A packet that comes in at or after the last time is put behind the others, with that time, or
  -- dropped: only where the patterns drop it or the link is full. The link stays within its limit, a
  -- drain is marked as pending whenever a packet waits, and one that is so marked is scheduled.
  pub input-IsAwake :
      (p : MpduPacket) (deadline : Option ℕ) (before now : ℕ) (l : EmulatedLink patterns)
      → before ≤ now
      → IsAwake before l
      → IsAwake now (input patterns p deadline now l)
        × Placed p now
            (patterns.arrival l.network_emulator p now).0
            l
            (input patterns p deadline now l)
  unfolding input enqueue
  input-IsAwake p deadline before now l h a =
      let done =
        enqueue_delayed-Arrived (patterns.arrival l.network_emulator p now).0 p deadline before now
          (record l { network_emulator = (patterns.arrival l.network_emulator p now).1 }) h
          (record {
            held = record { bounded = a.held.bounded; came = a.held.came };
            awake = a.awake;
            armed = a.armed;
          }) in
      (done.awake, done.placed)
