-- ===== src/Emu/Link.antt =====
-- `EmulatedLink` and `QueueMechanism` (models_mm1k.rs). The patterns, token buckets in `f64`, are a
-- parameter with a state of its own; the packets that are sent are a list, and so are the instants of the
-- drains that are scheduled, the last first: one that fires is taken off by the simulator. The log is
-- left out. Times are nanoseconds.
use si_est_a_vr.Common.{
  ℕ, ◌+◌, ◌-◌, max, ltb, leb, if◌then◌else◌, Option, none, some, List, [], ◌∷◌, ◌++◌, length,
  Outcome, ok, panic,
}
use si_est_a_vr.Mac.Tick.{NoError}
use si_est_a_vr.Ap.Packets.{MpduPacket}

pub data EnqueueOutcome : Type 0 where
  queued dropped : EnqueueOutcome

pub data ArrivalOutcome : Type 0 where
  drop : ArrivalOutcome
  delay : ℕ → ArrivalOutcome

pub data BandwidthOutcome : Type 0 where
  sent exceeds_limit : BandwidthOutcome
  wait : ℕ → BandwidthOutcome

-- `apply_arrival_effects`, and `try_send_bandwidth` with the bits and the time waited so far.
pub record Patterns : Type 1 where
  pub State : Type 0
  pub arrival : State → MpduPacket → ℕ → ArrivalOutcome × State
  pub try_send : State → ℕ → ℕ → ℕ → BandwidthOutcome × State

pub record QueuedPacket : Type 0 where
  pub packet : MpduPacket
  pub enqueued_at : ℕ
  pub bandwidth_eligible_at : ℕ

-- The first instant that does not fit a `TaiTime`, whose seconds are an `i64`.
abbrev pub tai_limit : ℕ
tai_limit = 9223372036854775808000000000

-- `t.checked_add(d).unwrap_or(t)`.
abbrev pub add_or_stay : ℕ → ℕ → ℕ
add_or_stay t d = if ltb (t + d) tai_limit then t + d else t

module _ (patterns : Patterns) where
  pub record EmulatedLink : Type 0 where
    pub queue : List QueuedPacket
    pub network_emulator : patterns.State
    pub max_queue_size : ℕ
    pub next_flush_scheduled : Option ℕ
    pub output : List MpduPacket
    pub scheduled : List ℕ

  -- The deadline that the packet brings is `emulated_added_delay_deadline`.
  abbrev pub nic_floor : Option ℕ → ℕ → ℕ
  nic_floor none now = now
  nic_floor (some deadline) now = max deadline now

  abbrev pub enqueue_delayed :
      MpduPacket → Option ℕ → ℕ → ArrivalOutcome → EmulatedLink → EnqueueOutcome × EmulatedLink
  enqueue_delayed p deadline now drop l = (dropped, l)
  enqueue_delayed p deadline now (delay jitter_extra) l =
      if leb l.max_queue_size (length l.queue) then (dropped, l) else (
        queued,
        record l {
          queue =
              l.queue
              ++ record {
                packet = p;
                enqueued_at = now;
                bandwidth_eligible_at = add_or_stay (nic_floor deadline now) jitter_extra;
              }
                ∷ [];
        },
      )

  unfoldable pub enqueue : MpduPacket → Option ℕ → ℕ → EmulatedLink → EnqueueOutcome × EmulatedLink
  enqueue p deadline now l =
      let (outcome, state) = patterns.arrival l.network_emulator p now in
      enqueue_delayed p deadline now outcome (record l { network_emulator = state })

  unfoldable pub schedule_drain_at : ℕ → ℕ → EmulatedLink → EmulatedLink
  schedule_drain_at wake_at now l = record l {
    next_flush_scheduled = some wake_at;
    scheduled = (now + max (wake_at - now) 1) ∷ l.scheduled;
  }

  abbrev pub wake_for : EnqueueOutcome → Option ℕ → ℕ → EmulatedLink → EmulatedLink
  wake_for dropped pending now l = l
  wake_for queued (some t) now l = l
  wake_for queued none now l = schedule_drain_at now now l

  unfoldable pub input : MpduPacket → Option ℕ → ℕ → EmulatedLink → EmulatedLink
  input p deadline now l =
      let (outcome, l') = enqueue p deadline now l in
      wake_for outcome l'.next_flush_scheduled now l'

  -- What the loop of `drain` does with the front packet after `try_send_bandwidth`.
  abbrev pub after_attempt :
      BandwidthOutcome
      → (EmulatedLink → Outcome NoError EmulatedLink)
      → QueuedPacket
      → List QueuedPacket
      → ℕ
      → EmulatedLink
      → Outcome NoError EmulatedLink
  after_attempt sent next front rest now l =
      next (record l { output = l.output ++ front.packet ∷ [] })
  after_attempt (wait retry_in) next front rest now l =
      ok (schedule_drain_at (add_or_stay now retry_in) now (record l { queue = front ∷ rest }))
  after_attempt exceeds_limit next front rest now l = next l

  -- The loop on the packets of the queue. A packet that was enqueued after `now` panics in
  -- `duration_since`.
  unfoldable pub drain_queue : List QueuedPacket → ℕ → EmulatedLink → Outcome NoError EmulatedLink
  drain_queue [] now l = ok (record l { queue = [] })
  drain_queue (front ∷ rest) now l =
      let next = drain_queue rest now in
      if ltb now front.bandwidth_eligible_at
      then ok
          (schedule_drain_at front.bandwidth_eligible_at now (record l { queue = front ∷ rest }))
      else (if ltb now front.enqueued_at
          then panic
          else (let (outcome, state) =
                patterns.try_send l.network_emulator now front.packet.length_packet_bits
                  (now - front.enqueued_at) in
              after_attempt outcome next front rest now (record l { network_emulator = state })))

  unfoldable pub drain : ℕ → EmulatedLink → Outcome NoError EmulatedLink
  drain now l = drain_queue l.queue now (record l { next_flush_scheduled = none })
