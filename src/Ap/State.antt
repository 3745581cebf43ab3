-- ===== src/Ap/State.antt =====
-- `QueueModule` (models_mm1k.rs): the state of the access point, its queues and the count of what is
-- in them. `mac_key_index` and `per_flow_queues` are one association list from the key to its deque;
-- `active_mac_key_counts` is a function, 0 for a key that the map lacks. Of `StaRateInfo` the packet
-- count is kept, the others being statistics in `f64`. Counters of type `usize` are unbounded. The
-- simulator's scheduler is the list of the events that it was given, the last first.
use si_est_a_vr.Common.{
  ℕ, ◌+◌, ◌-◌, ◌==◌, Bool, true, false, not, ◌&&◌, ◌||◌, if◌then◌else◌, Option, none, some, List,
  [], ◌∷◌, length, Outcome, ok, panic, lookup,
}
use si_est_a_vr.Mac.Edca.{EdcaAc, MacKey, ac_prio}
use si_est_a_vr.Mac.Backoff.{DcfStats}
use si_est_a_vr.Mac.Medium.{Medium}
use si_est_a_vr.Mac.Tick.{NoError}
use si_est_a_vr.Mac.Virtual.{same_key}
use si_est_a_vr.Ap.Packets.{MpduPacket}

pub data LinkSelectionStrategy : Type 0 where
  opportunistic primary_first load_balanced quality_based : LinkSelectionStrategy
  round_robin lowest_latency lyapunov_backpressure : LinkSelectionStrategy

abbrev pub Deques : Type 0
Deques = List (MacKey × List MpduPacket)

-- `AmpduPacket`; the sum of the padded sizes is an `f64` that the airtime reads off the packets.
pub record AmpduPacket : Type 0 where
  pub mpdu_packets : List MpduPacket
  pub total_length : ℕ
  pub sta_src_id : ℕ
  pub sta_dest_id : ℕ
  pub size : ℕ
  pub mac_key : MacKey
  pub link_id : ℕ
  pub mcs_assigned : ℕ

-- `schedule_event` with its delay, in nanoseconds.
pub data Event : Type 0 where
  deque_schedule_event : ℕ → Event
  send_ampdu_event : ℕ → AmpduPacket → Event

pub record QueueModule : Type 0 where
  pub deques : Deques
  pub dcf_values : List DcfStats
  pub link_mediums : List (ℕ × Medium)
  pub link_channel_widths : List (ℕ × ℕ)
  pub link_queue_depths : List (ℕ × ℕ)
  pub link_is_transmitting : List (ℕ × Bool)
  pub sta_capabilities : List (ℕ × List ℕ)
  pub sta_coords_map : List (ℕ × ℕ)
  pub active_mac_key_counts : ℕ → EdcaAc → ℕ
  pub sta_stats_cache : List ((ℕ × ℕ) × ℕ)
  pub arrived_packet_counter : ℕ
  pub blocked_packet_counter : ℕ
  pub queue_length_counter : ℕ
  pub queue_maxsize_dl : ℕ
  pub ul_capacity_queue_device : ℕ
  pub packs_per_ampdu : ℕ
  pub mlo_linkselection_strat : LinkSelectionStrategy
  pub slot_tick_pending : Bool
  pub ampdu_id : ℕ
  pub rng : ℕ
  pub link_rng : ℕ
  pub scheduled : List Event

abbrev pub deque_at : MacKey → Deques → Option (List MpduPacket)
deque_at key [] = none
deque_at key ((k, d) ∷ ds) = let rest = deque_at key ds in if same_key k key then some d else rest

abbrev pub set_deque : MacKey → List MpduPacket → Deques → Deques
set_deque key new [] = []
set_deque key new ((k, d) ∷ ds) =
    let rest = set_deque key new ds in if same_key k key then (k, new) ∷ ds else (k, d) ∷ rest

abbrev pub all_deques_empty : Deques → Bool
all_deques_empty [] = true
all_deques_empty ((k, []) ∷ ds) = all_deques_empty ds
all_deques_empty ((k, p ∷ ps) ∷ ds) = false

abbrev pub packets_queued : Deques → ℕ
packets_queued [] = 0
packets_queued ((k, d) ∷ ds) = length d + packets_queued ds

-- `self.per_flow_queues[self.mac_key_index[key]]`; a key that has no index panics.
abbrev pub need {ℓ} : {A : Type ℓ} → Option A → Outcome NoError A
need none = panic
need (some a) = ok a

unfoldable pub queue_depth : MacKey → QueueModule → Outcome NoError ℕ
queue_depth key q = elim (deque_at key q.deques) [ none ↦ panic | some d ↦ ok (length d) ]

-- 9 µs.
abbrev pub slot_time : ℕ
slot_time = 9000

unfoldable pub schedule_tick : QueueModule → QueueModule
schedule_tick q = if q.slot_tick_pending then q else record q {
  slot_tick_pending = true;
  scheduled = deque_schedule_event slot_time ∷ q.scheduled;
}

-- `get_link_queue_depth`, and the increment with `or_insert(0)`.
abbrev value_or_zero : Option ℕ → ℕ
value_or_zero none = 0
value_or_zero (some n) = n

unfoldable pub get_link_queue_depth : ℕ → QueueModule → ℕ
get_link_queue_depth link q = value_or_zero (lookup link q.link_queue_depths)

abbrev pub same_ac : EdcaAc → EdcaAc → Bool
same_ac a b = ac_prio a == ac_prio b

-- One more, or one less, for a station and a category; the source's subtraction saturates.
abbrev pub count_one : ℕ → EdcaAc → (ℕ → EdcaAc → ℕ) → ℕ → EdcaAc → ℕ
count_one sta ac counts s a = if s == sta && same_ac a ac then counts s a + 1 else counts s a

abbrev pub discount_one : ℕ → EdcaAc → (ℕ → EdcaAc → ℕ) → ℕ → EdcaAc → ℕ
discount_one sta ac counts s a = if s == sta && same_ac a ac then counts s a - 1 else counts s a

-- `entry(key).or_insert_with(count of 0)`, and one more.
abbrev pub count_flow : ℕ → ℕ → List ((ℕ × ℕ) × ℕ) → List ((ℕ × ℕ) × ℕ)
count_flow src dest [] = ((src, dest), 1) ∷ []
count_flow src dest (((s, d), n) ∷ fs) =
    let rest = count_flow src dest fs in
    if s == src && d == dest then ((s, d), n + 1) ∷ fs else ((s, d), n) ∷ rest

-- Some link that is not transmitting.
abbrev pub any_link_idle : List (ℕ × Bool) → Bool
any_link_idle [] = false
any_link_idle ((l, tx) ∷ ls) = not tx || any_link_idle ls
