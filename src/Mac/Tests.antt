-- ===== src/Mac/Tests.antt =====
-- The theorems on contention and the medium at concrete inputs.
use si_est_a_vr.Common.{
  ℕ, ◌+◌, ◌/◌, ◌≡◌, refl, true, false, none, arith, List, [], ◌∷◌, ok, some, ◌==◌, if◌then◌else◌,
}
use si_est_a_vr.Mac.Edca.{MacKey, video, best_effort, edca_table, aifs, ac_prio}
use si_est_a_vr.Mac.Backoff.{Draw, DcfStats, IsValid, new, on_failure, on_failure-IsValid}
use si_est_a_vr.Mac.Medium.{Medium, is_idle, clear_if_idle}
use si_est_a_vr.Mac.Tick.{Contention, clear_all, is_ready, ready_on, tick_backoff}
use si_est_a_vr.Mac.Slots.{ticks, ticks_lem}
use si_est_a_vr.Mac.Rounds.{after_slots, contenders}
use si_est_a_vr.Mac.Contenders.{tick_backoff_lem}
use si_est_a_vr.Mac.Virtual.{resolve_virtual_collision}
use si_est_a_vr.Mac.Winners.{keys_at, best_at}
use si_est_a_vr.Mac.Resolved.{resolve_virtual_collision_lem}
use si_est_a_vr.Mac.Reach.{started, after, frozen, freeze, Reach-IsValid}

-- A generator that counts, and draws half its bound.
abbrev halves : Draw
halves = record {
  draw = λ state bound. (bound / 2, state + 1);
  draw_le = λ state bound. omega arith;
}

abbrev sample_key : MacKey
sample_key = (4, best_effort, 1)

-- Two failures in, half way through the count-down.
abbrev waiting : DcfStats
waiting = record {
  mac_key = sample_key;
  cw = 63;
  backoff_counter = 12;
  retry_count = 2;
  param = edca_table best_effort;
  medium_free_since = 0;
  backoff_frozen = true;
  rng = 3;
  last_backoff_drawn_logs = 31;
}

waiting-IsValid : IsValid waiting
unfolding edca_table
waiting-IsValid = record {
  cw_ge = omega arith;
  cw_le = omega arith;
  counter_le = omega arith;
  drawn_le = omega arith;
  retries_le = omega arith;
}

on_failure-IsValid_example : IsValid (on_failure halves waiting).0
on_failure-IsValid_example = on_failure-IsValid halves waiting waiting-IsValid

abbrev sample_medium : Medium
sample_medium = record {
  busy_until = 80;
  nav_until = 20;
  tx_owner = none;
  last_txop_owner = none;
  last_txop_end = 0;
  max_busy_reached = 90;
}

-- A link that is idle from 200 on.
abbrev idle_medium : Medium
idle_medium = record sample_medium { busy_until = 200; tx_owner = some sample_key }

-- Three slots to go, behind an AIFS of 43 µs.
abbrev counting : DcfStats
counting = record waiting { backoff_counter = 3; medium_free_since = 200 }

ticks_example :
    ((ticks 3 50000 idle_medium counting).backoff_counter ≡ 0)
    × (is_ready (ticks 3 50000 idle_medium counting) ≡ true)
unfolding is_idle aifs edca_table
ticks_example = ticks_lem 2 50000 idle_medium counting refl (omega arith)

-- Two stations with packets, and one without on a link that has no medium.
abbrev sample_contention : Contention
sample_contention = record {
  link_mediums = (1, idle_medium) ∷ [];
  dcf_values =
      record counting { backoff_counter = 1 }
      ∷ counting
      ∷ record counting { mac_key = (5, video, 2); backoff_counter = 0; backoff_frozen = false }
      ∷ [];
  active_mac_key_counts = λ sta ac. if sta == 4 then 2 else 0;
}

tick_backoff_example :
    (ready : List (ℕ × List MacKey)) × (tick_backoff 50000 sample_contention
      ≡ ok (
        record sample_contention {
          link_mediums = clear_all 50000 sample_contention.link_mediums;
          dcf_values =
              after_slots 50000
                (clear_all 50000 sample_contention.link_mediums)
                sample_contention.active_mac_key_counts
                sample_contention.dcf_values;
        },
        ready,
      ))
    × ((link : ℕ)
        → ready_on link ready
          ≡ contenders link 50000
              (clear_all 50000 sample_contention.link_mediums)
              sample_contention.active_mac_key_counts
              sample_contention.dcf_values)
tick_backoff_example = tick_backoff_lem 50000 sample_contention (
  (λ _. (clear_if_idle 50000 idle_medium, refl)),
  ((λ _. (clear_if_idle 50000 idle_medium, refl)), ((λ off. absurd (ground arith)), tt)),
)

-- A new station whose link is taken by another.
abbrev held_up : DcfStats
held_up = freeze 70000 (new halves video (5, video, 0) 17)

Reach-IsValid_example : IsValid held_up × (held_up.param ≡ edca_table held_up.mac_key.1)
Reach-IsValid_example = Reach-IsValid halves held_up (
    after (new halves video (5, video, 0) 17) held_up (started 5 0 17 video)
      (frozen 70000 (new halves video (5, video, 0) 17)))

-- Two categories of station 4 and one of station 5.
abbrev ready_keys : List MacKey
ready_keys = (4, best_effort, 1) ∷ (5, video, 1) ∷ (4, video, 1) ∷ []

abbrev their_states : List DcfStats
their_states =
    waiting
    ∷ record waiting { mac_key = (5, video, 1) }
    ∷ record waiting { mac_key = (4, video, 1) }
    ∷ []

resolve_virtual_collision_example :
    (winners : List MacKey) × (sts : List DcfStats) × (resolve_virtual_collision halves ready_keys
        their_states
      ≡ ok (winners, sts))
    × ((sta : ℕ) → keys_at sta winners ≡ best_at sta ready_keys)
unfolding ac_prio
resolve_virtual_collision_example =
    resolve_virtual_collision_lem halves ready_keys their_states (refl, (refl, (refl, tt)))
