-- ===== src/Ap/Service.antt =====
-- `deque_schedule_service` and `send_ampdu` (models_mm1k.rs): a slot of the access point, from the
-- overflow check to the transmission or the collision on each link, and the end of a transmission.
-- The length of a collision (`collision_delay`, in `f32`) is a parameter. The outputs are those of
-- the links that have a medium, as the constructor makes them. Statistics, the log and the viewer's
-- events are left out.
use si_est_a_vr.Common.{
  ℕ, ◌+◌, ◌%◌, Bool, true, false, not, ◌&&◌, ◌||◌, ◌==◌, ltb, if◌then◌else◌, Option, none, some,
  List, [], ◌∷◌, Outcome, ok, panic, ◌>>=◌, lookup, insert,
}
use si_est_a_vr.Mac.Edca.{EdcaAc, MacKey}
use si_est_a_vr.Mac.Backoff.{Draw, DcfStats, on_success}
use si_est_a_vr.Mac.Medium.{Medium, occupy_collision, start_txop, release_txop}
use si_est_a_vr.Mac.Tick.{NoError, Contention, tick_backoff}
use si_est_a_vr.Mac.Virtual.{same_key, fail_key, resolve_virtual_collision}
use si_est_a_vr.Mac.Reach.{freeze}
use si_est_a_vr.Ap.Packets.{MpduPacket}
use si_est_a_vr.Ap.State.{
  QueueModule, AmpduPacket, Deques, deque_schedule_event, send_ampdu_event, deque_at, need,
  all_deques_empty, schedule_tick,
}
use si_est_a_vr.Ap.Aggregate.{Radio, other_links}
use si_est_a_vr.Ap.Build.{build_new_ampdu}
use si_est_a_vr.Ap.Overflow.{drop_overflow}

-- A change of a link's medium, if it has one.
abbrev pub change_medium : (Medium → Medium) → ℕ → List (ℕ × Medium) → List (ℕ × Medium)
change_medium f link [] = []
change_medium f link ((l, m) ∷ ms) =
    let rest = change_medium f link ms in if l == link then (l, f m) ∷ ms else (l, m) ∷ rest

abbrev pub freeze_link : ℕ → ℕ → List DcfStats → List DcfStats
freeze_link link until [] = []
freeze_link link until (st ∷ sts) =
    (if st.mac_key.2 == link then freeze until st else st) ∷ freeze_link link until sts

-- The first packet: of the link's own queue, or in the STR+ mode of the first other link's that has one.
abbrev pub front_at : Option (List MpduPacket) → Option MpduPacket
front_at none = none
front_at (some []) = none
front_at (some (p ∷ ps)) = some p

abbrev pub or_front : Option MpduPacket → Option MpduPacket → Option MpduPacket
or_front (some p) other = some p
or_front none other = other

abbrev pub front_of_links : ℕ → EdcaAc → List ℕ → Deques → Option MpduPacket
front_of_links sta ac [] ds = none
front_of_links sta ac (l ∷ ls) ds =
    or_front (front_at (deque_at (sta, ac, l) ds)) (front_of_links sta ac ls ds)

-- The last test of a slot: some packet is counted on a link and for a station whose link is not
-- transmitting.
abbrev pub is_transmitting : Option Bool → Bool
is_transmitting none = false
is_transmitting (some tx) = tx

abbrev pub any_depth : List (ℕ × ℕ) → Bool
any_depth [] = false
any_depth ((l, d) ∷ ds) = ltb 0 d || any_depth ds

abbrev pub has_work : List (ℕ × Bool) → (ℕ → EdcaAc → ℕ) → List DcfStats → Bool
has_work transmitting counts [] = false
has_work transmitting counts (st ∷ sts) =
    (not (is_transmitting (lookup st.mac_key.2 transmitting))
      && ltb 0 (counts st.mac_key.0 st.mac_key.1))
    || has_work transmitting counts sts

unfoldable pub need_next_slot : QueueModule → Bool
need_next_slot q =
    any_depth q.link_queue_depths
    && has_work q.link_is_transmitting q.active_mac_key_counts q.dcf_values

abbrev pub end_txop : ℕ → ℕ → QueueModule → QueueModule
end_txop link now q = record q {
  link_mediums = change_medium (release_txop now) link q.link_mediums;
  ampdu_id = (q.ampdu_id + 1) % 4294967296;
  link_is_transmitting = insert link false q.link_is_transmitting;
}

abbrev pub wake_if_waiting : QueueModule → QueueModule
wake_if_waiting q = if all_deques_empty q.deques then q else schedule_tick q

abbrev pub sent_on : Option Medium → AmpduPacket → List AmpduPacket
sent_on none ampdu = []
sent_on (some m) ampdu = ampdu ∷ []

abbrev pub is_empty : List MpduPacket → Bool
is_empty [] = true
is_empty (p ∷ ps) = false

-- The packet that a winner sends first.
abbrev pub first_packet : MacKey → List MpduPacket → QueueModule → Option MpduPacket
first_packet (sta, ac, link) waiting q =
    or_front (front_at (some waiting))
      (front_of_links sta ac (other_links link q.link_mediums) q.deques)

module _ (radio : Radio) (r : Draw) (t_col : ℕ) where
  -- `dcf_mut(&key).on_success(cw_min)`.
  unfoldable pub succeed_key : MacKey → List DcfStats → Outcome NoError (List DcfStats)
  succeed_key key [] = panic
  succeed_key key (st ∷ sts) =
      let rest = succeed_key key sts in
      if same_key st.mac_key key
      then ok (on_success r st.param.cw_min st ∷ sts)
      else rest >>= (λ sts'. ok (st ∷ sts'))

  unfoldable pub fail_all : List MacKey → List DcfStats → Outcome NoError (List DcfStats)
  fail_all [] sts = ok sts
  fail_all (key ∷ keys) sts = fail_key r key sts >>= fail_all keys

  -- Several contenders: the collision takes the link, all of them fail, and it ends with a slot.
  unfoldable pub collide : ℕ → ℕ → List MacKey → QueueModule → Outcome NoError QueueModule
  collide now link contenders q = do
    sts ← fail_all contenders q.dcf_values
    ok (record q {
      link_mediums = change_medium (occupy_collision now (now + t_col)) link q.link_mediums;
      dcf_values = freeze_link link (now + t_col) sts;
      scheduled = deque_schedule_event t_col ∷ q.scheduled;
      slot_tick_pending = true;
    })

  -- The A-MPDU that was built goes on the air, unless it is empty or takes no time.
  unfoldable pub start_ampdu :
      ℕ → ℕ → MacKey → AmpduPacket → ℕ → QueueModule → Outcome NoError QueueModule
  start_ampdu now link winner ampdu airtime q =
      if is_empty ampdu.mpdu_packets || airtime == 0
      then fail_key r winner q.dcf_values >>= (λ sts. ok (
          schedule_tick (record q {
            link_is_transmitting = insert link false q.link_is_transmitting;
            dcf_values = sts;
          })))
      else ok (record q {
        link_mediums = change_medium (start_txop now (now + airtime) winner) link q.link_mediums;
        dcf_values = freeze_link link (now + airtime) q.dcf_values;
        scheduled = send_ampdu_event airtime ampdu ∷ q.scheduled;
      })

  -- A winner without packets starts its back-off anew.
  unfoldable pub serve_winner :
      ℕ → ℕ → MacKey → Option MpduPacket → QueueModule → Outcome NoError QueueModule
  serve_winner now link winner none q = do
    sts ← succeed_key winner q.dcf_values
    ok (record q { dcf_values = sts })
  serve_winner now link winner (some first) q = do
    (ampdu, airtime, q') ← build_new_ampdu radio first link now q
    start_ampdu now link winner (record ampdu { link_id = link }) airtime q'

  unfoldable pub serve_contenders : ℕ → ℕ → List MacKey → QueueModule → Outcome NoError QueueModule
  serve_contenders now link [] q = ok q
  serve_contenders now link ((sta, ac, l) ∷ []) q = do
    waiting ← need (deque_at (sta, ac, l) q.deques)
    serve_winner now link (sta, ac, l) (first_packet (sta, ac, l) waiting q) q
  serve_contenders now link (k ∷ j ∷ ks) q = collide now link (k ∷ j ∷ ks) q

  unfoldable pub serve_links :
      ℕ → List (ℕ × List MacKey) → QueueModule → Outcome NoError QueueModule
  serve_links now [] q = ok q
  serve_links now ((link, ready) ∷ links) q = do
    (contenders, sts) ← resolve_virtual_collision r ready q.dcf_values
    q' ← serve_contenders now link contenders (record q { dcf_values = sts })
    serve_links now links q'

  unfoldable pub deque_schedule_service : ℕ → QueueModule → Outcome NoError QueueModule
  deque_schedule_service now q = do
    let q1 = drop_overflow (record q { slot_tick_pending = false })
    let contention : Contention = record {
      link_mediums = q1.link_mediums;
      dcf_values = q1.dcf_values;
      active_mac_key_counts = q1.active_mac_key_counts;
    }
    (ticked, ready) ← tick_backoff now contention
    q2 ←
        serve_links now ready
          (record q1 { link_mediums = ticked.link_mediums; dcf_values = ticked.dcf_values })
    ok (if need_next_slot q2 then schedule_tick q2 else q2)

  -- The end of a transmission; with what goes out on the link.
  unfoldable pub send_ampdu :
      AmpduPacket → ℕ → QueueModule → Outcome NoError (List AmpduPacket × QueueModule)
  send_ampdu ampdu now q = do
    let woken = wake_if_waiting (end_txop ampdu.link_id now q)
    sts ← succeed_key ampdu.mac_key woken.dcf_values
    ok (sent_on (lookup ampdu.link_id q.link_mediums) ampdu, record woken { dcf_values = sts })
