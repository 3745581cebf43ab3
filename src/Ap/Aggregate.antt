-- ===== src/Ap/Aggregate.antt =====
-- The aggregation loop of `build_new_ampdu` (models_mm1k.rs): packets of one flow are taken from the
-- queues of the station and category, the link's own first, until the next one would break a limit.
-- The airtime (`airtime_ampdu`), its comparison with the limits and its rounding to a duration are in
-- `f64`, and a parameter. The copies that go into the A-MPDU and those of `taken_snapshot` are the
-- same, in the same order, and are kept once, with the key of their queue.
use si_est_a_vr.Common.{
  ℕ, ◌+◌, ◌-◌, Bool, true, false, not, ◌&&◌, ◌||◌, ◌==◌, ltb, if◌then◌else◌, Option, none, some,
  List, [], ◌∷◌, ◌++◌, map, Outcome, ok, panic, ◌>>=◌, lookup,
}
use si_est_a_vr.Mac.Edca.{EdcaAc, MacKey}
use si_est_a_vr.Mac.Backoff.{DcfStats}
use si_est_a_vr.Mac.Medium.{Medium}
use si_est_a_vr.Mac.Virtual.{same_key}
use si_est_a_vr.Mac.Tick.{NoError}
use si_est_a_vr.Ap.Packets.{MpduPacket, str_plus_mode_mlo}
use si_est_a_vr.Ap.State.{QueueModule, Deques, deque_at, need}

-- `airtime lengths from to width` is the airtime of MPDUs of these lengths and the MCS; `at_limit
-- time txop` compares it with the largest aggregate and with the category's limit in µs.
pub record Radio : Type 1 where
  pub Seconds : Type 0
  pub no_seconds : Seconds
  pub airtime : List ℕ → ℕ → ℕ → ℕ → Seconds × ℕ
  pub at_limit : Seconds → ℕ → Bool
  pub to_duration : Seconds → ℕ
  pub coords_queue : ℕ
  -- `rng.gen() <= PL_probability`, and the generator's next state.
  pub loses : ℕ → Bool × ℕ

-- `dcf(key)`.
abbrev pub dcf : MacKey → List DcfStats → Outcome NoError DcfStats
dcf key [] = panic
dcf key (st ∷ sts) = let rest = dcf key sts in if same_key st.mac_key key then ok st else rest

-- The flow that is served, and the link.
pub record Flow : Type 0 where
  pub up : Bool
  pub target_dest_id : ℕ
  pub mac_key : MacKey
  pub channel_width : ℕ
  pub txop_limit_us : ℕ

module _ (radio : Radio) where
  -- What the loop has taken so far.
  pub record Taking : Type 0 where
    pub taken_snapshot : List (MacKey × MpduPacket)
    pub total_length : ℕ
    pub size : ℕ
    pub flow_backlog : ℕ
    pub resultz : radio.Seconds
    pub mcs_assigned : ℕ
    pub last_service_duration : ℕ
    pub deque_sources : List (MacKey × ℕ)

  -- The airtime with one more packet. Downwards, a station without coordinates panics.
  unfoldable pub airtime_with :
      QueueModule → Flow → Taking → MpduPacket → Outcome NoError (radio.Seconds × ℕ)
  airtime_with q flow t p =
      let lengths =
        map (λ (k, x). x.length_packet_bits) t.taken_snapshot ++ p.length_packet_bits ∷ [] in
      if flow.up
      then ok (radio.airtime lengths p.sta_src_coords radio.coords_queue flow.channel_width)
      else need (lookup p.sta_dest_id q.sta_coords_map) >>= (λ dest_coords.
        ok (radio.airtime lengths radio.coords_queue dest_coords flow.channel_width))

  unfoldable pub take_packet : ℕ → Flow → MacKey → MpduPacket → radio.Seconds → Taking → Taking
  take_packet now flow key p result t = record t {
    taken_snapshot =
        t.taken_snapshot
        ++ (
          key,
          record p {
            queue_length_when_out = t.flow_backlog;
            queue_out_instant = now;
            t_q = now - p.queue_in_instant;
            mac_key_cached = some flow.mac_key;
          },
        )
          ∷ [];
    flow_backlog = t.flow_backlog - 1;
    total_length = t.total_length + p.length_packet_bits;
    size = t.size + 1;
    last_service_duration = radio.to_duration result;
  }

  -- One queue, from a position on, with the number of packets taken from it; true at a limit.
  unfoldable pub take_from :
      ℕ
      → QueueModule
      → Flow
      → MacKey
      → List MpduPacket
      → ℕ
      → Taking
      → Outcome NoError (Taking × ℕ × Bool)
  take_from now q flow key [] taken t = ok (t, taken, false)
  take_from now q flow key (p ∷ ps) taken t =
      let next = take_from now q flow key ps in
      if not flow.up && not (p.sta_dest_id == flow.target_dest_id)
      then next taken t
      else airtime_with q flow t p >>= (λ (result, mcs).
        let t' : Taking = record t { resultz = result; mcs_assigned = mcs } in
        if radio.at_limit result flow.txop_limit_us || ltb q.packs_per_ampdu (t.size + 1)
        then ok (t', taken, true)
        else next (taken + 1) (take_packet now flow key p result t'))

  abbrev pub note_source : MacKey → ℕ → Taking → Taking
  note_source key taken t =
      if ltb 0 taken then record t { deque_sources = t.deque_sources ++ (key, taken) ∷ [] } else t

  unfoldable pub take_from_all :
      ℕ → QueueModule → Flow → List MacKey → Taking → Outcome NoError Taking
  take_from_all now q flow [] t = ok t
  take_from_all now q flow (key ∷ keys) t = do
    deque ← need (deque_at key q.deques)
    (t', taken, stop) ← take_from now q flow key deque 0 t
    if stop
        then ok (note_source key taken t')
        else take_from_all now q flow keys (note_source key taken t')

-- The other links, sorted.
abbrev pub insert_link : ℕ → List ℕ → List ℕ
insert_link l [] = l ∷ []
insert_link l (k ∷ ks) = let rest = insert_link l ks in if ltb k l then k ∷ rest else l ∷ k ∷ ks

abbrev pub other_links : ℕ → List (ℕ × Medium) → List ℕ
other_links link [] = []
other_links link ((l, m) ∷ ms) =
    let rest = other_links link ms in if l == link then rest else insert_link l rest

abbrev pub has_packets : Option (List MpduPacket) → Bool
has_packets none = false
has_packets (some []) = false
has_packets (some (p ∷ ps)) = true

abbrev pub alternatives : ℕ → EdcaAc → List ℕ → Deques → List MacKey
alternatives sta ac [] ds = []
alternatives sta ac (l ∷ ls) ds =
    let rest = alternatives sta ac ls ds in
    if has_packets (deque_at (sta, ac, l) ds) then (sta, ac, l) ∷ rest else rest

-- The queues to take from: the link's own, and in the STR+ mode the others that are not empty.
unfoldable pub source_keys : MacKey → QueueModule → List MacKey
source_keys (sta, ac, link) q =
    if str_plus_mode_mlo
    then (sta, ac, link) ∷ alternatives sta ac (other_links link q.link_mediums) q.deques
    else (sta, ac, link) ∷ []
