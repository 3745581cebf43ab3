-- ===== src/Ap/Links.antt =====
-- The choice of a link for a packet (models_mm1k.rs, `select_link_for_packet` and its strategies).
-- `gen_bool(0.5)` is the rand crate's, over the state of `link_rng`. The log is left out.
use si_est_a_vr.Common.{
  ℕ, Bool, true, false, ltb, if◌then◌else◌, Option, none, some, List, [], ◌∷◌, lookup,
}
use si_est_a_vr.Mac.Medium.{Medium, is_idle}
use si_est_a_vr.Ap.Packets.{MpduPacket, is_ul}
use si_est_a_vr.Ap.State.{
  QueueModule, LinkSelectionStrategy, opportunistic, primary_first, load_balanced, quality_based,
  round_robin, lowest_latency, lyapunov_backpressure, get_link_queue_depth,
}

abbrev pub usize_max : ℕ
usize_max = 18446744073709551615

-- A link without a medium counts as busy.
abbrev idle_at : ℕ → Option Medium → Bool
idle_at now none = false
idle_at now (some m) = is_idle m now

abbrev pub link_is_idle : ℕ → QueueModule → ℕ → Bool
link_is_idle now q link = idle_at now (lookup link q.link_mediums)

-- The loop over the links, with the least depth and its link so far.
abbrev pub shortest_queue : QueueModule → List ℕ → ℕ → ℕ → ℕ
shortest_queue q [] min_depth selected = selected
shortest_queue q (link ∷ links) min_depth selected =
    let depth = get_link_queue_depth link q in
    shortest_queue q links (if ltb depth min_depth then depth else min_depth)
      (if ltb depth min_depth then link else selected)

unfoldable pub select_mlo_channel_lyapunov_backpressure : List ℕ → QueueModule → Option ℕ
select_mlo_channel_lyapunov_backpressure [] q = none
select_mlo_channel_lyapunov_backpressure (l ∷ []) q = some l
select_mlo_channel_lyapunov_backpressure (l ∷ k ∷ ls) q =
    some (shortest_queue q (l ∷ k ∷ ls) usize_max l)

abbrev pub first_idle : ℕ → QueueModule → List ℕ → ℕ → ℕ
first_idle now q [] primary = primary
first_idle now q (l ∷ ls) primary =
    let rest = first_idle now q ls primary in if link_is_idle now q l then l else rest

-- The source indexes the first link; its caller has more than one.
unfoldable pub select_mlo_channel_primary_first : List ℕ → ℕ → QueueModule → Option ℕ
select_mlo_channel_primary_first [] now q = none
select_mlo_channel_primary_first (primary ∷ others) now q =
    if link_is_idle now q primary
    then some primary
    else (if ltb (get_link_queue_depth primary q) 10
        then some primary
        else some (first_idle now q others primary))

-- A fair coin, and the generator's next state.
abbrev pub Coin : Type 0
Coin = ℕ → Bool × ℕ

module _ (flip : Coin) where
  -- The choice between two links, by who of them is idle.
  abbrev pub choose_idle : Bool → Bool → ℕ → ℕ → ℕ → ℕ × ℕ
  choose_idle true true a b rng = let (head, rng') = flip rng in ((if head then a else b), rng')
  choose_idle true false a b rng = (a, rng)
  choose_idle false true a b rng = (b, rng)
  choose_idle false false a b rng = let (head, rng') = flip rng in ((if head then a else b), rng')

  unfoldable pub select_mlo_channel_opportunistic : List ℕ → ℕ → QueueModule → Option ℕ × ℕ
  select_mlo_channel_opportunistic [] now q = (none, q.link_rng)
  select_mlo_channel_opportunistic (l ∷ []) now q = (some l, q.link_rng)
  select_mlo_channel_opportunistic (a ∷ b ∷ ls) now q =
      let (link, rng) = choose_idle (link_is_idle now q a) (link_is_idle now q b) a b q.link_rng in
      (some link, rng)

  -- The strategies that are not implemented fall back to the opportunistic one.
  unfoldable pub select_by_strategy :
      LinkSelectionStrategy → List ℕ → ℕ → QueueModule → Option ℕ × ℕ
  select_by_strategy primary_first links now q =
      (select_mlo_channel_primary_first links now q, q.link_rng)
  select_by_strategy lyapunov_backpressure links now q =
      (select_mlo_channel_lyapunov_backpressure links q, q.link_rng)
  select_by_strategy opportunistic links now q = select_mlo_channel_opportunistic links now q
  select_by_strategy load_balanced links now q = select_mlo_channel_opportunistic links now q
  select_by_strategy quality_based links now q = select_mlo_channel_opportunistic links now q
  select_by_strategy round_robin links now q = select_mlo_channel_opportunistic links now q
  select_by_strategy lowest_latency links now q = select_mlo_channel_opportunistic links now q

  -- By the station's links: a station that is not registered has link 0.
  abbrev pub select_among : Option (List ℕ) → ℕ → QueueModule → Option ℕ × ℕ
  select_among none now q = (some 0, q.link_rng)
  select_among (some []) now q = (none, q.link_rng)
  select_among (some (l ∷ [])) now q = (some l, q.link_rng)
  select_among (some (l ∷ k ∷ ls)) now q =
      select_by_strategy q.mlo_linkselection_strat (l ∷ k ∷ ls) now q

  -- The link, if there is one, and the next state of `link_rng`.
  unfoldable pub select_link_for_packet : MpduPacket → ℕ → QueueModule → Option ℕ × ℕ
  select_link_for_packet pkt now q =
      let sta_id = if is_ul pkt then pkt.sta_src_id else pkt.sta_dest_id in
      select_among (lookup sta_id q.sta_capabilities) now q
