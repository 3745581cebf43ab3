-- ===== src/Ap/Strategies.antt =====
-- The link that a packet gets (models_mm1k.rs, `select_link_for_packet`), whatever the strategy.
use si_est_a_vr.Common.{ℕ, ◌≡◌, refl, inl, inr, if◌then◌else◌, Option, some, List, [], ◌∷◌, lookup}
use si_est_a_vr.Ap.Packets.{MpduPacket, is_ul}
use si_est_a_vr.Ap.State.{
  QueueModule, LinkSelectionStrategy, opportunistic, primary_first, load_balanced, quality_based,
  round_robin, lowest_latency, lyapunov_backpressure,
}
use si_est_a_vr.Ap.Links.{
  usize_max, select_mlo_channel_lyapunov_backpressure, select_mlo_channel_primary_first, Coin,
  select_mlo_channel_opportunistic, select_by_strategy, select_link_for_packet,
}
use si_est_a_vr.Ap.Selection.{OneOf, shortest_queue-Found, primary_first_lem, opportunistic_lem}

module _ (flip : Coin) where
  Chosen : List ℕ → Option ℕ × ℕ → Type 0
  Chosen links (selected, rng) = (link : ℕ) × (selected ≡ some link) × OneOf link links

  opportunistic-Chosen :
      (l k : ℕ) (ls : List ℕ) (now : ℕ) (q : QueueModule)
      → Chosen (l ∷ k ∷ ls) (select_mlo_channel_opportunistic flip (l ∷ k ∷ ls) now q)
  unfolding Chosen
  opportunistic-Chosen l k ls now q =
      let (link, result, one) = opportunistic_lem flip l k ls now q in
      (link, result, elim one [ inl (same, _) ↦ inl same | inr (same, _) ↦ inr (inl same) ])

  primary_first-Chosen :
      (l : ℕ) (ls : List ℕ) (now : ℕ) (q : QueueModule)
      → Chosen (l ∷ ls) (select_mlo_channel_primary_first (l ∷ ls) now q, q.link_rng)
  unfolding Chosen
  primary_first-Chosen l ls now q =
      let (link, result, one) = primary_first_lem l ls now q in
      (link, result, elim one [ inl (same, _) ↦ inl same | inr (other, _, _, _) ↦ inr other ])

  lyapunov-Chosen :
      (l k : ℕ) (ls : List ℕ) (q : QueueModule)
      → Chosen (l ∷ k ∷ ls) (select_mlo_channel_lyapunov_backpressure (l ∷ k ∷ ls) q, q.link_rng)
  unfolding Chosen select_mlo_channel_lyapunov_backpressure
  lyapunov-Chosen l k ls q =
      let found = shortest_queue-Found q (l ∷ k ∷ ls) usize_max l in
      (found.link, rw found.result refl, elim found.from [ inl same ↦ inl same | inr one ↦ one ])

  select_by_strategy-Chosen :
      (s : LinkSelectionStrategy) (l k : ℕ) (ls : List ℕ) (now : ℕ) (q : QueueModule)
      → Chosen (l ∷ k ∷ ls) (select_by_strategy flip s (l ∷ k ∷ ls) now q)
  unfolding select_by_strategy
  select_by_strategy-Chosen primary_first l k ls now q = primary_first-Chosen l (k ∷ ls) now q
  select_by_strategy-Chosen lyapunov_backpressure l k ls now q = lyapunov-Chosen l k ls q
  select_by_strategy-Chosen opportunistic l k ls now q = opportunistic-Chosen l k ls now q
  select_by_strategy-Chosen load_balanced l k ls now q = opportunistic-Chosen l k ls now q
  select_by_strategy-Chosen quality_based l k ls now q = opportunistic-Chosen l k ls now q
  select_by_strategy-Chosen round_robin l k ls now q = opportunistic-Chosen l k ls now q
  select_by_strategy-Chosen lowest_latency l k ls now q = opportunistic-Chosen l k ls now q

  -- A packet of a registered station that has links gets one of that station's links, under every
  -- strategy. The station is the packet's source upwards and its destination downwards.
  pub select_link_for_packet_lem :
      (pkt : MpduPacket) (l : ℕ) (ls : List ℕ) (now : ℕ) (q : QueueModule)
      → lookup (if is_ul pkt then pkt.sta_src_id else pkt.sta_dest_id) q.sta_capabilities
        ≡ some (l ∷ ls)
      → (link : ℕ) × ((select_link_for_packet flip pkt now q).0 ≡ some link) × OneOf link (l ∷ ls)
  unfolding select_link_for_packet Chosen
  select_link_for_packet_lem pkt l [] now q h = (l, rw h refl, inl refl)
  select_link_for_packet_lem pkt l (k ∷ ls) now q h =
      rw h (select_by_strategy-Chosen q.mlo_linkselection_strat l k ls now q)
