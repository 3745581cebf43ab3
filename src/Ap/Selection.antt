-- ===== src/Ap/Selection.antt =====
-- What the strategies choose (models_mm1k.rs, `select_link_for_packet` and the functions it calls).
use si_est_a_vr.Common.{
  ℕ, ◌≤◌, ◌<◌, ◌≡◌, refl, ◌⊎◌, inl, inr, Bool, true, false, ltb, some, List, [], ◌∷◌, arith,
  Bool-cases, if_elim,
}
use si_est_a_vr.Ap.State.{QueueModule, get_link_queue_depth}
use si_est_a_vr.Ap.Links.{
  usize_max, link_is_idle, shortest_queue, select_mlo_channel_lyapunov_backpressure, first_idle,
  select_mlo_channel_primary_first, Coin, choose_idle, select_mlo_channel_opportunistic,
}

abbrev pub OneOf : ℕ → List ℕ → Type 0
OneOf link [] = ⊥
OneOf link (l ∷ ls) = (link ≡ l) ⊎ OneOf link ls

-- Every link's depth is at least `n`, and is a `usize`.
abbrev pub Deeper : ℕ → List ℕ → QueueModule → Type 0
Deeper n [] q = Unit
Deeper n (l ∷ ls) q = (n ≤ get_link_queue_depth l q) × Deeper n ls q

abbrev pub Usize : List ℕ → QueueModule → Type 0
Usize [] q = Unit
Usize (l ∷ ls) q = (get_link_queue_depth l q ≤ usize_max) × Usize ls q

-- None of the links is idle.
abbrev pub AllBusy : ℕ → QueueModule → List ℕ → Type 0
AllBusy now q [] = Unit
AllBusy now q (l ∷ ls) = (link_is_idle now q l ≡ false) × AllBusy now q ls

pub record Found (q : QueueModule) (links : List ℕ) (min_depth selected : ℕ) : Type 0 where
  pub link : ℕ
  pub result : shortest_queue q links min_depth selected ≡ link
  pub from : (link ≡ selected) ⊎ OneOf link links
  pub depth : ℕ
  pub least : depth ≤ min_depth
  pub deeper : Deeper depth links q
  pub attained : ((link ≡ selected) × (depth ≡ min_depth)) ⊎ (get_link_queue_depth link q ≡ depth)

pub shortest_queue-Found :
    (q : QueueModule) (links : List ℕ) (min_depth selected : ℕ) → Found q links min_depth selected
shortest_queue-Found q [] min_depth selected = record {
  link = selected;
  result = refl;
  from = inl refl;
  depth = min_depth;
  least = omega arith;
  deeper = tt;
  attained = inl (refl, refl);
}
shortest_queue-Found q (l ∷ ls) min_depth selected =
    elim (Bool-cases (ltb (get_link_queue_depth l q) min_depth)) [
      | inl e ↦
          let rest = shortest_queue-Found q ls (get_link_queue_depth l q) l in
          record {
            link = rest.link;
            result = rw e rest.result;
            from = inr rest.from;
            depth = rest.depth;
            least = ground (arith, e, rest.least);
            deeper = (rest.least, rest.deeper);
            attained = inr (elim rest.attained [ inl (same, d) ↦ rw (same, d) refl | inr d ↦ d ]);
          }
      | inr e ↦
          let rest = shortest_queue-Found q ls min_depth selected in
          record {
            link = rest.link;
            result = rw e rest.result;
            from = elim rest.from [ inl same ↦ inl same | inr one ↦ inr (inr one) ];
            depth = rest.depth;
            least = rest.least;
            deeper = (ground (arith, e, rest.least), rest.deeper);
            attained = rest.attained;
          }
    ]

less_deep : (m n : ℕ) (ls : List ℕ) (q : QueueModule) → m ≤ n → Deeper n ls q → Deeper m ls q
less_deep m n [] q h deep = tt
less_deep m n (l ∷ ls) q h deep = (omega (arith, deep.0), less_deep m n ls q h deep.1)

-- Among a station's links, with depths that are `usize`, the backpressure strategy takes one, and
-- no link has a shorter queue.
pub lyapunov_lem :
    (l : ℕ) (ls : List ℕ) (q : QueueModule)
    → Usize (l ∷ ls) q
    → (link : ℕ) × (select_mlo_channel_lyapunov_backpressure (l ∷ ls) q ≡ some link)
      × OneOf link (l ∷ ls)
      × Deeper (get_link_queue_depth link q) (l ∷ ls) q
unfolding select_mlo_channel_lyapunov_backpressure
lyapunov_lem l [] q h = (l, refl, inl refl, (omega arith, tt))
lyapunov_lem l (k ∷ ls) q h =
    let found = shortest_queue-Found q (l ∷ k ∷ ls) usize_max l in
    let attained_le : ((found.link ≡ l) × (found.depth ≡ usize_max))
          ⊎ (get_link_queue_depth found.link q ≡ found.depth)
        → get_link_queue_depth found.link q ≤ found.depth =
      elim [ inl (same, d) ↦ rw (same, d) h.0 | inr d ↦ omega (arith, d) ] in
    (
      found.link,
      rw found.result refl,
      elim found.from [ inl same ↦ inl same | inr one ↦ one ],
      less_deep (get_link_queue_depth found.link q) found.depth (l ∷ k ∷ ls) q
          (attained_le found.attained) found.deeper,
    )

-- An idle link of the list, or the primary one where none of the list is idle.
first_idle_lem :
    (now : ℕ) (q : QueueModule) (ls : List ℕ) (primary : ℕ)
    → (OneOf (first_idle now q ls primary) ls
        × (link_is_idle now q (first_idle now q ls primary) ≡ true))
      ⊎ ((first_idle now q ls primary ≡ primary) × AllBusy now q ls)
first_idle_lem now q [] primary = inr (refl, tt)
first_idle_lem now q (l ∷ ls) primary =
    if_elim
      (λ link.
        (OneOf link (l ∷ ls) × (link_is_idle now q link ≡ true))
        ⊎ ((link ≡ primary) × AllBusy now q (l ∷ ls)))
      (link_is_idle now q l) (λ e. inl (inl refl, e))
      (λ e. elim (first_idle_lem now q ls primary) [
        | inl (one, idle) ↦ inl (inr one, idle)
        | inr (same, busy) ↦ inr (same, (e, busy))
      ])

-- The primary-first strategy takes one of the station's links. It takes the first unless that link
-- is busy and has ten packets or more; then it takes one that is idle, if any of the others is.
pub primary_first_lem :
    (primary : ℕ) (others : List ℕ) (now : ℕ) (q : QueueModule)
    → (link : ℕ) × (select_mlo_channel_primary_first (primary ∷ others) now q ≡ some link)
      × (((link ≡ primary)
            × ((link_is_idle now q primary ≡ true)
                ⊎ ((get_link_queue_depth primary q < 10) ⊎ AllBusy now q others)))
          ⊎ (OneOf link others
              × (link_is_idle now q link ≡ true)
              × (link_is_idle now q primary ≡ false)
              × (10 ≤ get_link_queue_depth primary q)))
unfolding select_mlo_channel_primary_first
primary_first_lem primary others now q = elim (Bool-cases (link_is_idle now q primary)) [
  | inl e ↦ (primary, rw e refl, inl (refl, inl e))
  | inr e ↦ elim (Bool-cases (ltb (get_link_queue_depth primary q) 10)) [
    | inl f ↦ (primary, rw (e, f) refl, inl (refl, inr (inl (ground (arith, f)))))
    | inr f ↦ (
      first_idle now q others primary,
      rw (e, f) refl,
      elim (first_idle_lem now q others primary) [
        | inl (one, idle) ↦ inr (one, idle, e, ground (arith, f))
        | inr (same, busy) ↦ inl (same, inr (inr busy))
      ],
    )
  ]
]

module _ (flip : Coin) where
  choose_idle_lem :
      (a_idle b_idle : Bool) (a b rng : ℕ)
      → ((choose_idle flip a_idle b_idle a b rng).0 ≡ a) × ((a_idle ≡ true) ⊎ (b_idle ≡ false))
        ⊎ ((choose_idle flip a_idle b_idle a b rng).0 ≡ b) × ((b_idle ≡ true) ⊎ (a_idle ≡ false))
  choose_idle_lem true true a b rng = elim (Bool-cases (flip rng).0) [
    | inl e ↦ inl (rw e refl, inl refl)
    | inr e ↦ inr (rw e refl, inl refl)
  ]
  choose_idle_lem true false a b rng = inl (refl, inl refl)
  choose_idle_lem false true a b rng = inr (refl, inl refl)
  choose_idle_lem false false a b rng = elim (Bool-cases (flip rng).0) [
    | inl e ↦ inl (rw e refl, inr refl)
    | inr e ↦ inr (rw e refl, inr refl)
  ]

  -- Of a station's links the opportunistic strategy takes one of the first two, and one that is busy
  -- only if the other of the two is busy as well.
  pub opportunistic_lem :
      (a b : ℕ) (ls : List ℕ) (now : ℕ) (q : QueueModule)
      → (link : ℕ) × ((select_mlo_channel_opportunistic flip (a ∷ b ∷ ls) now q).0 ≡ some link)
        × (((link ≡ a) × ((link_is_idle now q a ≡ true) ⊎ (link_is_idle now q b ≡ false)))
            ⊎ ((link ≡ b) × ((link_is_idle now q b ≡ true) ⊎ (link_is_idle now q a ≡ false))))
  unfolding select_mlo_channel_opportunistic
  opportunistic_lem a b ls now q = (
    (choose_idle flip (link_is_idle now q a) (link_is_idle now q b) a b q.link_rng).0,
    refl,
    choose_idle_lem (link_is_idle now q a) (link_is_idle now q b) a b q.link_rng,
  )
