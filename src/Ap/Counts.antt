-- ===== src/Ap/Counts.antt =====
-- What the queues hold and what is counted (models_mm1k.rs, `active_mac_key_counts`).
use si_est_a_vr.Common.{
  ℕ, ◌+◌, ◌≤◌, ◌==◌, ◌≡◌, refl, sym, ap, ◌∙◌, true, ◌&&◌, if◌then◌else◌, Option, none, some, List,
  [], ◌∷◌, length, arith, inl, inr, Bool-cases, if_elim,
}
use si_est_a_vr.Mac.Edca.{EdcaAc, MacKey, ac_prio}
use si_est_a_vr.Mac.Virtual.{same_key}
use si_est_a_vr.Ap.Packets.{MpduPacket, ap_id, owner_of}
use si_est_a_vr.Ap.State.{Deques, QueueModule, deque_at, set_deque, same_ac}

-- `n` if the key belongs to the station and the category, else 0.
abbrev pub weight : ℕ → EdcaAc → MacKey → ℕ → ℕ
weight sta ac key n = if sta == key.0 && same_ac ac key.1 then n else 0

-- The packets that wait for a station in a category, on all links.
abbrev pub total : ℕ → EdcaAc → Deques → ℕ
total sta ac [] = 0
total sta ac ((k, d) ∷ ds) = weight sta ac k (length d) + total sta ac ds

-- Every packet is in a queue of its owner and its category.
abbrev pub Belong : MacKey → List MpduPacket → Type 0
Belong key [] = Unit
Belong key (p ∷ ps) = ((owner_of p ≡ key.0) × (p.edca_ac ≡ key.1)) × Belong key ps

abbrev pub limit : ℕ → ℕ → MacKey → ℕ
limit dl ul key = if key.0 == ap_id then dl else ul

abbrev pub Placed : ℕ → ℕ → Deques → Type 0
Placed dl ul [] = Unit
Placed dl ul ((k, d) ∷ ds) = (Belong k d × (length d ≤ limit dl ul k)) × Placed dl ul ds

-- The counts are those of the queues, no queue is over its limit, and packets are where they belong.
pub record IsValid (q : QueueModule) : Type 0 where
  pub counted : (sta : ℕ) (ac : EdcaAc) → q.active_mac_key_counts sta ac ≡ total sta ac q.deques
  pub placed : Placed q.queue_maxsize_dl q.ul_capacity_queue_device q.deques

ac_prio-injective : (a b : EdcaAc) → ac_prio a ≡ ac_prio b → a ≡ b
unfolding ac_prio
ac_prio-injective a b h = ground arith

pub same_key→eq : (k key : MacKey) → same_key k key ≡ true → k ≡ key
same_key→eq (s, a, l) (s', a', l') e =
    let stations : s ≡ s' = ground (arith, e) in
    let categories : a ≡ a' = ac_prio-injective a a' (ground (arith, e)) in
    let links : l ≡ l' = ground (arith, e) in rw (stations, categories, links) refl

weight-same_key :
    (sta : ℕ) (ac : EdcaAc) (k key : MacKey) (n : ℕ)
    → same_key k key ≡ true
    → weight sta ac k n ≡ weight sta ac key n
weight-same_key sta ac k key n e = ground (arith, e)

pub deque_at-hit :
    (k key : MacKey) (d : List MpduPacket) (ds : Deques)
    → same_key k key ≡ true
    → deque_at key ((k, d) ∷ ds) ≡ some d
deque_at-hit k key d ds e = rw e refl

-- The length of the deque that is found, 0 if none is.
abbrev found_length : Option (List MpduPacket) → ℕ
found_length none = 0
found_length (some d) = length d

pub total-set_deque :
    (sta : ℕ) (ac : EdcaAc) (key : MacKey) (old new : List MpduPacket) (ds : Deques)
    → deque_at key ds ≡ some old
    → total sta ac (set_deque key new ds) + weight sta ac key (length old)
      ≡ total sta ac ds + weight sta ac key (length new)
total-set_deque sta ac key old new [] h = absurd (ground (arith, h))
total-set_deque sta ac key old new ((k, d) ∷ ds) h = elim (Bool-cases (same_key k key)) [
  | inl e ↦
      let same : length d ≡ length old = ap found_length (sym (deque_at-hit k key d ds e) ∙ h) in
      rw e (
        ground (
          arith,
          same,
          weight-same_key sta ac k key (length new) e,
          weight-same_key sta ac k key (length d) e,
        ))
  | inr e ↦ rw e (omega (arith, total-set_deque sta ac key old new ds (sym (rw e refl) ∙ h)))
]

pub Placed-set_deque :
    (dl ul : ℕ) (key : MacKey) (new : List MpduPacket) (ds : Deques)
    → Placed dl ul ds
    → Belong key new
    → length new ≤ limit dl ul key
    → Placed dl ul (set_deque key new ds)
Placed-set_deque dl ul key new [] placed b h = tt
Placed-set_deque dl ul key new ((k, d) ∷ ds) placed b h =
    if_elim (Placed dl ul) (same_key k key) (λ e. rw (same_key→eq k key e) ((b, h), placed.1))
      (λ e. (placed.0, Placed-set_deque dl ul key new ds placed.1 b h))

pub deque_at-set_deque :
    (key : MacKey) (old new : List MpduPacket) (ds : Deques)
    → deque_at key ds ≡ some old
    → deque_at key (set_deque key new ds) ≡ some new
deque_at-set_deque key old new [] h = absurd (ground (arith, h))
deque_at-set_deque key old new ((k, d) ∷ ds) h = elim (Bool-cases (same_key k key)) [
  | inl e ↦ rw e (rw e refl)
  | inr e ↦ rw e (rw e (deque_at-set_deque key old new ds (sym (rw e refl) ∙ h)))
]
