-- ===== src/Ap/Removal.antt =====
-- Taking packets off their queues and putting some back (models_mm1k.rs, `build_new_ampdu`).
use si_est_a_vr.Common.{
  ℕ, ◌+◌, ◌≡◌, refl, sym, ap, ◌∙◌, inl, inr, true, false, some, List, [], ◌∷◌, length, length-drop,
  drop, arith, Bool-cases,
}
use si_est_a_vr.Mac.Edca.{EdcaAc, MacKey}
use si_est_a_vr.Mac.Virtual.{same_key}
use si_est_a_vr.Ap.Packets.{MpduPacket}
use si_est_a_vr.Ap.State.{Deques, deque_at, set_deque}
use si_est_a_vr.Ap.Counts.{weight, total, total-set_deque, deque_at-set_deque, same_key→eq}
use si_est_a_vr.Ap.Build.{change_deque, pop_taken, has_key}
use si_est_a_vr.Ap.Taken.{Popped, none_popped, popped, passed, sum_taken}

pub same_key_refl : (k : MacKey) → same_key k k ≡ true
same_key_refl (s, a, l) = ground arith

abbrev pub DistinctKeys : List MacKey → Type 0
DistinctKeys [] = Unit
DistinctKeys (k ∷ ks) = (has_key k ks ≡ false) × DistinctKeys ks

-- All keys are of one station and category.
abbrev pub AllOf : ℕ → EdcaAc → List MacKey → Type 0
AllOf sta ac [] = Unit
AllOf sta ac (k ∷ ks) = ((k.0 ≡ sta) × (k.1 ≡ ac)) × AllOf sta ac ks

abbrev pub Holds : MacKey → Deques → Type 0
Holds key ds = (d : List MpduPacket) × (deque_at key ds ≡ some d)

pub deque_at-set_deque_other :
    (key k : MacKey) (new : List MpduPacket) (ds : Deques)
    → same_key key k ≡ false
    → deque_at k (set_deque key new ds) ≡ deque_at k ds
deque_at-set_deque_other key k new [] h = refl
deque_at-set_deque_other key k new ((j, d) ∷ ds) h = elim (Bool-cases (same_key j key)) [
  | inl e ↦ let other : same_key j k ≡ false = rw (same_key→eq j key e) h in rw e (rw other refl)
  | inr e ↦ rw (e, deque_at-set_deque_other key k new ds h) refl
]

pub set_deque-Holds :
    (key k : MacKey) (old new : List MpduPacket) (ds : Deques)
    → deque_at key ds ≡ some old
    → Holds k ds
    → Holds k (set_deque key new ds)
set_deque-Holds key k old new ds found (d, there) = elim (Bool-cases (same_key key k)) [
  | inl e ↦ (
    new,
    ap (λ j. deque_at j (set_deque key new ds)) (sym (same_key→eq key k e))
        ∙ deque_at-set_deque key old new ds found,
  )
  | inr e ↦ (d, deque_at-set_deque_other key k new ds e ∙ there)
]

pub distinct_miss :
    (key k : MacKey) (keys : List MacKey)
    → has_key key keys ≡ false
    → has_key k keys ≡ true
    → same_key key k ≡ false
distinct_miss key k keys miss hit = elim (Bool-cases (same_key key k)) [
  | inl e ↦ absurd (ground (arith, miss, ap (λ j. has_key j keys) (same_key→eq key k e), hit))
  | inr e ↦ e
]

pub weight_of :
    (s : ℕ) (a : EdcaAc) (key : MacKey) (sta : ℕ) (ac : EdcaAc) (link n : ℕ)
    → key.0 ≡ sta
    → key.1 ≡ ac
    → weight s a key n ≡ weight s a (sta, ac, link) n
weight_of s a (x, y, z) sta ac link n h k = rw (h, k) refl

pub change_deque-found :
    (f : List MpduPacket → List MpduPacket) (key : MacKey) (d : List MpduPacket) (ds : Deques)
    → deque_at key ds ≡ some d
    → change_deque f key ds ≡ set_deque key (f d) ds
change_deque-found f key d ds found = rw (found, change_deque) refl

-- What is popped upwards leaves the totals, where the queues are as they were when it was taken.
pub total-pop_taken :
    (s : ℕ) (a : EdcaAc) (sta : ℕ) (ac : EdcaAc) (link : ℕ) (ds0 ds : Deques) (keys : List MacKey)
    (sources : List (MacKey × ℕ))
    → Popped ds0 keys sources
    → DistinctKeys keys
    → AllOf sta ac keys
    → ((k : MacKey) → has_key k keys ≡ true → deque_at k ds ≡ deque_at k ds0)
    → (total s a (pop_taken sources ds) + weight s a (sta, ac, link) (sum_taken sources)
        ≡ total s a ds)
      × ((k : MacKey) → Holds k ds → Holds k (pop_taken sources ds))
unfolding pop_taken
total-pop_taken s a sta ac link ds0 ds _ _ (none_popped keys) distinct of agree =
    (ground arith, λ k h. h)
total-pop_taken s a sta ac link ds0 ds _ _ (passed key keys sources rest) distinct of agree =
    total-pop_taken s a sta ac link ds0 ds keys sources rest distinct.1 of.1
      (λ k h. agree k (ground (arith, h)))
total-pop_taken s a sta ac link ds0 ds _ _ (popped key keys d n sources found fits rest) distinct of
      agree =
    let here : deque_at key ds ≡ some d = agree key (rw (same_key_refl key) refl) ∙ found in
    let (less, holds) =
      total-pop_taken s a sta ac link ds0 (set_deque key (drop n d) ds) keys sources rest distinct.1
        of.1
        (λ k h.
          deque_at-set_deque_other key k (drop n d) ds (distinct_miss key k keys distinct.0 h)
          ∙ agree k (ground (arith, h))) in
    let step : pop_taken ((key, n) ∷ sources) ds ≡ pop_taken sources (set_deque key (drop n d) ds) =
      ap (pop_taken sources) (change_deque-found (drop n) key d ds here) in
    (
      rw step (
          ground (
            arith,
            less,
            total-set_deque s a key d (drop n d) ds here,
            length-drop n d,
            weight_of s a key sta ac link (length d) of.0.0 of.0.1,
            weight_of s a key sta ac link (length (drop n d)) of.0.0 of.0.1,
            fits,
          )),
      λ k h. rw step (holds k (set_deque-Holds key k d (drop n d) ds here h)),
    )
