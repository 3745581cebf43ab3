-- ===== src/Ap/Retained.antt =====
-- What leaves the queues downwards (models_mm1k.rs, `build_new_ampdu`): the packets whose source,
-- destination and id are those of a packet that was taken.
use si_est_a_vr.Common.{
  ℕ, ◌+◌, ◌≤◌, ◌==◌, ◌≡◌, refl, ap, ◌∙◌, Bool, true, ◌&&◌, some, List, [], ◌∷◌, ◌++◌, length, arith,
}
use si_est_a_vr.Mac.Edca.{EdcaAc, MacKey}
use si_est_a_vr.Ap.Packets.{MpduPacket}
use si_est_a_vr.Ap.State.{Deques, deque_at, set_deque}
use si_est_a_vr.Ap.Counts.{weight, total, total-set_deque}
use si_est_a_vr.Ap.Build.{has_key, was_taken, retain, retain_in}
use si_est_a_vr.Ap.Parts.{PartOf, nothing, keep, skip, has, hits}
use si_est_a_vr.Ap.Taken.{Ident, ident, idents, idents_of, idents_at, idents_in, Present}
use si_est_a_vr.Ap.Removal.{
  AllOf, DistinctKeys, Holds, set_deque-Holds, change_deque-found, weight_of, same_key_refl,
  deque_at-set_deque_other, distinct_miss,
}

abbrev pub same_flow_id : Ident → Ident → Bool
same_flow_id i j = i.1 == j.1 && (i.2 == j.2 && i.0 == j.0)

pub same_flow_id_refl : (i : Ident) → same_flow_id i i ≡ true
same_flow_id_refl i = ground arith

pub same_flow_id_sym : (i j : Ident) → same_flow_id i j ≡ same_flow_id j i
same_flow_id_sym i j = ground arith

pub was_taken-has :
    (p : MpduPacket) (taken : List (MacKey × MpduPacket))
    → was_taken p taken ≡ has same_flow_id (ident p) (idents_of taken)
was_taken-has p [] = refl
was_taken-has p ((key, x) ∷ xs) = rw (was_taken-has p xs) refl

length-retain :
    (taken : List (MacKey × MpduPacket)) (d : List MpduPacket)
    → length (retain taken d) + hits same_flow_id (idents_of taken) (idents d) ≡ length d
length-retain taken [] = omega arith
length-retain taken (p ∷ ps) = ground (arith, length-retain taken ps, was_taken-has p taken)

-- How many packets leave some queues.
abbrev pub leaving : List (MacKey × MpduPacket) → List MacKey → Deques → ℕ
leaving taken [] ds = 0
leaving taken (key ∷ keys) ds =
    hits same_flow_id (idents_of taken) (idents_at (deque_at key ds)) + leaving taken keys ds

pub total-retain_in :
    (s : ℕ) (a : EdcaAc) (sta : ℕ) (ac : EdcaAc) (link : ℕ) (taken : List (MacKey × MpduPacket))
    (ds0 ds : Deques) (keys : List MacKey)
    → DistinctKeys keys
    → AllOf sta ac keys
    → Present keys ds0
    → ((k : MacKey) → has_key k keys ≡ true → deque_at k ds ≡ deque_at k ds0)
    → (total s a (retain_in taken keys ds) + weight s a (sta, ac, link) (leaving taken keys ds0)
        ≡ total s a ds)
      × ((k : MacKey) → Holds k ds → Holds k (retain_in taken keys ds))
unfolding retain_in
total-retain_in s a sta ac link taken ds0 ds [] distinct of present agree = (ground arith, λ k h. h)
total-retain_in s a sta ac link taken ds0 ds (key ∷ keys) distinct of ((d, found), present) agree =
    let here : deque_at key ds ≡ some d = agree key (rw (same_key_refl key) refl) ∙ found in
    let (less, holds) =
      total-retain_in s a sta ac link taken ds0 (set_deque key (retain taken d) ds) keys distinct.1
        of.1 present
        (λ k h.
          deque_at-set_deque_other key k (retain taken d) ds (distinct_miss key k keys distinct.0 h)
          ∙ agree k (ground (arith, h))) in
    let step : retain_in taken (key ∷ keys) ds
        ≡ retain_in taken keys (set_deque key (retain taken d) ds) =
      ap (retain_in taken keys) (change_deque-found (retain taken) key d ds here) in
    (
      rw (step, found)
          (ground (
            arith,
            less,
            total-set_deque s a key d (retain taken d) ds here,
            length-retain taken d,
            weight_of s a key sta ac link (length d) of.0.0 of.0.1,
            weight_of s a key sta ac link (length (retain taken d)) of.0.0 of.0.1,
          )),
      λ k h. rw step (holds k (set_deque-Holds key k d (retain taken d) ds here h)),
    )

hits-append :
    (xs ys zs : List Ident)
    → hits same_flow_id xs (ys ++ zs) ≡ hits same_flow_id xs ys + hits same_flow_id xs zs
hits-append xs [] zs = omega arith
hits-append xs (y ∷ ys) zs = ground (arith, hits-append xs ys zs)

pub leaving-hits :
    (taken : List (MacKey × MpduPacket)) (keys : List MacKey) (ds : Deques)
    → leaving taken keys ds ≡ hits same_flow_id (idents_of taken) (idents_in keys ds)
leaving-hits taken [] ds = refl
leaving-hits taken (key ∷ keys) ds = omega (
  arith,
  leaving-hits taken keys ds,
  hits-append (idents_of taken) (idents_at (deque_at key ds)) (idents_in keys ds),
)

pub leaving-PartOf :
    (taken : List (MacKey × MpduPacket)) (ks keys : List MacKey) (ds : Deques)
    → PartOf ks keys
    → leaving taken ks ds ≤ leaving taken keys ds
leaving-PartOf taken _ _ ds nothing = omega arith
leaving-PartOf taken _ _ ds (keep k ks keys p) = omega (arith, leaving-PartOf taken ks keys ds p)
leaving-PartOf taken ks _ ds (skip k _ keys p) = omega (arith, leaving-PartOf taken ks keys ds p)
