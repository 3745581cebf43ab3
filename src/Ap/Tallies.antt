-- ===== src/Ap/Tallies.antt =====
-- Which packets the queues hold (models_mm1k.rs, `build_new_ampdu`): a tally of those that pass any
-- test says it for all of them, however often each is there.
use si_est_a_vr.Common.{
  ℕ, zero, suc, ◌+◌, ◌≡◌, refl, sym, ap, ◌∙◌, inl, inr, Bool, true, if◌then◌else◌, some, List, [],
  ◌∷◌, ◌++◌, take, drop, arith, Bool-cases,
}
use si_est_a_vr.Mac.Edca.{EdcaAc, MacKey}
use si_est_a_vr.Mac.Virtual.{same_key}
use si_est_a_vr.Ap.Packets.{MpduPacket}
use si_est_a_vr.Ap.State.{Deques, deque_at, set_deque}
use si_est_a_vr.Ap.Counts.{deque_at-hit}
use si_est_a_vr.Ap.Build.{has_key, was_taken, succeeded, retain, pop_taken, retain_in, push_failed}
use si_est_a_vr.Ap.Parts.{picked, picked-append}
use si_est_a_vr.Ap.Taken.{
  Ident, idents, idents_of, idents_at, idents_in, Present, Fronted, none_fronted, fronted, missed,
}
use si_est_a_vr.Ap.Removal.{
  DistinctKeys, change_deque-found, same_key_refl, deque_at-set_deque_other, distinct_miss,
}
use si_est_a_vr.Ap.Returned.{same_packet_id, succeeded-has, Placeable, total-push_failed}
use si_est_a_vr.Ap.Retained.{same_flow_id, was_taken-has}

-- How many pass the test.
abbrev pub count : (Ident → Bool) → List Ident → ℕ
count test [] = 0
count test (i ∷ is) = let rest = count test is in if test i then suc rest else rest

abbrev pub tally : (Ident → Bool) → Deques → ℕ
tally test [] = 0
tally test ((k, d) ∷ ds) = count test (idents d) + tally test ds

module _ (test : Ident → Bool) where
  count-append : (is js : List Ident) → count test (is ++ js) ≡ count test is + count test js
  count-append [] js = omega arith
  count-append (i ∷ is) js = ground (arith, count-append is js)

  tally-set_deque :
      (key : MacKey) (old new : List MpduPacket) (ds : Deques)
      → deque_at key ds ≡ some old
      → tally test (set_deque key new ds) + count test (idents old)
        ≡ tally test ds + count test (idents new)
  tally-set_deque key old new [] h = absurd (ground (arith, h))
  tally-set_deque key old new ((k, d) ∷ ds) h = elim (Bool-cases (same_key k key)) [
    | inl e ↦
        let same : count test (idents d) ≡ count test (idents old) =
          ap (λ o. count test (idents_at o)) (sym (deque_at-hit k key d ds e) ∙ h) in
        rw e (omega (arith, same))
    | inr e ↦ rw e (omega (arith, tally-set_deque key old new ds (sym (rw e refl) ∙ h)))
  ]

  count-take :
      (n : ℕ) (d : List MpduPacket)
      → count test (idents (take n d)) + count test (idents (drop n d)) ≡ count test (idents d)
  count-take zero d = omega arith
  count-take (suc n) [] = refl
  count-take (suc n) (p ∷ ps) = ground (arith, count-take n ps)

  -- What is popped upwards are the first packets of the queues.
  pub tally-pop_taken :
      (ds0 ds : Deques) (keys : List MacKey) (sources : List (MacKey × ℕ)) (is : List Ident)
      → Fronted ds0 keys sources is
      → DistinctKeys keys
      → ((k : MacKey) → has_key k keys ≡ true → deque_at k ds ≡ deque_at k ds0)
      → tally test (pop_taken sources ds) + count test is ≡ tally test ds
  unfolding pop_taken
  tally-pop_taken ds0 ds _ _ _ (none_fronted keys) distinct agree = omega arith
  tally-pop_taken ds0 ds _ _ _ (missed key keys sources is rest) distinct agree =
      tally-pop_taken ds0 ds keys sources is rest distinct.1 (λ k h. agree k (ground (arith, h)))
  tally-pop_taken ds0 ds _ _ _ (fronted key keys d n sources is found rest) distinct agree =
      let here : deque_at key ds ≡ some d = agree key (rw (same_key_refl key) refl) ∙ found in
      let less =
        tally-pop_taken ds0 (set_deque key (drop n d) ds) keys sources is rest distinct.1 (λ k h.
          deque_at-set_deque_other key k (drop n d) ds (distinct_miss key k keys distinct.0 h)
          ∙ agree k (ground (arith, h))) in
      let step : pop_taken ((key, n) ∷ sources) ds
          ≡ pop_taken sources (set_deque key (drop n d) ds) =
        ap (pop_taken sources) (change_deque-found (drop n) key d ds here) in
      rw step (
        omega (
          arith,
          less,
          count-append (idents (take n d)) is,
          count-take n d,
          tally-set_deque key d (drop n d) ds here,
        ))

  count-retain :
      (taken : List (MacKey × MpduPacket)) (d : List MpduPacket)
      → count test (idents (retain taken d))
          + count test (picked same_flow_id (idents_of taken) (idents d))
        ≡ count test (idents d)
  count-retain taken [] = refl
  count-retain taken (p ∷ ps) = elim (Bool-cases (was_taken p taken)) [
    | inl e ↦ rw (e, sym (was_taken-has p taken) ∙ e) (ground (arith, count-retain taken ps))
    | inr e ↦ rw (e, sym (was_taken-has p taken) ∙ e) (ground (arith, count-retain taken ps))
  ]

  -- What leaves downwards are the packets of these queues that are like one that was taken.
  pub tally-retain_in :
      (taken : List (MacKey × MpduPacket)) (ds0 ds : Deques) (keys : List MacKey)
      → DistinctKeys keys
      → Present keys ds0
      → ((k : MacKey) → has_key k keys ≡ true → deque_at k ds ≡ deque_at k ds0)
      → tally test (retain_in taken keys ds)
          + count test (picked same_flow_id (idents_of taken) (idents_in keys ds0))
        ≡ tally test ds
  unfolding retain_in
  tally-retain_in taken ds0 ds [] distinct present agree = omega arith
  tally-retain_in taken ds0 ds (key ∷ keys) distinct ((d, found), present) agree =
      let here : deque_at key ds ≡ some d = agree key (rw (same_key_refl key) refl) ∙ found in
      let less =
        tally-retain_in taken ds0 (set_deque key (retain taken d) ds) keys distinct.1 present
          (λ k h.
            deque_at-set_deque_other key k (retain taken d) ds
              (distinct_miss key k keys distinct.0 h)
            ∙ agree k (ground (arith, h))) in
      let step : retain_in taken (key ∷ keys) ds
          ≡ retain_in taken keys (set_deque key (retain taken d) ds) =
        ap (retain_in taken keys) (change_deque-found (retain taken) key d ds here) in
      rw (step, found, picked-append same_flow_id (idents_of taken) (idents d) (idents_in keys ds0))
        (omega (
          arith,
          less,
          count-append (picked same_flow_id (idents_of taken) (idents d))
              (picked same_flow_id (idents_of taken) (idents_in keys ds0)),
          count-retain taken d,
          tally-set_deque key d (retain taken d) ds here,
        ))

  -- What goes back are the taken packets that did not get through.
  pub tally-push_failed :
      (sta : ℕ) (ac : EdcaAc) (link : ℕ) (sent : List MpduPacket) (ps : List (MacKey × MpduPacket))
      (ds : Deques)
      → Placeable sta ac ps ds
      → tally test (push_failed sent ps ds)
          + count test (picked same_packet_id (idents sent) (idents_of ps))
        ≡ tally test ds + count test (idents_of ps)
  unfolding push_failed
  tally-push_failed sta ac link sent [] ds h = refl
  tally-push_failed sta ac link sent ((key, p) ∷ ps) ds ((own, category, there), h) =
      let more = tally-push_failed sta ac link sent ps ds h in
      let (d, found) = (total-push_failed sta ac sta ac link sent ps ds h).1 key there in
      elim (Bool-cases (succeeded p sent)) [
        | inl e ↦ rw (e, sym (succeeded-has p sent) ∙ e) (ground (arith, more))
        | inr e ↦
            let put = tally-set_deque key d (p ∷ d) (push_failed sent ps ds) found in
            rw
              (
                e,
                sym (succeeded-has p sent) ∙ e,
                change_deque-found (◌∷◌ p) key d (push_failed sent ps ds) found,
              )
              (ground (arith, more, put))
      ]
