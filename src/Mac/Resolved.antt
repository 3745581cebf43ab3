-- ===== src/Mac/Resolved.antt =====
-- The loop over the ready keys of a slot (models_mm1k.rs, `resolve_virtual_collision`).
use mathlib.Core.List.{append-nil}
use si_est_a_vr.Common.{
  ℕ, ◌≡◌, refl, sym, ◌∙◌, true, List, [], ◌∷◌, ◌++◌, ltb, if◌then◌else◌, ok, arith, inl, inr,
  Bool-cases, if_elim,
}
use si_est_a_vr.Mac.Edca.{MacKey}
use si_est_a_vr.Mac.Backoff.{Draw, DcfStats, on_failure}
use si_est_a_vr.Mac.Virtual.{
  prio, insert_sorted, sort_by_prio, same_key, has_winner, has_state, fail_key, resolve_sorted,
  resolve_virtual_collision,
}
use si_est_a_vr.Mac.Winners.{
  keys_at, best_at, HaveStates, first_at, first_at-sort_by_prio, loser_adds_nothing,
  winner_is_added,
}
use si_est_a_vr.Mac.Failures.{on_failure-mac_key, HaveStates-same}

module _ (r : Draw) where
  record Failed (key : MacKey) (sts : List DcfStats) : Type 0 where
    sts' : List DcfStats
    result : fail_key r key sts ≡ ok sts'
    same : (k : MacKey) → has_state k sts' ≡ has_state k sts

  fail_key-Failed : (key : MacKey) (sts : List DcfStats) → has_state key sts ≡ true → Failed key sts
  unfolding fail_key
  fail_key-Failed key [] h = absurd (ground arith)
  fail_key-Failed key (st ∷ sts) h = elim (Bool-cases (same_key st.mac_key key)) [
    | inl e ↦ record {
      sts' = (on_failure r st).0 ∷ sts;
      result = rw e refl;
      same = λ k. rw (on_failure-mac_key r st) refl;
    }
    | inr e ↦
        let rest = fail_key-Failed key sts (ground (arith, h, e)) in
        record {
          sts' = st ∷ rest.sts';
          result = rw (e, rest.result) refl;
          same = λ k. rw (rest.same k) refl;
        }
  ]

  insert_sorted-HaveStates :
      (k : MacKey) (ks : List MacKey) (sts : List DcfStats)
      → has_state k sts ≡ true
      → HaveStates ks sts
      → HaveStates (insert_sorted k ks) sts
  insert_sorted-HaveStates k [] sts p h = (p, tt)
  insert_sorted-HaveStates k (j ∷ js) sts p h =
      if_elim (λ l. HaveStates l sts) (ltb (prio j) (prio k))
        (λ e. (h.0, insert_sorted-HaveStates k js sts p h.1)) (λ e. (p, h))

  sort_by_prio-HaveStates :
      (ks : List MacKey) (sts : List DcfStats)
      → HaveStates ks sts
      → HaveStates (sort_by_prio ks) sts
  sort_by_prio-HaveStates [] sts h = tt
  sort_by_prio-HaveStates (k ∷ ks) sts h =
      insert_sorted-HaveStates k (sort_by_prio ks) sts h.0 (sort_by_prio-HaveStates ks sts h.1)

  record Resolved (keys winners : List MacKey) (sts : List DcfStats) : Type 0 where
    winners' : List MacKey
    sts' : List DcfStats
    result : resolve_sorted r keys winners sts ≡ ok (winners', sts')
    at :
        (sta : ℕ)
        → keys_at sta winners'
          ≡ keys_at sta winners ++ (if has_winner sta winners then [] else first_at sta keys)

  resolve_sorted-Resolved :
      (keys winners : List MacKey) (sts : List DcfStats)
      → HaveStates keys sts
      → Resolved keys winners sts
  unfolding resolve_sorted first_at
  resolve_sorted-Resolved [] winners sts h = record {
    winners' = winners;
    sts' = sts;
    result = refl;
    at = λ sta.
        if_elim (λ l. keys_at sta winners ≡ keys_at sta winners ++ l) (has_winner sta winners)
          (λ e. sym (append-nil (keys_at sta winners)))
          (λ e. sym (append-nil (keys_at sta winners)));
  }
  resolve_sorted-Resolved (key ∷ keys) winners sts h =
      elim (Bool-cases (has_winner key.0 winners)) [
        | inl e ↦
            let one = fail_key-Failed key sts h.0 in
            let rest =
              resolve_sorted-Resolved keys winners one.sts'
                (HaveStates-same r keys sts one.sts' one.same h.1) in
            record {
              winners' = rest.winners';
              sts' = rest.sts';
              result = rw (e, one.result, rest.result) refl;
              at = λ sta. rest.at sta ∙ loser_adds_nothing sta key winners keys e;
            }
        | inr e ↦
            let rest = resolve_sorted-Resolved keys (winners ++ key ∷ []) sts h.1 in
            record {
              winners' = rest.winners';
              sts' = rest.sts';
              result = rw (e, rest.result) refl;
              at = λ sta. rest.at sta ∙ winner_is_added sta key winners keys e;
            }
      ]

  -- Where every ready category has its contention state, a virtual collision is resolved without a
  -- panic, and each station comes out with exactly one key where it had one and none where it had
  -- none: its first key among those of highest priority.
  pub resolve_virtual_collision_lem :
      (ready : List MacKey) (sts : List DcfStats)
      → HaveStates ready sts
      → (winners : List MacKey) × (sts' : List DcfStats) × (resolve_virtual_collision r ready sts
          ≡ ok (winners, sts'))
        × ((sta : ℕ) → keys_at sta winners ≡ best_at sta ready)
  unfolding resolve_virtual_collision
  resolve_virtual_collision_lem ready sts h =
      let done =
        resolve_sorted-Resolved (sort_by_prio ready) [] sts (sort_by_prio-HaveStates ready sts h) in
      (done.winners', done.sts', done.result, λ sta. done.at sta ∙ first_at-sort_by_prio sta ready)
