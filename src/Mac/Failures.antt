-- ===== src/Mac/Failures.antt =====
-- What a failed attempt leaves of the contention states (models_mm1k.rs, `resolve_virtual_collision` and
-- `deque_schedule_service`).
use si_est_a_vr.Common.{◌≡◌, refl, ◌∙◌, inl, inr, true, List, [], ◌∷◌, ok, arith, Bool-cases}
use si_est_a_vr.Mac.Edca.{MacKey}
use si_est_a_vr.Mac.Backoff.{Draw, DcfStats, on_failure, on_failure-IsValid}
use si_est_a_vr.Mac.Backoff
use si_est_a_vr.Mac.Virtual.{same_key, has_state, fail_key}
use si_est_a_vr.Mac.Winners.{HaveStates}

-- All contention states are sound.
abbrev pub AllSound : List DcfStats → Type 0
AllSound [] = Unit
AllSound (st ∷ sts) = Backoff.IsValid st × AllSound sts

module _ (r : Draw) where
  pub record Changed (sts sts' : List DcfStats) : Type 0 where
    pub sound : AllSound sts'
    pub states : (k : MacKey) → has_state k sts' ≡ has_state k sts

  pub on_failure-mac_key : (st : DcfStats) → (on_failure r st).0.mac_key ≡ st.mac_key
  unfolding on_failure
  on_failure-mac_key st = ground arith

  pub fail_key-Changed :
      (key : MacKey) (sts : List DcfStats)
      → has_state key sts ≡ true
      → AllSound sts
      → (sts' : List DcfStats) × (fail_key r key sts ≡ ok sts') × Changed sts sts'
  unfolding fail_key
  fail_key-Changed key [] h v = absurd (ground (arith, h))
  fail_key-Changed key (st ∷ sts) h v = elim (Bool-cases (same_key st.mac_key key)) [
    | inl e ↦ (
      (on_failure r st).0 ∷ sts,
      rw e refl,
      record {
        sound = (on_failure-IsValid r st v.0, v.1);
        states = λ k. rw (on_failure-mac_key st) refl;
      },
    )
    | inr e ↦
        let (sts', result, rest) = fail_key-Changed key sts (ground (arith, h, e)) v.1 in
        (
          st ∷ sts',
          rw (e, result) refl,
          record { sound = (v.0, rest.sound); states = λ k. rw (rest.states k) refl },
        )
  ]

  pub HaveStates-same :
      (ks : List MacKey) (sts sts' : List DcfStats)
      → ((k : MacKey) → has_state k sts' ≡ has_state k sts)
      → HaveStates ks sts
      → HaveStates ks sts'
  HaveStates-same [] sts sts' same h = tt
  HaveStates-same (k ∷ ks) sts sts' same h = (same k ∙ h.0, HaveStates-same ks sts sts' same h.1)
