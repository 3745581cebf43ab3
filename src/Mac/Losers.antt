-- ===== src/Mac/Losers.antt =====
-- What a virtual collision leaves: the winners are among the ready keys, and the losers' states stay
-- sound (models_mm1k.rs, `resolve_virtual_collision`).
use si_est_a_vr.Common.{
  ◌≡◌, refl, ◌∙◌, inl, inr, true, List, [], ◌∷◌, ◌++◌, ltb, ok, Bool-cases, if_elim,
}
use si_est_a_vr.Mac.Edca.{MacKey}
use si_est_a_vr.Mac.Backoff.{Draw, DcfStats}
use si_est_a_vr.Mac.Virtual.{
  prio, insert_sorted, sort_by_prio, has_winner, has_state, resolve_sorted,
  resolve_virtual_collision,
}
use si_est_a_vr.Mac.Failures.{AllSound, Changed, fail_key-Changed}

abbrev pub AllKeys : (MacKey → Type 0) → List MacKey → Type 0
AllKeys P [] = Unit
AllKeys P (k ∷ ks) = P k × AllKeys P ks

module _ (P : MacKey → Type 0) where
  AllKeys-snoc : (ks : List MacKey) (k : MacKey) → AllKeys P ks → P k → AllKeys P (ks ++ k ∷ [])
  AllKeys-snoc [] k h p = (p, tt)
  AllKeys-snoc (j ∷ js) k h p = (h.0, AllKeys-snoc js k h.1 p)

  insert_sorted-AllKeys :
      (k : MacKey) (ks : List MacKey) → P k → AllKeys P ks → AllKeys P (insert_sorted k ks)
  insert_sorted-AllKeys k [] p h = (p, tt)
  insert_sorted-AllKeys k (j ∷ js) p h =
      if_elim (AllKeys P) (ltb (prio j) (prio k)) (λ e. (h.0, insert_sorted-AllKeys k js p h.1))
        (λ e. (p, h))

  sort_by_prio-AllKeys : (ks : List MacKey) → AllKeys P ks → AllKeys P (sort_by_prio ks)
  sort_by_prio-AllKeys [] h = tt
  sort_by_prio-AllKeys (k ∷ ks) h =
      insert_sorted-AllKeys k (sort_by_prio ks) h.0 (sort_by_prio-AllKeys ks h.1)

module _ (r : Draw) (P : MacKey → Type 0) (sts0 : List DcfStats)
    (has : (k : MacKey) → P k → has_state k sts0 ≡ true) where
  resolve_sorted-Changed :
      (keys winners : List MacKey) (sts : List DcfStats)
      → AllKeys P keys
      → AllKeys P winners
      → Changed r sts0 sts
      → (winners' : List MacKey) × (sts' : List DcfStats) × (resolve_sorted r keys winners sts
          ≡ ok (winners', sts'))
        × AllKeys P winners'
        × Changed r sts0 sts'
  unfolding resolve_sorted
  resolve_sorted-Changed [] winners sts h w c = (winners, sts, refl, w, c)
  resolve_sorted-Changed (key ∷ keys) winners sts h w c =
      elim (Bool-cases (has_winner key.0 winners)) [
        | inl e ↦
            let (sts1, failed, c1) =
              fail_key-Changed r key sts (c.states key ∙ has key h.0) c.sound in
            let (winners', sts', result, w', c') =
              resolve_sorted-Changed keys winners sts1 h.1 w
                (record { sound = c1.sound; states = λ k. c1.states k ∙ c.states k }) in
            (winners', sts', rw (e, failed, result) refl, w', c')
        | inr e ↦
            let (winners', sts', result, w', c') =
              resolve_sorted-Changed keys (winners ++ key ∷ []) sts h.1
                (AllKeys-snoc P winners key w h.0) c in
            (winners', sts', rw (e, result) refl, w', c')
      ]

  -- The winners of a virtual collision are among the ready keys, and all contention states stay sound.
  pub resolve_virtual_collision-Changed :
      (ready : List MacKey)
      → AllKeys P ready
      → AllSound sts0
      → (winners : List MacKey) × (sts' : List DcfStats) × (resolve_virtual_collision r ready sts0
          ≡ ok (winners, sts'))
        × AllKeys P winners
        × Changed r sts0 sts'
  unfolding resolve_virtual_collision
  resolve_virtual_collision-Changed ready h v =
      resolve_sorted-Changed (sort_by_prio ready) [] sts0 (sort_by_prio-AllKeys P ready h) tt
        (record { sound = v; states = λ k. refl })
