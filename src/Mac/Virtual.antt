-- ===== src/Mac/Virtual.antt =====
-- `resolve_virtual_collision` (models_mm1k.rs): of the categories of one station that are ready in
-- the same slot, the one of highest priority transmits and the others fail. The winners come out of
-- a hash map, here in the order in which they went in.
use si_est_a_vr.Common.{
  ℕ, Bool, true, false, ◌&&◌, List, [], ◌∷◌, ◌++◌, ltb, ◌==◌, if◌then◌else◌, Outcome, ok, panic,
  ◌>>=◌,
}
use si_est_a_vr.Mac.Edca.{MacKey, ac_prio}
use si_est_a_vr.Mac.Backoff.{Draw, DcfStats, on_failure}
use si_est_a_vr.Mac.Tick.{NoError}

abbrev pub prio : MacKey → ℕ
prio k = ac_prio k.1

-- `sort_by_key` is stable: a key goes before those of a larger priority number, and before those of
-- the same number that stood after it.
abbrev pub insert_sorted : MacKey → List MacKey → List MacKey
insert_sorted k [] = k ∷ []
insert_sorted k (j ∷ js) =
    let rest = insert_sorted k js in if ltb (prio j) (prio k) then j ∷ rest else k ∷ j ∷ js

abbrev pub sort_by_prio : List MacKey → List MacKey
sort_by_prio [] = []
sort_by_prio (k ∷ ks) = insert_sorted k (sort_by_prio ks)

abbrev pub same_key : MacKey → MacKey → Bool
same_key (s, a, l) (s', a', l') = s == s' && (ac_prio a == ac_prio a' && l == l')

-- `winner.contains_key(&sta)`.
abbrev pub has_winner : ℕ → List MacKey → Bool
has_winner sta [] = false
has_winner sta (k ∷ ks) = let rest = has_winner sta ks in if k.0 == sta then true else rest

abbrev pub has_state : MacKey → List DcfStats → Bool
has_state key [] = false
has_state key (st ∷ sts) =
    let rest = has_state key sts in if same_key st.mac_key key then true else rest

module _ (r : Draw) where
  -- `self.dcf_mut(&key).on_failure()`; a key that has no place in the vector panics.
  unfoldable pub fail_key : MacKey → List DcfStats → Outcome NoError (List DcfStats)
  fail_key key [] = panic
  fail_key key (st ∷ sts) =
      let rest = fail_key key sts in
      if same_key st.mac_key key
      then ok ((on_failure r st).0 ∷ sts)
      else rest >>= (λ sts'. ok (st ∷ sts'))

  -- The loop over the sorted keys, with the winners so far.
  unfoldable pub resolve_sorted :
      List MacKey → List MacKey → List DcfStats → Outcome NoError (List MacKey × List DcfStats)
  resolve_sorted [] winners sts = ok (winners, sts)
  resolve_sorted (key ∷ keys) winners sts =
      if has_winner key.0 winners
      then fail_key key sts >>= resolve_sorted keys winners
      else resolve_sorted keys (winners ++ key ∷ []) sts

  unfoldable pub resolve_virtual_collision :
      List MacKey → List DcfStats → Outcome NoError (List MacKey × List DcfStats)
  resolve_virtual_collision ready sts = resolve_sorted (sort_by_prio ready) [] sts
