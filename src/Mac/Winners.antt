-- ===== src/Mac/Winners.antt =====
-- Which keys win a virtual collision (models_mm1k.rs, `resolve_virtual_collision`).
use mathlib.Core.List.{append-nil}
use si_est_a_vr.Common.{
  ℕ, ◌≤◌, ◌≡◌, refl, sym, ap, ◌∙◌, true, false, List, [], ◌∷◌, ◌++◌, ltb, ◌==◌, if◌then◌else◌,
  arith, inl, inr, Bool-cases, if_elim, eq_of_==,
}
use si_est_a_vr.Mac.Edca.{MacKey}
use si_est_a_vr.Mac.Backoff.{DcfStats}
use si_est_a_vr.Mac.Virtual.{prio, insert_sorted, sort_by_prio, has_winner, has_state}

-- The keys of one station, in their order.
abbrev pub keys_at : ℕ → List MacKey → List MacKey
keys_at sta [] = []
keys_at sta (k ∷ ks) = let rest = keys_at sta ks in if k.0 == sta then k ∷ rest else rest

-- The better of two keys; the first where they have the same priority.
abbrev pub better : MacKey → List MacKey → List MacKey
better k [] = k ∷ []
better k (j ∷ js) = if ltb (prio j) (prio k) then j ∷ [] else k ∷ []

-- The station's first key of highest priority, if it has a key.
abbrev pub best_at : ℕ → List MacKey → List MacKey
best_at sta [] = []
best_at sta (k ∷ ks) = let rest = best_at sta ks in if k.0 == sta then better k rest else rest

-- The station's first key.
unfoldable pub first_at : ℕ → List MacKey → List MacKey
first_at sta [] = []
first_at sta (k ∷ ks) = let rest = first_at sta ks in if k.0 == sta then k ∷ [] else rest

-- Priority numbers that do not fall, from a bound on.
Ascends : ℕ → List MacKey → Type 0
Ascends b [] = Unit
Ascends b (k ∷ ks) = (b ≤ prio k) × Ascends (prio k) ks

-- Every key has its state.
abbrev pub HaveStates : List MacKey → List DcfStats → Type 0
HaveStates [] sts = Unit
HaveStates (k ∷ ks) sts = (has_state k sts ≡ true) × HaveStates ks sts

ascend_from_lower : (a b : ℕ) (ks : List MacKey) → a ≤ b → Ascends b ks → Ascends a ks
unfolding Ascends
ascend_from_lower a b [] h s = tt
ascend_from_lower a b (k ∷ ks) h s = (omega (arith, s.0), s.1)

insert_sorted-Ascends :
    (b : ℕ) (k : MacKey) (ks : List MacKey)
    → b ≤ prio k
    → Ascends b ks
    → Ascends b (insert_sorted k ks)
unfolding Ascends
insert_sorted-Ascends b k [] h s = (h, tt)
insert_sorted-Ascends b k (j ∷ js) h s =
    if_elim (Ascends b) (ltb (prio j) (prio k))
      (λ e. (s.0, insert_sorted-Ascends (prio j) k js (ground arith) s.1))
      (λ e. (h, (ground arith, s.1)))

sort_by_prio-Ascends : (ks : List MacKey) → Ascends 0 (sort_by_prio ks)
unfolding Ascends
sort_by_prio-Ascends [] = tt
sort_by_prio-Ascends (k ∷ ks) =
    insert_sorted-Ascends 0 k (sort_by_prio ks) (omega arith) (sort_by_prio-Ascends ks)

-- A key that comes before all others is the better one.
better-first :
    (k : MacKey) (sta : ℕ) (ks : List MacKey)
    → Ascends (prio k) ks
    → better k (first_at sta ks) ≡ k ∷ []
unfolding Ascends first_at
better-first k sta [] s = refl
better-first k sta (j ∷ js) s =
    if_elim (λ first. better k first ≡ k ∷ []) (j.0 == sta) (λ e. ground (arith, s))
      (λ e. better-first k sta js (ascend_from_lower (prio k) (prio j) js s.0 s.1))

first_at-insert_sorted :
    (sta b : ℕ) (k : MacKey) (ks : List MacKey)
    → Ascends b ks
    → first_at sta (insert_sorted k ks)
      ≡ (if k.0 == sta then better k (first_at sta ks) else first_at sta ks)
unfolding Ascends first_at
first_at-insert_sorted sta b k [] s = refl
first_at-insert_sorted sta b k (j ∷ js) s =
    if_elim
      (λ l.
        first_at sta l
        ≡ (if k.0 == sta then better k (first_at sta (j ∷ js)) else first_at sta (j ∷ js)))
      (ltb (prio j) (prio k))
      (λ e.
        rw (first_at-insert_sorted sta (prio j) k js s.1)
          (elim (Bool-cases (j.0 == sta)) [ inl f ↦ rw f (ground (arith, e)) | inr f ↦ rw f refl ]))
      (λ e. rw (better-first k sta (j ∷ js) (ground (arith, e), s.1)) refl)

pub first_at-sort_by_prio :
    (sta : ℕ) (ks : List MacKey) → first_at sta (sort_by_prio ks) ≡ best_at sta ks
unfolding first_at
first_at-sort_by_prio sta [] = refl
first_at-sort_by_prio sta (k ∷ ks) =
    first_at-insert_sorted sta 0 k (sort_by_prio ks) (sort_by_prio-Ascends ks)
    ∙ rw (first_at-sort_by_prio sta ks) refl

keys_at-append :
    (sta : ℕ) (ks js : List MacKey) → keys_at sta (ks ++ js) ≡ keys_at sta ks ++ keys_at sta js
keys_at-append sta [] js = refl
keys_at-append sta (k ∷ ks) js = elim (Bool-cases (k.0 == sta)) [
  | inl e ↦ rw e (ap (◌∷◌ k) (keys_at-append sta ks js))
  | inr e ↦ rw e (keys_at-append sta ks js)
]

has_winner-snoc :
    (sta : ℕ) (ks : List MacKey) (k : MacKey)
    → has_winner sta (ks ++ k ∷ []) ≡ (if has_winner sta ks then true else k.0 == sta)
has_winner-snoc sta [] k = ground arith
has_winner-snoc sta (j ∷ js) k = ground (arith, has_winner-snoc sta js k)

-- A key of a station that has won already adds nothing.
pub loser_adds_nothing :
    (sta : ℕ) (key : MacKey) (winners keys : List MacKey)
    → has_winner key.0 winners ≡ true
    → keys_at sta winners ++ (if has_winner sta winners then [] else first_at sta keys)
      ≡ keys_at sta winners ++ (if has_winner sta winners then [] else first_at sta (key ∷ keys))
unfolding first_at
loser_adds_nothing sta key winners keys e = elim (Bool-cases (key.0 == sta)) [
  | inl f ↦ let won = ap (λ i. has_winner i winners) (sym (eq_of_== key.0 sta f)) ∙ e in rw won refl
  | inr f ↦ rw f refl
]

-- A key of a station that has not won yet is its winner.
pub winner_is_added :
    (sta : ℕ) (key : MacKey) (winners keys : List MacKey)
    → has_winner key.0 winners ≡ false
    → keys_at sta (winners ++ key ∷ [])
        ++ (if has_winner sta (winners ++ key ∷ []) then [] else first_at sta keys)
      ≡ keys_at sta winners ++ (if has_winner sta winners then [] else first_at sta (key ∷ keys))
unfolding first_at
winner_is_added sta key winners keys e =
    rw (has_winner-snoc sta winners key, keys_at-append sta winners (key ∷ []))
      (elim (Bool-cases (key.0 == sta)) [
        | inl f ↦
            let lost = ap (λ i. has_winner i winners) (sym (eq_of_== key.0 sta f)) ∙ e in
            rw (lost, f) (append-nil (keys_at sta winners ++ key ∷ []))
        | inr f ↦ elim (Bool-cases (has_winner sta winners)) [
          | inl g ↦ rw (g, f) (append-nil (keys_at sta winners ++ []))
          | inr g ↦ rw (g, f) (ap (λ l. l ++ first_at sta keys) (append-nil (keys_at sta winners)))
        ]
      ])
