-- ===== src/Mac/Rounds.antt =====
-- One round of the loop of `tick_backoff` (models_mm1k.rs), against an account of its own.
use mathlib.Core.List.{append-nil}
use si_est_a_vr.Common.{
  ℕ, ◌≡◌, refl, sym, ap, ◌∙◌, inl, inr, Bool, true, false, ◌&&◌, List, [], ◌∷◌, ◌++◌, Option, none,
  some, ◌==◌, if◌then◌else◌, ok, lookup, lookup-insert, Bool-cases, eq_of_==, Outcome,
}
use si_est_a_vr.Mac.Edca.{EdcaAc, MacKey}
use si_est_a_vr.Mac.Backoff.{DcfStats}
use si_est_a_vr.Mac.Medium.{Medium}
use si_est_a_vr.Mac.Tick.{
  NoError, tick_station, is_ready, ready_on, push_ready, link_of, is_active, tick_on,
}

-- A station after the slot: a station without packets is passed over.
abbrev slot_with : Option Medium → ℕ → Bool → DcfStats → DcfStats
slot_with none now active st = st
slot_with (some m) now active st = if active then tick_station now m st else st

abbrev pub after_slot : ℕ → List (ℕ × Medium) → (ℕ → EdcaAc → ℕ) → DcfStats → DcfStats
after_slot now mediums counts st =
    slot_with (lookup (link_of st) mediums) now (is_active counts st) st

slot_with_off : (o : Option Medium) (now : ℕ) (st : DcfStats) → slot_with o now false st ≡ st
slot_with_off none now st = refl
slot_with_off (some m) now st = refl

after_slot-off :
    (now : ℕ) (mediums : List (ℕ × Medium)) (counts : ℕ → EdcaAc → ℕ) (st : DcfStats)
    → is_active counts st ≡ false
    → after_slot now mediums counts st ≡ st
after_slot-off now mediums counts st off =
    ap (λ a. slot_with (lookup (link_of st) mediums) now a st) off
    ∙ slot_with_off (lookup (link_of st) mediums) now st

after_slot-on :
    (now : ℕ) (mediums : List (ℕ × Medium)) (counts : ℕ → EdcaAc → ℕ) (st : DcfStats) (m : Medium)
    → is_active counts st ≡ true
    → lookup (link_of st) mediums ≡ some m
    → after_slot now mediums counts st ≡ tick_station now m st
after_slot-on now mediums counts st m on linked =
    ap (λ a. slot_with (lookup (link_of st) mediums) now a st) on
    ∙ ap (λ o. slot_with o now true st) linked

abbrev pub after_slots : ℕ → List (ℕ × Medium) → (ℕ → EdcaAc → ℕ) → List DcfStats → List DcfStats
after_slots now mediums counts [] = []
after_slots now mediums counts (st ∷ sts) =
    after_slot now mediums counts st ∷ after_slots now mediums counts sts

-- The keys of the stations with packets on `link` that are ready after the slot, in order.
abbrev pub contenders : ℕ → ℕ → List (ℕ × Medium) → (ℕ → EdcaAc → ℕ) → List DcfStats → List MacKey
contenders link now mediums counts [] = []
contenders link now mediums counts (st ∷ sts) =
    let rest = contenders link now mediums counts sts in
    if link_of st == link && (is_active counts st && is_ready (after_slot now mediums counts st))
    then st.mac_key ∷ rest
    else rest

-- Every station with packets is on a link that has a medium.
abbrev pub Linked : List (ℕ × Medium) → (ℕ → EdcaAc → ℕ) → List DcfStats → Type 0
Linked mediums counts [] = Unit
Linked mediums counts (st ∷ sts) =
    (is_active counts st ≡ true → (m : Medium) × (lookup (link_of st) mediums ≡ some m))
    × Linked mediums counts sts

ready_on-push :
    (link : ℕ) (st : DcfStats) (ready : List (ℕ × List MacKey))
    → ready_on link (push_ready st.mac_key ready)
      ≡ (if link_of st == link then ready_on link ready ++ st.mac_key ∷ [] else ready_on link ready)
ready_on-push link st ready = elim (Bool-cases (link_of st == link)) [
  | inl same ↦
      rw
        (
          lookup-insert (link_of st) link (ready_on (link_of st) ready ++ st.mac_key ∷ []) ready,
          same,
        )
        (ap (λ l. ready_on l ready ++ st.mac_key ∷ []) (eq_of_== (link_of st) link same))
  | inr other ↦ rw (
    lookup-insert (link_of st) link (ready_on (link_of st) ready ++ st.mac_key ∷ []) ready,
    other,
  )
]

abbrev pub own_key : ℕ → ℕ → List (ℕ × Medium) → (ℕ → EdcaAc → ℕ) → DcfStats → List MacKey
own_key link now mediums counts st =
    if link_of st == link && (is_active counts st && is_ready (after_slot now mediums counts st))
    then st.mac_key ∷ []
    else []

-- One round of the loop.
abbrev pub round :
    ℕ
    → List (ℕ × Medium)
    → (ℕ → EdcaAc → ℕ)
    → DcfStats
    → List (ℕ × List MacKey)
    → Outcome NoError (DcfStats × List (ℕ × List MacKey))
round now mediums counts st ready =
    if is_active counts st
    then tick_on (lookup (link_of st) mediums) now st ready
    else ok (st, ready)

pub record RoundDone (now : ℕ) (mediums : List (ℕ × Medium)) (counts : ℕ → EdcaAc → ℕ)
    (st : DcfStats) (ready : List (ℕ × List MacKey)) : Type 0 where
  pub ready' : List (ℕ × List MacKey)
  pub result : round now mediums counts st ready ≡ ok (after_slot now mediums counts st, ready')
  pub adds :
      (link : ℕ) → ready_on link ready' ≡ ready_on link ready ++ own_key link now mediums counts st

own_key-off :
    (link now : ℕ) (mediums : List (ℕ × Medium)) (counts : ℕ → EdcaAc → ℕ) (st : DcfStats)
    → is_active counts st ≡ false
    → own_key link now mediums counts st ≡ []
own_key-off link now mediums counts st off =
    ap
      (λ a.
        if link_of st == link && (a && is_ready (after_slot now mediums counts st))
        then st.mac_key ∷ []
        else [])
      off
    ∙ never (link_of st == link)
  where
    never : (b : Bool) → (if b && false then st.mac_key ∷ [] else []) ≡ []
    never true = refl
    never false = refl

push_if_ready :
    (link : ℕ) (st : DcfStats) (ready : List (ℕ × List MacKey)) (r : Bool)
    → ready_on link (if r then push_ready st.mac_key ready else ready)
      ≡ ready_on link ready ++ (if link_of st == link && r then st.mac_key ∷ [] else [])
push_if_ready link st ready true = ready_on-push link st ready ∙ place (link_of st == link)
  where
    place :
        (b : Bool)
        → (if b then ready_on link ready ++ st.mac_key ∷ [] else ready_on link ready)
          ≡ ready_on link ready ++ (if b && true then st.mac_key ∷ [] else [])
    place true = refl
    place false = sym (append-nil (ready_on link ready))
push_if_ready link st ready false = place (link_of st == link)
  where
    place :
        (b : Bool)
        → ready_on link ready ≡ ready_on link ready ++ (if b && false then st.mac_key ∷ [] else [])
    place true = sym (append-nil (ready_on link ready))
    place false = sym (append-nil (ready_on link ready))

idle-RoundDone :
    (now : ℕ) (mediums : List (ℕ × Medium)) (counts : ℕ → EdcaAc → ℕ) (st : DcfStats)
    (ready : List (ℕ × List MacKey))
    → is_active counts st ≡ false
    → RoundDone now mediums counts st ready
idle-RoundDone now mediums counts st ready off = record {
  ready' = ready;
  result = rw (after_slot-off now mediums counts st off, off);
  adds = λ link.
      rw (own_key-off link now mediums counts st off) (sym (append-nil (ready_on link ready)));
}

active-RoundDone :
    (now : ℕ) (mediums : List (ℕ × Medium)) (counts : ℕ → EdcaAc → ℕ) (st : DcfStats)
    (ready : List (ℕ × List MacKey)) (m : Medium)
    → is_active counts st ≡ true
    → lookup (link_of st) mediums ≡ some m
    → RoundDone now mediums counts st ready
unfolding tick_on
active-RoundDone now mediums counts st ready m on linked = record {
  ready' = if is_ready (tick_station now m st) then push_ready st.mac_key ready else ready;
  result = rw (after_slot-on now mediums counts st m on linked, on, linked, tick_on);
  adds = λ link.
      rw (after_slot-on now mediums counts st m on linked, on)
        (push_if_ready link st ready (is_ready (tick_station now m st)));
}

pub round-RoundDone :
    (now : ℕ) (mediums : List (ℕ × Medium)) (counts : ℕ → EdcaAc → ℕ) (st : DcfStats)
    (ready : List (ℕ × List MacKey))
    → (is_active counts st ≡ true → (m : Medium) × (lookup (link_of st) mediums ≡ some m))
    → RoundDone now mediums counts st ready
round-RoundDone now mediums counts st ready linked = elim (Bool-cases (is_active counts st)) [
  | inl on ↦ active-RoundDone now mediums counts st ready (linked on).0 on (linked on).1
  | inr off ↦ idle-RoundDone now mediums counts st ready off
]
