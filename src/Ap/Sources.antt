-- ===== src/Ap/Sources.antt =====
-- What the aggregation takes from all its queues (models_mm1k.rs, `build_new_ampdu`).
use mathlib.Core.List.{append-nil}
use si_est_a_vr.Common.{
  ℕ, zero, suc, take, ◌+◌, ◌≤◌, ◌==◌, ◌≡◌, refl, sym, ap, ◌∙◌, inl, inr, true, false, Bool, ltb,
  if◌then◌else◌, some, List, [], ◌∷◌, ◌++◌, length, arith, Bool-cases, if_elim,
}
use si_est_a_vr.Mac.Edca.{MacKey}
use si_est_a_vr.Ap.Packets.{MpduPacket}
use si_est_a_vr.Ap.State.{Deques, deque_at}
use si_est_a_vr.Ap.Aggregate.{Radio, Taking, note_source}
use si_est_a_vr.Mac.Virtual.{same_key}
use si_est_a_vr.Ap.Parts.{PartOf, PartOf-append, PartOf-length_le}
use si_est_a_vr.Ap.Taken.{
  ident, idents, tagged, idents_of, idents_in, sum_taken, Popped, popped, passed, FromKeys, Aimed,
  Ident, Fronted, fronted, missed, eligible,
}

pub length-tagged : (key : MacKey) (ps : List MpduPacket) → length (tagged key ps) ≡ length ps
length-tagged key [] = refl
length-tagged key (p ∷ ps) = omega (arith, length-tagged key ps)

idents_of-tagged : (key : MacKey) (ps : List MpduPacket) → idents_of (tagged key ps) ≡ idents ps
idents_of-tagged key [] = refl
idents_of-tagged key (p ∷ ps) = ap (◌∷◌ (ident p)) (idents_of-tagged key ps)

idents_of-append :
    (xs ys : List (MacKey × MpduPacket)) → idents_of (xs ++ ys) ≡ idents_of xs ++ idents_of ys
idents_of-append [] ys = refl
idents_of-append ((key, p) ∷ xs) ys = ap (◌∷◌ (ident p)) (idents_of-append xs ys)

-- The entry that one queue adds to the sources.
pub noted : MacKey → ℕ → List (MacKey × ℕ)
noted key n = if ltb 0 n then (key, n) ∷ [] else []

pub sum_taken-noted :
    (key : MacKey) (n : ℕ) (sources : List (MacKey × ℕ))
    → sum_taken (noted key n ++ sources) ≡ n + sum_taken sources
unfolding noted
sum_taken-noted key n sources = elim (Bool-cases (ltb 0 n)) [
  | inl e ↦ rw e refl
  | inr e ↦ rw e (ground (arith, e))
]

pub noted-Popped :
    (ds : Deques) (key : MacKey) (keys : List MacKey) (d : List MpduPacket) (n : ℕ)
    (sources : List (MacKey × ℕ))
    → deque_at key ds ≡ some d
    → n ≤ length d
    → Popped ds keys sources
    → Popped ds (key ∷ keys) (noted key n ++ sources)
unfolding noted
noted-Popped ds key keys d n sources found fits rest =
    if_elim (λ l. Popped ds (key ∷ keys) (l ++ sources)) (ltb 0 n)
      (λ e. popped key keys d n sources found fits rest) (λ e. passed key keys sources rest)

pub noted-Fronted :
    (ds : Deques) (key : MacKey) (keys : List MacKey) (d : List MpduPacket) (n : ℕ)
    (sources : List (MacKey × ℕ)) (is : List Ident)
    → deque_at key ds ≡ some d
    → Fronted ds keys sources is
    → Fronted ds (key ∷ keys) (noted key n ++ sources) (idents (take n d) ++ is)
unfolding noted
noted-Fronted ds key keys d zero sources is found rest = missed key keys sources is rest
noted-Fronted ds key keys d (suc n) sources is found rest =
    let positive : ltb 0 (suc n) ≡ true = ground arith in
    rw positive (fronted key keys d (suc n) sources is found rest)

same_key_refl : (k : MacKey) → same_key k k ≡ true
same_key_refl (s, a, l) = ground arith

pub keyed_in :
    (key : MacKey) (keys : List MacKey) (new : List MpduPacket)
    (others : List (MacKey × MpduPacket))
    → FromKeys keys others
    → FromKeys (key ∷ keys) (tagged key new ++ others)
keyed_in key keys [] [] h = tt
keyed_in key keys [] ((k, p) ∷ ps) h = (ground (arith, h.0), keyed_in key keys [] ps h.1)
keyed_in key keys (p ∷ new) others h = (rw (same_key_refl key) refl, keyed_in key keys new others h)

pub destinations_in :
    (dest : ℕ) (key : MacKey) (new : List MpduPacket) (others : List (MacKey × MpduPacket))
    → Aimed dest (idents new)
    → Aimed dest (idents_of others)
    → Aimed dest (idents_of (tagged key new ++ others))
destinations_in dest key [] others a b = b
destinations_in dest key (p ∷ new) others a b = (a.0, destinations_in dest key new others a.1 b)

pub length-idents_of : (ps : List (MacKey × MpduPacket)) → length (idents_of ps) ≡ length ps
length-idents_of [] = refl
length-idents_of ((key, p) ∷ ps) = omega (arith, length-idents_of ps)

pub length-idents : (ps : List MpduPacket) → length (idents ps) ≡ length ps
length-idents [] = refl
length-idents (p ∷ ps) = omega (arith, length-idents ps)

pub fits :
    (d new : List MpduPacket) (n : ℕ)
    → n ≡ 0 + length new
    → PartOf (idents new) (idents d)
    → n ≤ length d
fits d new n count part = omega (
  arith,
  count,
  PartOf-length_le (idents new) (idents d) part,
  length-idents new,
  length-idents d,
)

pub front_in :
    (key : MacKey) (d new : List MpduPacket) (others : List (MacKey × MpduPacket)) (n : ℕ)
    → n ≡ 0 + length new
    → idents new ≡ idents (take (length new) d)
    → idents (take n d) ++ idents_of others ≡ idents_of (tagged key new ++ others)
front_in key d new others n count front =
    let all : n ≡ length new = omega (arith, count) in
    ap (λ m. idents (take m d) ++ idents_of others) all
    ∙ ap (λ l. l ++ idents_of others) (sym front ∙ sym (idents_of-tagged key new))
    ∙ sym (idents_of-append (tagged key new) others)

pub part_in :
    (key : MacKey) (keys : List MacKey) (ds : Deques) (d new : List MpduPacket)
    (others : List (MacKey × MpduPacket))
    → deque_at key ds ≡ some d
    → PartOf (idents new) (idents d)
    → PartOf (idents_of others) (idents_in keys ds)
    → PartOf (idents_of (tagged key new ++ others)) (idents_in (key ∷ keys) ds)
part_in key keys ds d new others found one rest =
    rw (found, idents_of-append (tagged key new) others, idents_of-tagged key new)
      (PartOf-append (idents new) (idents d) (idents_of others) (idents_in keys ds) one rest)

pub eligible-append :
    (up : Bool) (dest : ℕ) (is js : List Ident)
    → eligible up dest (is ++ js) ≡ eligible up dest is ++ eligible up dest js
eligible-append true dest is js = refl
eligible-append false dest [] js = refl
eligible-append false dest (i ∷ is) js = elim (Bool-cases (i.2 == dest)) [
  | inl e ↦ rw (e, eligible-append false dest is js) refl
  | inr e ↦ rw (e, eligible-append false dest is js) refl
]

pub all_in :
    (up : Bool) (dest : ℕ) (key : MacKey) (keys : List MacKey) (ds : Deques)
    (d new : List MpduPacket) (others : List (MacKey × MpduPacket))
    → deque_at key ds ≡ some d
    → idents new ≡ eligible up dest (idents d)
    → idents_of others ≡ eligible up dest (idents_in keys ds)
    → idents_of (tagged key new ++ others) ≡ eligible up dest (idents_in (key ∷ keys) ds)
all_in up dest key keys ds d new others found one rest = rw (
  found,
  idents_of-append (tagged key new) others,
  idents_of-tagged key new,
  eligible-append up dest (idents d) (idents_in keys ds),
  one,
  rest,
)

module _ (radio : Radio) where
  pub record Noted (key : MacKey) (n : ℕ) (t t' : Taking radio) : Type 1 where
    pub snapshot : t'.taken_snapshot ≡ t.taken_snapshot
    pub size : t'.size ≡ t.size
    pub sources : t'.deque_sources ≡ t.deque_sources ++ noted key n

  pub note_source-Noted :
      (key : MacKey) (n : ℕ) (t : Taking radio) → Noted key n t (note_source radio key n t)
  unfolding noted
  note_source-Noted key n t = elim (Bool-cases (ltb 0 n)) [
    | inl e ↦ record { snapshot = rw e refl; size = rw e refl; sources = rw e refl }
    | inr e ↦ record {
      snapshot = rw e refl;
      size = rw e refl;
      sources = rw e (sym (append-nil t.deque_sources));
    }
  ]
