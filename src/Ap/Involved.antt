-- ===== src/Ap/Involved.antt =====
-- The queues that packets were taken from downwards (models_mm1k.rs, `involved_deques` in
-- `build_new_ampdu`), and how many packets leave them.
use si_est_a_vr.Common.{
  ℕ, ◌≤◌, ◌==◌, ◌≡◌, refl, inl, inr, true, false, List, [], ◌∷◌, ◌++◌, length, length-append, arith,
  Bool-cases,
}
use si_est_a_vr.Mac.Edca.{EdcaAc, MacKey}
use si_est_a_vr.Ap.Packets.{MpduPacket}
use si_est_a_vr.Ap.State.{Deques, deque_at}
use si_est_a_vr.Ap.Build.{has_key, involved_deques}
use si_est_a_vr.Ap.Parts.{
  PartOf, nothing, keep, skip, nothing_of, has, hits, hits-PartOf, Distinct, PartOf-refl,
  PartOf-append, picked, picked-PartOf, Distinct-PartOf,
}
use si_est_a_vr.Ap.Taken.{
  for_dest, Ident, idents, idents_of, idents_at, idents_in, Present, tagged, Grouped, none_grouped,
  group, Aimed,
}
use si_est_a_vr.Ap.Removal.{AllOf, DistinctKeys, same_key_refl}
use si_est_a_vr.Ap.Sources.{length-idents, length-tagged, length-idents_of, part_in}
use si_est_a_vr.Ap.Retained.{
  same_flow_id, same_flow_id_refl, same_flow_id_sym, leaving, leaving-hits, leaving-PartOf,
}

has_key-PartOf :
    (k : MacKey) (ks keys : List MacKey)
    → PartOf ks keys
    → has_key k keys ≡ false
    → has_key k ks ≡ false
has_key-PartOf k _ _ nothing h = refl
has_key-PartOf k _ _ (keep j ks keys p) h = ground (arith, h, has_key-PartOf k ks keys p)
has_key-PartOf k ks _ (skip j _ keys p) h = ground (arith, h, has_key-PartOf k ks keys p)

pub DistinctKeys-PartOf :
    (ks keys : List MacKey) → PartOf ks keys → DistinctKeys keys → DistinctKeys ks
DistinctKeys-PartOf _ _ nothing d = tt
DistinctKeys-PartOf _ _ (keep k ks keys p) d =
    (has_key-PartOf k ks keys p d.0, DistinctKeys-PartOf ks keys p d.1)
DistinctKeys-PartOf ks _ (skip k _ keys p) d = DistinctKeys-PartOf ks keys p d.1

pub AllOf-PartOf :
    (sta : ℕ) (ac : EdcaAc) (ks keys : List MacKey)
    → PartOf ks keys
    → AllOf sta ac keys
    → AllOf sta ac ks
AllOf-PartOf sta ac _ _ nothing d = tt
AllOf-PartOf sta ac _ _ (keep k ks keys p) d = (d.0, AllOf-PartOf sta ac ks keys p d.1)
AllOf-PartOf sta ac ks _ (skip k _ keys p) d = AllOf-PartOf sta ac ks keys p d.1

pub Present-PartOf :
    (ds : Deques) (ks keys : List MacKey) → PartOf ks keys → Present keys ds → Present ks ds
Present-PartOf ds _ _ nothing d = tt
Present-PartOf ds _ _ (keep k ks keys p) d = (d.0, Present-PartOf ds ks keys p d.1)
Present-PartOf ds ks _ (skip k _ keys p) d = Present-PartOf ds ks keys p d.1

involved_deques-group :
    (key : MacKey) (p : MpduPacket) (ps : List MpduPacket) (others : List (MacKey × MpduPacket))
    → has_key key (involved_deques others) ≡ false
    → involved_deques (tagged key (p ∷ ps) ++ others) ≡ key ∷ involved_deques others
involved_deques-group key p [] others h = rw h refl
involved_deques-group key p (x ∷ xs) others h =
    rw (involved_deques-group key x xs others h, same_key_refl key) refl

pub involved_deques-PartOf :
    (ds : Deques) (keys : List MacKey) (new : List (MacKey × MpduPacket))
    → Grouped ds keys new
    → DistinctKeys keys
    → PartOf (involved_deques new) keys
involved_deques-PartOf ds _ _ (none_grouped keys) d = nothing_of keys
involved_deques-PartOf ds _ _ (group key keys d [] others found part rest) distinct =
    skip key (involved_deques others) keys (involved_deques-PartOf ds keys others rest distinct.1)
involved_deques-PartOf ds _ _ (group key keys d (p ∷ ps) others found part rest) distinct =
    let those = involved_deques-PartOf ds keys others rest distinct.1 in
    rw
      (involved_deques-group key p ps others
        (has_key-PartOf key (involved_deques others) keys those distinct.0))
      (keep key (involved_deques others) keys those)

-- Every one of the second list is among the first.
AllHas : List Ident → List Ident → Type 0
AllHas xs [] = Unit
AllHas xs (y ∷ ys) = (has same_flow_id y xs ≡ true) × AllHas xs ys

AllHas-cons : (x : Ident) (xs ys : List Ident) → AllHas xs ys → AllHas (x ∷ xs) ys
unfolding AllHas
AllHas-cons x xs [] h = tt
AllHas-cons x xs (y ∷ ys) h = (ground (arith, h.0), AllHas-cons x xs ys h.1)

AllHas-refl : (xs : List Ident) → AllHas xs xs
unfolding AllHas
AllHas-refl [] = tt
AllHas-refl (x ∷ xs) = (rw (same_flow_id_refl x) refl, AllHas-cons x xs xs (AllHas-refl xs))

AllHas-tagged :
    (xs : List Ident) (key : MacKey) (new : List MpduPacket) (others : List (MacKey × MpduPacket))
    → AllHas xs (idents_of (tagged key new ++ others))
    → AllHas xs (idents new) × AllHas xs (idents_of others)
unfolding AllHas
AllHas-tagged xs key [] others h = (tt, h)
AllHas-tagged xs key (p ∷ new) others h =
    let (a, b) = AllHas-tagged xs key new others h.1 in ((h.0, a), b)

hits_ge :
    (xs us vs : List Ident) → PartOf us vs → AllHas xs us → length us ≤ hits same_flow_id xs vs
unfolding AllHas
hits_ge xs _ _ nothing h = omega arith
hits_ge xs _ _ (keep u us vs p) h = ground (arith, h.0, hits_ge xs us vs p h.1)
hits_ge xs us _ (skip v _ vs p) h = ground (arith, hits_ge xs us vs p h)

leaving_ge :
    (ds : Deques) (taken : List (MacKey × MpduPacket)) (keys : List MacKey)
    (new : List (MacKey × MpduPacket))
    → Grouped ds keys new
    → DistinctKeys keys
    → AllHas (idents_of taken) (idents_of new)
    → length new ≤ leaving taken (involved_deques new) ds
leaving_ge ds taken _ _ (none_grouped keys) distinct h = omega arith
leaving_ge ds taken _ _ (group key keys d [] others found part rest) distinct h =
    leaving_ge ds taken keys others rest distinct.1 h
leaving_ge ds taken _ _ (group key keys d (p ∷ ps) others found part rest) distinct h =
    let (own, rest_own) = AllHas-tagged (idents_of taken) key (p ∷ ps) others h in
    let those = involved_deques-PartOf ds keys others rest distinct.1 in
    rw
      (
        involved_deques-group key p ps others
            (has_key-PartOf key (involved_deques others) keys those distinct.0),
        found,
      )
      (omega (
        arith,
        hits_ge (idents_of taken) (idents (p ∷ ps)) (idents d) part own,
        leaving_ge ds taken keys others rest distinct.1 rest_own,
        length-idents (p ∷ ps),
        length-tagged key (p ∷ ps),
        length-append (tagged key (p ∷ ps)) others,
      ))

-- Where no two packets have the same source, destination and id, what leaves is what was taken.
pub leaving-taken :
    (ds : Deques) (keys : List MacKey) (taken : List (MacKey × MpduPacket))
    → Grouped ds keys taken
    → DistinctKeys keys
    → PartOf (idents_of taken) (idents_in keys ds)
    → Distinct same_flow_id (idents_in keys ds)
    → leaving taken (involved_deques taken) ds ≡ length taken
leaving-taken ds keys taken grouped once part distinct = omega (
  arith,
  leaving_ge ds taken keys taken grouped once (AllHas-refl (idents_of taken)),
  leaving-PartOf taken (involved_deques taken) keys ds
      (involved_deques-PartOf ds keys taken grouped once),
  leaving-hits taken keys ds,
  hits-PartOf same_flow_id same_flow_id_refl same_flow_id_sym (idents_of taken) (idents_in keys ds)
      part distinct,
  length-idents_of taken,
)

idents_in-PartOf :
    (ds : Deques) (ks keys : List MacKey)
    → PartOf ks keys
    → PartOf (idents_in ks ds) (idents_in keys ds)
idents_in-PartOf ds _ _ nothing = nothing
idents_in-PartOf ds _ _ (keep k ks keys p) =
    let here = idents_at (deque_at k ds) in
    PartOf-append here here (idents_in ks ds) (idents_in keys ds) (PartOf-refl here)
      (idents_in-PartOf ds ks keys p)
idents_in-PartOf ds ks _ (skip k _ keys p) =
    let here = idents_at (deque_at k ds) in
    PartOf-append [] here (idents_in ks ds) (idents_in keys ds) (nothing_of here)
      (idents_in-PartOf ds ks keys p)

-- All that was taken stands in the queues that are involved.
taken-PartOf :
    (ds : Deques) (keys : List MacKey) (new : List (MacKey × MpduPacket))
    → Grouped ds keys new
    → DistinctKeys keys
    → PartOf (idents_of new) (idents_in (involved_deques new) ds)
taken-PartOf ds _ _ (none_grouped keys) distinct = nothing
taken-PartOf ds _ _ (group key keys d [] others found part rest) distinct =
    taken-PartOf ds keys others rest distinct.1
taken-PartOf ds _ _ (group key keys d (p ∷ ps) others found part rest) distinct =
    let those = involved_deques-PartOf ds keys others rest distinct.1 in
    rw
      (involved_deques-group key p ps others
        (has_key-PartOf key (involved_deques others) keys those distinct.0))
      (part_in key (involved_deques others) ds d (p ∷ ps) others found part
        (taken-PartOf ds keys others rest distinct.1))

-- Where no two packets have the same source, destination and id, those of the involved queues that
-- are like one that was taken are the taken ones.
pub picked-taken :
    (ds : Deques) (keys : List MacKey) (taken : List (MacKey × MpduPacket))
    → Grouped ds keys taken
    → DistinctKeys keys
    → Distinct same_flow_id (idents_in keys ds)
    → picked same_flow_id (idents_of taken) (idents_in (involved_deques taken) ds) ≡ idents_of taken
picked-taken ds keys taken grouped once distinct =
    let involved = involved_deques-PartOf ds keys taken grouped once in
    picked-PartOf same_flow_id same_flow_id_refl same_flow_id_sym (idents_of taken)
      (idents_in (involved_deques taken) ds) (taken-PartOf ds keys taken grouped once)
      (Distinct-PartOf same_flow_id same_flow_id_refl same_flow_id_sym
        (idents_in (involved_deques taken) ds) (idents_in keys ds)
        (idents_in-PartOf ds (involved_deques taken) keys involved) distinct)

pub PartOf-for_dest :
    (dest : ℕ) (is js : List Ident) → PartOf is js → Aimed dest is → PartOf is (for_dest dest js)
PartOf-for_dest dest _ _ nothing a = nothing
PartOf-for_dest dest _ _ (keep i is js p) a =
    rw a.0 (keep i is (for_dest dest js) (PartOf-for_dest dest is js p a.1))
PartOf-for_dest dest is _ (skip j _ js p) a =
    let rest = PartOf-for_dest dest is js p a in
    elim (Bool-cases (j.2 == dest)) [
      | inl e ↦ rw e (skip j is (for_dest dest js) rest)
      | inr e ↦ rw e rest
    ]
