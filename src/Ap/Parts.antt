-- ===== src/Ap/Parts.antt =====
-- Lists that are part of others in the same order, and how many of a list without repetitions
-- belong to such a part (models_mm1k.rs, the sets of ids in `build_new_ampdu`).
use si_est_a_vr.Common.{
  ℕ, suc, ◌≤◌, ◌≡◌, refl, ◌∙◌, inl, inr, Bool-cases, Bool, true, false, if◌then◌else◌, List, [],
  ◌∷◌, ◌++◌, length, arith,
}

pub data PartOf {ℓ} {A : Type ℓ} : List A → List A → Type ℓ where
  nothing : PartOf [] []
  keep : (x : A) (xs ys : List A) → PartOf xs ys → PartOf (x ∷ xs) (x ∷ ys)
  skip : (y : A) (xs ys : List A) → PartOf xs ys → PartOf xs (y ∷ ys)

pub PartOf-refl {ℓ} : {A : Type ℓ} (xs : List A) → PartOf xs xs
PartOf-refl [] = nothing
PartOf-refl (x ∷ xs) = keep x xs xs (PartOf-refl xs)

pub nothing_of {ℓ} : {A : Type ℓ} (ys : List A) → PartOf [] ys
nothing_of [] = nothing
nothing_of (y ∷ ys) = skip y [] ys (nothing_of ys)

pub PartOf-append {ℓ} :
    {A : Type ℓ} (xs ys us vs : List A) → PartOf xs ys → PartOf us vs → PartOf (xs ++ us) (ys ++ vs)
PartOf-append _ _ us vs nothing q = q
PartOf-append xs ys us vs (keep x xs' ys' p) q =
    keep x (xs' ++ us) (ys' ++ vs) (PartOf-append xs' ys' us vs p q)
PartOf-append xs ys us vs (skip y xs' ys' p) q =
    skip y (xs ++ us) (ys' ++ vs) (PartOf-append xs ys' us vs p q)

pub PartOf-trans {ℓ} : {A : Type ℓ} (xs ys zs : List A) → PartOf xs ys → PartOf ys zs → PartOf xs zs
PartOf-trans _ _ _ p nothing = p
PartOf-trans _ _ _ (keep x xs _ p) (keep _ ys zs q) = keep x xs zs (PartOf-trans xs ys zs p q)
PartOf-trans xs _ _ (skip _ _ _ p) (keep y ys zs q) = skip y xs zs (PartOf-trans xs ys zs p q)
PartOf-trans xs _ _ p (skip z ys zs q) = skip z xs zs (PartOf-trans xs ys zs p q)

pub PartOf-length_le {ℓ} : {A : Type ℓ} (xs ys : List A) → PartOf xs ys → length xs ≤ length ys
PartOf-length_le _ _ nothing = omega arith
PartOf-length_le xs ys (keep x xs' ys' p) = omega (arith, PartOf-length_le xs' ys' p)
PartOf-length_le xs ys (skip y xs' ys' p) = omega (arith, PartOf-length_le xs ys' p)

module _ {ℓ} {A : Type ℓ} (same : A → A → Bool) where
  abbrev pub has : A → List A → Bool
  has y [] = false
  has y (x ∷ xs) = let rest = has y xs in if same y x then true else rest

  -- How many of the second list are in the first.
  abbrev pub hits : List A → List A → ℕ
  hits xs [] = 0
  hits xs (y ∷ ys) = let rest = hits xs ys in if has y xs then suc rest else rest

  -- Those of the second list that are in the first.
  abbrev pub picked : List A → List A → List A
  picked xs [] = []
  picked xs (y ∷ ys) = let rest = picked xs ys in if has y xs then y ∷ rest else rest

  pub picked-append : (xs ys zs : List A) → picked xs (ys ++ zs) ≡ picked xs ys ++ picked xs zs
  picked-append xs [] zs = refl
  picked-append xs (y ∷ ys) zs = elim (Bool-cases (has y xs)) [
    | inl e ↦ rw (e, picked-append xs ys zs) refl
    | inr e ↦ rw (e, picked-append xs ys zs) refl
  ]

  -- No two are the same.
  abbrev pub Distinct : List A → Type 0
  Distinct [] = Unit
  Distinct (x ∷ xs) = (has x xs ≡ false) × Distinct xs

module _ {ℓ} {A : Type ℓ} (same : A → A → Bool) (same_refl : (x : A) → same x x ≡ true)
    (same_sym : (x y : A) → same x y ≡ same y x) where
  has-PartOf :
      (y : A) (xs ys : List A) → PartOf xs ys → has same y ys ≡ false → has same y xs ≡ false
  has-PartOf y _ _ nothing h = refl
  has-PartOf y xs ys (keep x xs' ys' p) h = ground (arith, h, has-PartOf y xs' ys' p)
  has-PartOf y xs ys (skip x xs' ys' p) h = ground (arith, h, has-PartOf y xs ys' p)

  pub Distinct-PartOf : (xs ys : List A) → PartOf xs ys → Distinct same ys → Distinct same xs
  Distinct-PartOf _ _ nothing d = tt
  Distinct-PartOf xs ys (keep x xs' ys' p) d =
      (has-PartOf x xs' ys' p d.0, Distinct-PartOf xs' ys' p d.1)
  Distinct-PartOf xs ys (skip y xs' ys' p) d = Distinct-PartOf xs ys' p d.1

  -- One that none of a list is the same as makes no difference.
  hits-fresh :
      (x : A) (xs ys : List A) → has same x ys ≡ false → hits same (x ∷ xs) ys ≡ hits same xs ys
  hits-fresh x xs [] h = refl
  hits-fresh x xs (y ∷ ys) h = ground (arith, h, same_sym x y, hits-fresh x xs ys)

  pub hits-PartOf : (xs ys : List A) → PartOf xs ys → Distinct same ys → hits same xs ys ≡ length xs
  hits-PartOf _ _ nothing d = refl
  hits-PartOf xs ys (keep x xs' ys' p) d =
      ground (arith, d.0, same_refl x, hits-fresh x xs' ys' d.0, hits-PartOf xs' ys' p d.1)
  hits-PartOf xs ys (skip y xs' ys' p) d =
      ground (arith, has-PartOf y xs ys' p d.0, hits-PartOf xs ys' p d.1)

  picked-fresh :
      (x : A) (xs ys : List A) → has same x ys ≡ false → picked same (x ∷ xs) ys ≡ picked same xs ys
  picked-fresh x xs [] h = refl
  picked-fresh x xs (y ∷ ys) h =
      let other : same y x ≡ false = same_sym y x ∙ ground (arith, h) in
      rw (other, picked-fresh x xs ys (ground (arith, h))) refl

  pub picked-PartOf : (xs ys : List A) → PartOf xs ys → Distinct same ys → picked same xs ys ≡ xs
  picked-PartOf _ _ nothing d = refl
  picked-PartOf xs ys (keep x xs' ys' p) d =
      rw (same_refl x, picked-fresh x xs' ys' d.0, picked-PartOf xs' ys' p d.1) refl
  picked-PartOf xs ys (skip y xs' ys' p) d =
      rw (has-PartOf y xs ys' p d.0) (picked-PartOf xs ys' p d.1)
