-- ===== src/Ap/Keys.antt =====
-- The queues that an A-MPDU is built from (models_mm1k.rs, `build_new_ampdu`).
use si_est_a_vr.Common.{
  ℕ, ◌==◌, ◌≡◌, refl, Bool, true, false, not, ◌&&◌, ◌||◌, ltb, if◌then◌else◌, Option, none, some,
  List, [], ◌∷◌, arith, if_elim,
}
use si_est_a_vr.Mac.Edca.{EdcaAc}
use si_est_a_vr.Mac.Medium.{Medium}
use si_est_a_vr.Ap.Packets.{MpduPacket}
use si_est_a_vr.Ap.State.{QueueModule, Deques, deque_at}
use si_est_a_vr.Ap.Aggregate.{insert_link, other_links, has_packets, alternatives, source_keys}
use si_est_a_vr.Ap.Build.{has_key}
use si_est_a_vr.Ap.Taken.{Present}
use si_est_a_vr.Ap.Removal.{AllOf, DistinctKeys}

abbrev pub has_link : ℕ → List ℕ → Bool
has_link l [] = false
has_link l (k ∷ ks) = let rest = has_link l ks in if k == l then true else rest

abbrev pub has_medium : ℕ → List (ℕ × Medium) → Bool
has_medium l [] = false
has_medium l ((k, m) ∷ ms) = let rest = has_medium l ms in if k == l then true else rest

-- A hash map has each link once.
abbrev pub DistinctLinks : List (ℕ × Medium) → Type 0
DistinctLinks [] = Unit
DistinctLinks ((l, m) ∷ ms) = (has_medium l ms ≡ false) × DistinctLinks ms

NoLinkTwice : List ℕ → Type 0
NoLinkTwice [] = Unit
NoLinkTwice (l ∷ ls) = (has_link l ls ≡ false) × NoLinkTwice ls

has_link-insert_link :
    (l k : ℕ) (ls : List ℕ) → has_link l (insert_link k ls) ≡ ((k == l) || has_link l ls)
has_link-insert_link l k [] = ground arith
has_link-insert_link l k (j ∷ js) = ground (arith, has_link-insert_link l k js)

insert_link-distinct :
    (k : ℕ) (ls : List ℕ) → has_link k ls ≡ false → NoLinkTwice ls → NoLinkTwice (insert_link k ls)
unfolding NoLinkTwice
insert_link-distinct k [] h d = (h, tt)
insert_link-distinct k (j ∷ js) h d =
    if_elim NoLinkTwice (ltb j k)
      (λ e. (
        ground (arith, has_link-insert_link j k js, d.0, e),
        insert_link-distinct k js (ground (arith, h)) d.1,
      ))
      (λ e. (h, d))

has_link-other_links :
    (l link : ℕ) (ms : List (ℕ × Medium))
    → has_link l (other_links link ms) ≡ (has_medium l ms && not (l == link))
has_link-other_links l link [] = refl
has_link-other_links l link ((k, m) ∷ ms) =
    ground (arith, has_link-other_links l link ms, has_link-insert_link l k (other_links link ms))

other_links-distinct :
    (link : ℕ) (ms : List (ℕ × Medium)) → DistinctLinks ms → NoLinkTwice (other_links link ms)
unfolding NoLinkTwice
other_links-distinct link [] d = tt
other_links-distinct link ((k, m) ∷ ms) d =
    if_elim NoLinkTwice (k == link) (λ e. other_links-distinct link ms d.1)
      (λ e.
        insert_link-distinct k (other_links link ms)
          (ground (arith, has_link-other_links k link ms, d.0)) (other_links-distinct link ms d.1))

has_key-alternatives :
    (sta l : ℕ) (ac : EdcaAc) (ls : List ℕ) (ds : Deques)
    → has_link l ls ≡ false
    → has_key (sta, ac, l) (alternatives sta ac ls ds) ≡ false
has_key-alternatives sta l ac [] ds h = refl
has_key-alternatives sta l ac (k ∷ ks) ds h =
    if_elim (λ keys. has_key (sta, ac, l) keys ≡ false) (has_packets (deque_at (sta, ac, k) ds))
      (λ e. ground (arith, h, has_key-alternatives sta l ac ks ds (ground (arith, h))))
      (λ e. has_key-alternatives sta l ac ks ds (ground (arith, h)))

alternatives-DistinctKeys :
    (sta : ℕ) (ac : EdcaAc) (ls : List ℕ) (ds : Deques)
    → NoLinkTwice ls
    → DistinctKeys (alternatives sta ac ls ds)
unfolding NoLinkTwice
alternatives-DistinctKeys sta ac [] ds d = tt
alternatives-DistinctKeys sta ac (k ∷ ks) ds d =
    if_elim DistinctKeys (has_packets (deque_at (sta, ac, k) ds))
      (λ e. (has_key-alternatives sta k ac ks ds d.0, alternatives-DistinctKeys sta ac ks ds d.1))
      (λ e. alternatives-DistinctKeys sta ac ks ds d.1)

alternatives-AllOf :
    (sta : ℕ) (ac : EdcaAc) (ls : List ℕ) (ds : Deques) → AllOf sta ac (alternatives sta ac ls ds)
alternatives-AllOf sta ac [] ds = tt
alternatives-AllOf sta ac (k ∷ ks) ds =
    if_elim (AllOf sta ac) (has_packets (deque_at (sta, ac, k) ds))
      (λ e. ((refl, refl), alternatives-AllOf sta ac ks ds)) (λ e. alternatives-AllOf sta ac ks ds)

alternatives-Present :
    (sta : ℕ) (ac : EdcaAc) (ls : List ℕ) (ds : Deques) → Present (alternatives sta ac ls ds) ds
alternatives-Present sta ac [] ds = tt
alternatives-Present sta ac (k ∷ ks) ds =
    if_elim (λ keys. Present keys ds) (has_packets (deque_at (sta, ac, k) ds))
      (λ e. (there (deque_at (sta, ac, k) ds) e, alternatives-Present sta ac ks ds))
      (λ e. alternatives-Present sta ac ks ds)
  where
    there :
        (o : Option (List MpduPacket)) → has_packets o ≡ true → (d : List MpduPacket) × (o ≡ some d)
    there none h = absurd (ground (arith, h))
    there (some d) h = (d, refl)

-- The queues are the station's and the category's, each is there, and none comes twice.
pub source_keys_lem :
    (sta : ℕ) (ac : EdcaAc) (link : ℕ) (d : List MpduPacket) (q : QueueModule)
    → DistinctLinks q.link_mediums
    → deque_at (sta, ac, link) q.deques ≡ some d
    → AllOf sta ac (source_keys (sta, ac, link) q)
      × Present (source_keys (sta, ac, link) q) q.deques
      × DistinctKeys (source_keys (sta, ac, link) q)
unfolding source_keys
source_keys_lem sta ac link d q links found =
    let others = other_links link q.link_mediums in
    (
      ((refl, refl), alternatives-AllOf sta ac others q.deques),
      ((d, found), alternatives-Present sta ac others q.deques),
      (
        has_key-alternatives sta link ac others q.deques
            (ground (arith, has_link-other_links link link q.link_mediums)),
        alternatives-DistinctKeys sta ac others q.deques
            (other_links-distinct link q.link_mediums links),
      ),
    )
