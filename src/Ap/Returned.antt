-- ===== src/Ap/Returned.antt =====
-- The packets that get through and those that go back (models_mm1k.rs, `build_new_ampdu`).
use si_est_a_vr.Common.{
  ℕ, suc, ◌+◌, ◌-◌, ◌==◌, ◌≡◌, refl, sym, ◌∙◌, inl, inr, Bool, true, false, if◌then◌else◌, List, [],
  ◌∷◌, length, arith, Bool-cases, ==_refl,
}
use si_est_a_vr.Mac.Edca.{EdcaAc, MacKey}
use si_est_a_vr.Ap.Packets.{MpduPacket, owner_of}
use si_est_a_vr.Ap.State.{Deques, QueueModule}
use si_est_a_vr.Ap.Counts.{weight, total, total-set_deque, same_key→eq}
use si_est_a_vr.Ap.Build.{has_key, succeeded, push_failed, transmit, discount_all}
use si_est_a_vr.Ap.Parts.{PartOf, nothing, keep, skip, has, hits}
use si_est_a_vr.Ap.Taken.{Ident, ident, idents, idents_of, Present, FromKeys}
use si_est_a_vr.Mac.Virtual.{same_key}
use si_est_a_vr.Ap.Removal.{AllOf, Holds, set_deque-Holds, change_deque-found, weight_of}

abbrev pub same_packet_id : Ident → Ident → Bool
same_packet_id i j = i.0 == j.0

pub same_packet_id_refl : (i : Ident) → same_packet_id i i ≡ true
same_packet_id_refl i = ==_refl i.0

pub same_packet_id_sym : (i j : Ident) → same_packet_id i j ≡ same_packet_id j i
same_packet_id_sym i j = ground arith

-- How many packets go back.
abbrev pub missing : List MpduPacket → List (MacKey × MpduPacket) → ℕ
missing sent [] = 0
missing sent ((key, p) ∷ ps) =
    let rest = missing sent ps in if succeeded p sent then rest else suc rest

pub succeeded-has :
    (p : MpduPacket) (sent : List MpduPacket)
    → succeeded p sent ≡ has same_packet_id (ident p) (idents sent)
succeeded-has p [] = refl
succeeded-has p (x ∷ xs) = rw (succeeded-has p xs) refl

pub missing-hits :
    (sent : List MpduPacket) (ps : List (MacKey × MpduPacket))
    → missing sent ps + hits same_packet_id (idents sent) (idents_of ps) ≡ length ps
missing-hits sent [] = omega arith
missing-hits sent ((key, p) ∷ ps) = ground (arith, missing-hits sent ps, succeeded-has p sent)

-- The packets are the station's own, of the category.
abbrev pub Own : ℕ → EdcaAc → List MpduPacket → Type 0
Own sta ac [] = Unit
Own sta ac (p ∷ ps) = ((owner_of p ≡ sta) × (p.edca_ac ≡ ac)) × Own sta ac ps

-- Every packet is from a queue of the station and category that is there.
abbrev pub Placeable : ℕ → EdcaAc → List (MacKey × MpduPacket) → Deques → Type 0
Placeable sta ac [] ds = Unit
Placeable sta ac ((key, p) ∷ ps) ds =
    ((key.0 ≡ sta) × (key.1 ≡ ac) × Holds key ds) × Placeable sta ac ps ds

pub Placeable-Holds :
    (sta : ℕ) (ac : EdcaAc) (ps : List (MacKey × MpduPacket)) (ds ds' : Deques)
    → ((key : MacKey) → Holds key ds → Holds key ds')
    → Placeable sta ac ps ds
    → Placeable sta ac ps ds'
Placeable-Holds sta ac [] ds ds' holds h = tt
Placeable-Holds sta ac ((key, p) ∷ ps) ds ds' holds ((x, y, z), h) =
    ((x, y, holds key z), Placeable-Holds sta ac ps ds ds' holds h)

pub Placeable-FromKeys :
    (sta : ℕ) (ac : EdcaAc) (keys : List MacKey) (ps : List (MacKey × MpduPacket)) (ds : Deques)
    → AllOf sta ac keys
    → Present keys ds
    → FromKeys keys ps
    → Placeable sta ac ps ds
Placeable-FromKeys sta ac keys [] ds of present from = tt
Placeable-FromKeys sta ac keys ((key, p) ∷ ps) ds of present (here, from) =
    (found key keys of present here, Placeable-FromKeys sta ac keys ps ds of present from)
  where
    found :
        (k : MacKey) (ks : List MacKey)
        → AllOf sta ac ks
        → Present ks ds
        → has_key k ks ≡ true
        → (k.0 ≡ sta) × (k.1 ≡ ac) × Holds k ds
    found k [] o h e = absurd (ground (arith, e))
    found k (j ∷ js) o h e = elim (Bool-cases (same_key j k)) [
      | inl f ↦ rw (sym (same_key→eq j k f)) (o.0.0, o.0.1, h.0)
      | inr f ↦ found k js o.1 h.1 (ground (arith, e, f))
    ]

pub total-push_failed :
    (s : ℕ) (a : EdcaAc) (sta : ℕ) (ac : EdcaAc) (link : ℕ) (sent : List MpduPacket)
    (ps : List (MacKey × MpduPacket)) (ds : Deques)
    → Placeable sta ac ps ds
    → (total s a (push_failed sent ps ds)
        ≡ total s a ds + weight s a (sta, ac, link) (missing sent ps))
      × ((key : MacKey) → Holds key ds → Holds key (push_failed sent ps ds))
unfolding push_failed
total-push_failed s a sta ac link sent [] ds h = (ground arith, λ key x. x)
total-push_failed s a sta ac link sent ((key, p) ∷ ps) ds ((own, category, there), h) =
    let (more, holds) = total-push_failed s a sta ac link sent ps ds h in
    let (d, found) = holds key there in
    elim (Bool-cases (succeeded p sent)) [
      | inl e ↦ (rw e more, λ k x. rw e (holds k x))
      | inr e ↦
          let step = change_deque-found (◌∷◌ p) key d (push_failed sent ps ds) found in
          (
            rw (e, step)
                (ground (
                  arith,
                  more,
                  total-set_deque s a key d (p ∷ d) (push_failed sent ps ds) found,
                  weight_of s a key sta ac link (length d) own category,
                  weight_of s a key sta ac link (length (p ∷ d)) own category,
                )),
            λ k x.
                rw (e, step)
                  (set_deque-Holds key k d (p ∷ d) (push_failed sent ps ds) found (holds k x)),
          )
    ]

pub record Sent (loses : ℕ → Bool × ℕ) (t_s : ℕ) (ps : List (MacKey × MpduPacket)) (rng : ℕ)
    : Type 0 where
  pub part : PartOf (idents (transmit loses t_s ps rng).0) (idents_of ps)
  pub all : length (transmit loses t_s ps rng).0 + (transmit loses t_s ps rng).1 ≡ length ps

pub transmit-Sent :
    (loses : ℕ → Bool × ℕ) (t_s : ℕ) (ps : List (MacKey × MpduPacket)) (rng : ℕ)
    → Sent loses t_s ps rng
unfolding transmit
transmit-Sent loses t_s [] rng = record { part = nothing; all = omega arith }
transmit-Sent loses t_s ((key, p) ∷ ps) rng =
    let rest = transmit-Sent loses t_s ps (loses rng).1 in
    elim (Bool-cases (loses rng).0) [
      | inl e ↦ record {
        part = rw e (skip (ident p) _ _ rest.part);
        all = rw e (omega (arith, rest.all));
      }
      | inr e ↦ record {
        part = rw e (keep (ident p) _ _ rest.part);
        all = rw e (omega (arith, rest.all));
      }
    ]

pub transmit-lossless :
    (loses : ℕ → Bool × ℕ) (t_s : ℕ) (ps : List (MacKey × MpduPacket)) (rng : ℕ)
    → ((r : ℕ) → (loses r).0 ≡ false)
    → (transmit loses t_s ps rng).1 ≡ 0
unfolding transmit
transmit-lossless loses t_s [] rng clean = refl
transmit-lossless loses t_s ((key, p) ∷ ps) rng clean =
    rw (clean rng) (transmit-lossless loses t_s ps (loses rng).1 clean)

-- Taking packets off the counts lowers those of their station and category alone.
pub discount_all-counts :
    (s : ℕ) (a : EdcaAc) (sta : ℕ) (ac : EdcaAc) (link : ℕ) (sent : List MpduPacket)
    (q : QueueModule)
    → Own sta ac sent
    → (discount_all sent q).active_mac_key_counts s a
      ≡ q.active_mac_key_counts s a - weight s a (sta, ac, link) (length sent)
unfolding discount_all
discount_all-counts s a sta ac link [] q own = ground arith
discount_all-counts s a sta ac link (p ∷ ps) q own =
    discount_all-counts s a sta ac link ps _ own.1 ∙ rw (own.0.0, own.0.1) (ground arith)

pub discount_all-deques :
    (sent : List MpduPacket) (q : QueueModule) → (discount_all sent q).deques ≡ q.deques
unfolding discount_all
discount_all-deques [] q = refl
discount_all-deques (p ∷ ps) q = discount_all-deques ps _
