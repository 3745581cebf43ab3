-- ===== src/Ap/Owned.antt =====
-- Whose packets an A-MPDU holds (models_mm1k.rs, `build_new_ampdu`).
use si_est_a_vr.Common.{ℕ, ◌≡◌, ◌∙◌, List, [], ◌∷◌, ◌++◌, if◌then◌else◌}
use si_est_a_vr.Mac.Edca.{EdcaAc, MacKey}
use si_est_a_vr.Ap.Packets.{MpduPacket, signed_gt, ap_id}
use si_est_a_vr.Ap.State.{Deques}
use si_est_a_vr.Ap.Counts.{Belong, Placed}
use si_est_a_vr.Ap.Stored.{Placed-deque_at}
use si_est_a_vr.Ap.Parts.{PartOf, nothing, keep, skip}
use si_est_a_vr.Ap.Taken.{Ident, idents, idents_in, Present}
use si_est_a_vr.Ap.Removal.{AllOf}
use si_est_a_vr.Ap.Returned.{Own}

-- The station in whose queue a packet waits.
abbrev ident_owner : Ident → ℕ
ident_owner i = if signed_gt i.1 i.2 then i.1 else ap_id

abbrev ident_ac : Ident → EdcaAc
ident_ac i = i.3

abbrev OwnIdents : ℕ → EdcaAc → List Ident → Type 0
OwnIdents sta ac [] = Unit
OwnIdents sta ac (i ∷ is) = ((ident_owner i ≡ sta) × (ident_ac i ≡ ac)) × OwnIdents sta ac is

OwnIdents-PartOf :
    (sta : ℕ) (ac : EdcaAc) (is js : List Ident)
    → PartOf is js
    → OwnIdents sta ac js
    → OwnIdents sta ac is
OwnIdents-PartOf sta ac _ _ nothing o = tt
OwnIdents-PartOf sta ac _ _ (keep i is js p) o = (o.0, OwnIdents-PartOf sta ac is js p o.1)
OwnIdents-PartOf sta ac _ _ (skip j is js p) o = OwnIdents-PartOf sta ac is js p o.1

OwnIdents-append :
    (sta : ℕ) (ac : EdcaAc) (is js : List Ident)
    → OwnIdents sta ac is
    → OwnIdents sta ac js
    → OwnIdents sta ac (is ++ js)
OwnIdents-append sta ac [] js o p = p
OwnIdents-append sta ac (i ∷ is) js o p = (o.0, OwnIdents-append sta ac is js o.1 p)

Belong-OwnIdents :
    (sta : ℕ) (ac : EdcaAc) (key : MacKey) (ps : List MpduPacket)
    → key.0 ≡ sta
    → key.1 ≡ ac
    → Belong key ps
    → OwnIdents sta ac (idents ps)
Belong-OwnIdents sta ac key [] x y b = tt
Belong-OwnIdents sta ac key (p ∷ ps) x y b =
    ((b.0.0 ∙ x, b.0.1 ∙ y), Belong-OwnIdents sta ac key ps x y b.1)

queued-OwnIdents :
    (sta : ℕ) (ac : EdcaAc) (dl ul : ℕ) (keys : List MacKey) (ds : Deques)
    → AllOf sta ac keys
    → Present keys ds
    → Placed dl ul ds
    → OwnIdents sta ac (idents_in keys ds)
queued-OwnIdents sta ac dl ul [] ds of present placed = tt
queued-OwnIdents sta ac dl ul (key ∷ keys) ds of ((d, found), present) placed = rw found (
    OwnIdents-append sta ac (idents d) (idents_in keys ds)
      (Belong-OwnIdents sta ac key d of.0.0 of.0.1 (Placed-deque_at dl ul key d ds placed found))
      (queued-OwnIdents sta ac dl ul keys ds of.1 present placed))

sent-Own :
    (sta : ℕ) (ac : EdcaAc) (ps : List MpduPacket) → OwnIdents sta ac (idents ps) → Own sta ac ps
sent-Own sta ac [] o = tt
sent-Own sta ac (p ∷ ps) o = (o.0, sent-Own sta ac ps o.1)

-- What is sent of what was taken from a station's queues is the station's.
pub taken-Own :
    (sta : ℕ) (ac : EdcaAc) (dl ul : ℕ) (keys : List MacKey) (ds : Deques) (is : List Ident)
    (sent : List MpduPacket)
    → AllOf sta ac keys
    → Present keys ds
    → Placed dl ul ds
    → PartOf is (idents_in keys ds)
    → PartOf (idents sent) is
    → Own sta ac sent
taken-Own sta ac dl ul keys ds is sent of present placed taken through = sent-Own sta ac sent (
    OwnIdents-PartOf sta ac (idents sent) is through (
      OwnIdents-PartOf sta ac is (idents_in keys ds) taken
        (queued-OwnIdents sta ac dl ul keys ds of present placed)))
