-- ===== src/Ap/Conserved.antt =====
-- An A-MPDU takes from the queues and the counts what it carries (models_mm1k.rs, `build_new_ampdu`).
use si_est_a_vr.Common.{ℕ, ◌+◌, ◌-◌, ◌≡◌, ap, ◌∙◌, Bool, List, length, arith}
use si_est_a_vr.Mac.Edca.{EdcaAc, MacKey}
use si_est_a_vr.Ap.Packets.{MpduPacket}
use si_est_a_vr.Ap.State.{QueueModule, Deques}
use si_est_a_vr.Ap.Counts.{weight, total, IsValid}
use si_est_a_vr.Ap.Build.{transmit, push_failed, discount_all}
use si_est_a_vr.Ap.Parts.{hits, hits-PartOf, picked-PartOf, Distinct}
use si_est_a_vr.Ap.Taken.{Ident, idents, idents_of}
use si_est_a_vr.Ap.Tallies.{count, tally, tally-push_failed}
use si_est_a_vr.Ap.Sources.{length-idents}
use si_est_a_vr.Ap.Returned.{
  same_packet_id, same_packet_id_refl, same_packet_id_sym, missing, missing-hits, Own, Placeable,
  total-push_failed, transmit-Sent, discount_all-counts, discount_all-deques,
}

-- The packets that went out left the queues and the counts, and no others did: those that waited are
-- those that went out and those that still wait, whatever one asks of them.
pub record Conserved (key : MacKey) (q : QueueModule) (sent : List MpduPacket) (q' : QueueModule)
    : Type 0 where
  pub counted : (s : ℕ) (a : EdcaAc) → q'.active_mac_key_counts s a ≡ total s a q'.deques
  pub conserved :
      (s : ℕ) (a : EdcaAc) → total s a q'.deques + weight s a key (length sent) ≡ total s a q.deques
  pub content :
      (test : Ident → Bool) → tally test q'.deques + count test (idents sent) ≡ tally test q.deques

-- What goes back makes up for what did not get through.
balance :
    (s : ℕ) (a : EdcaAc) (sta : ℕ) (ac : EdcaAc) (link before removed : ℕ) (ds : Deques)
    (taken : List (MacKey × MpduPacket)) (sent : List MpduPacket)
    → removed + weight s a (sta, ac, link) (length taken) ≡ before
    → total s a ds ≡ removed + weight s a (sta, ac, link) (missing sent taken)
    → missing sent taken + length sent ≡ length taken
    → total s a ds + weight s a (sta, ac, link) (length sent) ≡ before
balance s a sta ac link before removed ds taken sent less more all = ground (arith, less, more, all)

-- Whatever way the taken packets are removed.
pub finished-Conserved :
    (loses : ℕ → Bool × ℕ) (t_s : ℕ) (sta : ℕ) (ac : EdcaAc) (link : ℕ) (q q0 : QueueModule)
    (taken : List (MacKey × MpduPacket)) (removed : Deques) (rng : ℕ)
    → IsValid q
    → ((s : ℕ) (a : EdcaAc)
        → total s a removed + weight s a (sta, ac, link) (length taken) ≡ total s a q.deques)
    → ((test : Ident → Bool)
        → tally test removed + count test (idents_of taken) ≡ tally test q.deques)
    → Placeable sta ac taken removed
    → Distinct same_packet_id (idents_of taken)
    → Own sta ac (transmit loses t_s taken rng).0
    → q0.active_mac_key_counts ≡ q.active_mac_key_counts
    → q0.deques ≡ push_failed (transmit loses t_s taken rng).0 taken removed
    → Conserved
        (sta, ac, link)
        q
        (transmit loses t_s taken rng).0
        (discount_all (transmit loses t_s taken rng).0 q0)
finished-Conserved loses t_s sta ac link q q0 taken removed rng valid less left placeable distinct
      own counts queues =
    let sent : List MpduPacket = (transmit loses t_s taken rng).0 in
    let through = transmit-Sent loses t_s taken rng in
    let found : hits same_packet_id (idents sent) (idents_of taken) ≡ length (idents sent) =
      hits-PartOf same_packet_id same_packet_id_refl same_packet_id_sym (idents sent)
        (idents_of taken) through.part distinct in
    let all : missing sent taken + length sent ≡ length taken =
      omega (arith, missing-hits sent taken, found, length-idents sent) in
    let after = discount_all-deques sent q0 ∙ queues in
    let kept : (s : ℕ) (a : EdcaAc)
        → total s a (discount_all sent q0).deques + weight s a (sta, ac, link) (length sent)
          ≡ total s a q.deques =
      λ s a. rw after (
        balance s a sta ac link (total s a q.deques) (total s a removed)
          (push_failed sent taken removed) taken sent (less s a)
          (total-push_failed s a sta ac link sent taken removed placeable).0 all) in
    record {
      counted = λ s a.
          discount_all-counts s a sta ac link sent q0 own
          ∙ ap (λ c. c s a - weight s a (sta, ac, link) (length sent)) counts
          ∙ omega (arith, valid.counted s a, kept s a);
      conserved = kept;
      content = λ test. rw after (
          omega (
            arith,
            left test,
            tally-push_failed test sta ac link sent taken removed placeable,
            ap (count test) (
                picked-PartOf same_packet_id same_packet_id_refl same_packet_id_sym (idents sent)
                  (idents_of taken) through.part distinct),
          ));
    }
