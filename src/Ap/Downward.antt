-- ===== src/Ap/Downward.antt =====
-- An A-MPDU downwards (models_mm1k.rs, `build_new_ampdu`): its queues hold packets for all stations.
use mathlib.Core.Path.{subst}
use si_est_a_vr.Common.{ℕ, ◌+◌, ◌≡◌, refl, sym, ap, ◌∙◌, inr, false, some, length, ok, lookup}
use si_est_a_vr.Mac.Edca.{EdcaAc, MacKey}
use si_est_a_vr.Ap.Packets.{ap_id, MpduPacket, is_ul}
use si_est_a_vr.Ap.State.{QueueModule, AmpduPacket}
use si_est_a_vr.Ap.Input.{key_of}
use si_est_a_vr.Ap.Counts.{weight, total, IsValid}
use si_est_a_vr.Ap.Aggregate.{Radio, Flow, source_keys}
use si_est_a_vr.Ap.Build.{
  nothing_taken, removed_from, finish_ampdu, build_new_ampdu, retain_in, involved_deques,
}
use si_est_a_vr.Ap.Parts.{Distinct, Distinct-PartOf}
use si_est_a_vr.Ap.Taken.{for_dest, idents_of, idents_in}
use si_est_a_vr.Ap.Tallies.{count, tally, tally-retain_in}
use si_est_a_vr.Ap.Gained.{take_from_all-Gained}
use si_est_a_vr.Ap.Removal.{Holds}
use si_est_a_vr.Ap.Returned.{same_packet_id, same_packet_id_refl, same_packet_id_sym}
use si_est_a_vr.Ap.Keys.{source_keys_lem}
use si_est_a_vr.Ap.Finished.{IsReady, Built, removed_downwards, finish_ampdu-Built}
use si_est_a_vr.Ap.Retained.{same_flow_id, leaving, total-retain_in}
use si_est_a_vr.Ap.Involved.{
  DistinctKeys-PartOf, AllOf-PartOf, Present-PartOf, involved_deques-PartOf, leaving-taken,
  picked-taken, PartOf-for_dest,
}

module _ (radio : Radio) where
  pub build_new_ampdu-Built_downwards :
      (first : MpduPacket) (link now coords : ℕ) (q : QueueModule)
      → IsValid q
      → is_ul first ≡ false
      → lookup first.sta_dest_id q.sta_coords_map ≡ some coords
      → IsReady first (ap_id, first.edca_ac, link) link q
      → Distinct same_flow_id (idents_in (source_keys (ap_id, first.edca_ac, link) q) q.deques)
      → Distinct same_packet_id (
          for_dest first.sta_dest_id
            (idents_in (source_keys (ap_id, first.edca_ac, link) q) q.deques))
      → (ampdu : AmpduPacket) × (duration : ℕ) × (q' : QueueModule) × (build_new_ampdu radio first
            link now q
          ≡ ok (ampdu, duration, q'))
        × Built radio (ap_id, first.edca_ac, link) q ampdu q'
  unfolding build_new_ampdu
  build_new_ampdu-Built_downwards first link now coords q valid down placed ready flows ids =
      let key : MacKey = (ap_id, first.edca_ac, link) in
      let keys = source_keys key q in
      let flow : Flow = record {
        up = is_ul first;
        target_dest_id = first.sta_dest_id;
        mac_key = key;
        channel_width = ready.width;
        txop_limit_us = ready.state.param.txop_limit_us;
      } in
      let own : key_of first.sta_src_id first.sta_dest_id first.edca_ac link ≡ key = rw down refl in
      let (of, present, once) =
        source_keys_lem ap_id first.edca_ac link ready.waiting q ready.links ready.queued in
      let (t, result, gained) =
        take_from_all-Gained radio now q flow (inr (down, coords, placed)) keys present
          (nothing_taken radio (length ready.waiting)) in
      let removed = removed_downwards radio flow t q.deques down in
      let same : t.taken_snapshot ≡ gained.new = gained.snapshot in
      let involved = involved_deques-PartOf q.deques keys gained.new gained.grouped once in
      let left = leaving-taken q.deques keys gained.new gained.grouped once gained.part flows in
      let retained : (s : ℕ) (a : EdcaAc)
          → (total s a (retain_in gained.new (involved_deques gained.new) q.deques)
                + weight s a key (leaving gained.new (involved_deques gained.new) q.deques)
              ≡ total s a q.deques)
            × ((k : MacKey)
                → Holds k q.deques
                → Holds k (retain_in gained.new (involved_deques gained.new) q.deques)) =
        λ s a.
          total-retain_in s a ap_id first.edca_ac link gained.new q.deques q.deques
            (involved_deques gained.new)
            (DistinctKeys-PartOf (involved_deques gained.new) keys involved once)
            (AllOf-PartOf ap_id first.edca_ac (involved_deques gained.new) keys involved of)
            (Present-PartOf q.deques (involved_deques gained.new) keys involved present)
            (λ k h. refl) in
      let queues : removed_from radio flow t q.deques
          ≡ retain_in gained.new (involved_deques gained.new) q.deques =
        removed ∙ ap (λ taken. retain_in taken (involved_deques taken) q.deques) same in
      (
        (finish_ampdu radio first link flow t q).0,
        (finish_ampdu radio first link flow t q).1,
        (finish_ampdu radio first link flow t q).2,
        rw (ready.wide, ready.positive, own) (rw (ready.contends, ready.queued) (rw result refl)),
        finish_ampdu-Built radio first now ap_id first.edca_ac link (length ready.waiting) flow t q
            valid of present gained
            (λ s a.
              ap (λ ds. total s a ds + weight s a key (length gained.new)) queues
              ∙ ap
                  (λ n.
                    total s a (retain_in gained.new (involved_deques gained.new) q.deques)
                    + weight s a key n)
                  (sym left)
              ∙ (retained s a).0)
            (λ test.
              ap (λ ds. tally test ds + count test (idents_of gained.new)) queues
              ∙ ap
                  (λ is.
                    tally test (retain_in gained.new (involved_deques gained.new) q.deques)
                    + count test is)
                  (sym (picked-taken q.deques keys gained.new gained.grouped once flows))
              ∙ tally-retain_in test gained.new q.deques q.deques (involved_deques gained.new)
                  (DistinctKeys-PartOf (involved_deques gained.new) keys involved once)
                  (Present-PartOf q.deques (involved_deques gained.new) keys involved present)
                  (λ k h. refl))
            (λ k h. subst (λ ds. Holds k ds) (sym queues) ((retained 0 first.edca_ac).1 k h))
            (Distinct-PartOf same_packet_id same_packet_id_refl same_packet_id_sym
              (idents_of gained.new) (for_dest first.sta_dest_id (idents_in keys q.deques))
              (PartOf-for_dest first.sta_dest_id (idents_of gained.new) (idents_in keys q.deques)
                gained.part (gained.aimed down))
              ids)
            refl refl,
      )
