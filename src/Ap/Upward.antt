-- ===== src/Ap/Upward.antt =====
-- An A-MPDU upwards (models_mm1k.rs, `build_new_ampdu`).
use mathlib.Core.Path.{subst}
use si_est_a_vr.Common.{ℕ, ◌+◌, ◌≡◌, refl, sym, ap, ◌∙◌, inl, true, length, ok}
use si_est_a_vr.Mac.Edca.{EdcaAc, MacKey}
use si_est_a_vr.Ap.Packets.{MpduPacket, is_ul}
use si_est_a_vr.Ap.State.{QueueModule, AmpduPacket}
use si_est_a_vr.Ap.Input.{key_of}
use si_est_a_vr.Ap.Counts.{weight, total, IsValid}
use si_est_a_vr.Ap.Aggregate.{Radio, Flow, source_keys}
use si_est_a_vr.Ap.Build.{pop_taken, nothing_taken, finish_ampdu, build_new_ampdu}
use si_est_a_vr.Ap.Parts.{Distinct, Distinct-PartOf}
use si_est_a_vr.Ap.Taken.{idents_of, idents_in, sum_taken}
use si_est_a_vr.Ap.Tallies.{count, tally, tally-pop_taken}
use si_est_a_vr.Ap.Gained.{take_from_all-Gained}
use si_est_a_vr.Ap.Removal.{Holds, total-pop_taken}
use si_est_a_vr.Ap.Returned.{same_packet_id, same_packet_id_refl, same_packet_id_sym}
use si_est_a_vr.Ap.Keys.{source_keys_lem}
use si_est_a_vr.Ap.Finished.{IsReady, Built, removed_upwards, finish_ampdu-Built}

module _ (radio : Radio) where
  pub build_new_ampdu-Built_upwards :
      (first : MpduPacket) (link now : ℕ) (q : QueueModule)
      → IsValid q
      → is_ul first ≡ true
      → IsReady first (first.sta_src_id, first.edca_ac, link) link q
      → Distinct same_packet_id
          (idents_in (source_keys (first.sta_src_id, first.edca_ac, link) q) q.deques)
      → (ampdu : AmpduPacket) × (duration : ℕ) × (q' : QueueModule) × (build_new_ampdu radio first
            link now q
          ≡ ok (ampdu, duration, q'))
        × Built radio (first.sta_src_id, first.edca_ac, link) q ampdu q'
  unfolding build_new_ampdu
  build_new_ampdu-Built_upwards first link now q valid up ready distinct =
      let key : MacKey = (first.sta_src_id, first.edca_ac, link) in
      let flow : Flow = record {
        up = is_ul first;
        target_dest_id = first.sta_dest_id;
        mac_key = key;
        channel_width = ready.width;
        txop_limit_us = ready.state.param.txop_limit_us;
      } in
      let own : key_of first.sta_src_id first.sta_dest_id first.edca_ac link ≡ key = rw up refl in
      let (of, present, once) =
        source_keys_lem first.sta_src_id first.edca_ac link ready.waiting q ready.links
          ready.queued in
      let (t, result, gained) =
        take_from_all-Gained radio now q flow (inl up) (source_keys key q) present
          (nothing_taken radio (length ready.waiting)) in
      let removed = removed_upwards radio flow t q.deques up in
      let noted : t.deque_sources ≡ gained.added = gained.sources in
      let counted : length gained.new ≡ sum_taken t.deque_sources =
        sym gained.sum ∙ ap sum_taken (sym noted) in
      let popped : (s : ℕ) (a : EdcaAc)
          → (total s a (pop_taken t.deque_sources q.deques)
                + weight s a key (sum_taken t.deque_sources)
              ≡ total s a q.deques)
            × ((k : MacKey) → Holds k q.deques → Holds k (pop_taken t.deque_sources q.deques)) =
        λ s a.
          total-pop_taken s a first.sta_src_id first.edca_ac link q.deques q.deques
            (source_keys key q) t.deque_sources (rw noted gained.pops) once of (λ k h. refl) in
      (
        (finish_ampdu radio first link flow t q).0,
        (finish_ampdu radio first link flow t q).1,
        (finish_ampdu radio first link flow t q).2,
        rw (ready.wide, ready.positive, own) (rw (ready.contends, ready.queued) (rw result refl)),
        finish_ampdu-Built radio first now first.sta_src_id first.edca_ac link
            (length ready.waiting) flow t q valid of present gained
            (λ s a.
              ap (λ ds. total s a ds + weight s a key (length gained.new)) removed
              ∙ ap (λ n. total s a (pop_taken t.deque_sources q.deques) + weight s a key n) counted
              ∙ (popped s a).0)
            (λ test.
              ap (λ ds. tally test ds + count test (idents_of gained.new)) removed
              ∙ tally-pop_taken test q.deques q.deques (source_keys key q) t.deque_sources
                  (idents_of gained.new) (rw noted (gained.fronts up)) once (λ k h. refl))
            (λ k h. subst (λ ds. Holds k ds) (sym removed) ((popped 0 first.edca_ac).1 k h))
            (Distinct-PartOf same_packet_id same_packet_id_refl same_packet_id_sym
              (idents_of gained.new) (idents_in (source_keys key q) q.deques) gained.part distinct)
            refl refl,
      )
