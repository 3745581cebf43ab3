-- ===== src/Ap/Finished.antt =====
-- What follows the aggregation (models_mm1k.rs, `build_new_ampdu`), for both directions.
use si_est_a_vr.Common.{
  ℕ, Bool, ◌⊎◌, inl, inr, ◌+◌, ◌≤◌, ◌≡◌, refl, ap, ◌∙◌, true, false, ◌&&◌, some, List, length, ok,
  lookup, arith,
}
use si_est_a_vr.Mac.Edca.{EdcaAc, MacKey}
use si_est_a_vr.Mac.Backoff.{DcfStats}
use si_est_a_vr.Ap.Packets.{MpduPacket, signed_gt, is_ul}
use si_est_a_vr.Ap.State.{QueueModule, AmpduPacket, Deques, deque_at}
use si_est_a_vr.Ap.Counts.{weight, total, IsValid}
use si_est_a_vr.Ap.Aggregate.{Radio, Flow, Taking, dcf, source_keys}
use si_est_a_vr.Ap.Build.{
  transmit, pop_taken, push_failed, nothing_taken, removed_from, finish_ampdu, retain_in,
  involved_deques,
}
use si_est_a_vr.Ap.Parts.{PartOf, Distinct, PartOf-trans}
use si_est_a_vr.Ap.Taken.{eligible, Limited, Ident, idents, idents_of, idents_in, Present}
use si_est_a_vr.Ap.Drawn.{Gained}
use si_est_a_vr.Ap.Tallies.{count, tally}
use si_est_a_vr.Ap.Sources.{length-idents_of}
use si_est_a_vr.Ap.Removal.{AllOf, Holds}
use si_est_a_vr.Ap.Returned.{
  same_packet_id, Placeable, Placeable-Holds, Placeable-FromKeys, transmit-Sent, transmit-lossless,
}
use si_est_a_vr.Ap.Keys.{DistinctLinks}
use si_est_a_vr.Ap.Owned.{taken-Own}
use si_est_a_vr.Ap.Conserved.{Conserved, finished-Conserved}

-- What the code takes for granted of a first packet: its link has a width, both its stations have
-- positive ids, its key has a contention state and a queue; and each link has one medium.
pub record IsReady (first : MpduPacket) (key : MacKey) (link : ℕ) (q : QueueModule) : Type 0 where
  pub width : ℕ
  pub wide : lookup link q.link_channel_widths ≡ some width
  pub positive : (signed_gt first.sta_src_id 0 && signed_gt first.sta_dest_id 0) ≡ true
  pub state : DcfStats
  pub contends : dcf key q.dcf_values ≡ ok state
  pub waiting : List MpduPacket
  pub queued : deque_at key q.deques ≡ some waiting
  pub links : DistinctLinks q.link_mediums

-- The A-MPDU, as it is built. It holds all packets that it may take unless one more would break a
-- limit, and if the channel loses none, all that it holds get through.
pub record Built (radio : Radio) (key : MacKey) (q : QueueModule) (ampdu : AmpduPacket)
    (q' : QueueModule) : Type 0 where
  pub balanced : Conserved key q ampdu.mpdu_packets q'
  pub size_le : ampdu.size ≤ q.packs_per_ampdu
  pub sent_le : length ampdu.mpdu_packets ≤ ampdu.size
  pub in_order : PartOf (idents ampdu.mpdu_packets) (idents_in (source_keys key q) q.deques)
  pub complete :
      (ampdu.size
        ≡ length (
            eligible
              (signed_gt ampdu.sta_src_id ampdu.sta_dest_id)
              ampdu.sta_dest_id
              (idents_in (source_keys key q) q.deques)))
      ⊎ Limited radio q.packs_per_ampdu ampdu.size
  pub lossless : ((rng : ℕ) → (radio.loses rng).0 ≡ false) → length ampdu.mpdu_packets ≡ ampdu.size

module _ (radio : Radio) where
  pub removed_upwards :
      (flow : Flow) (t : Taking radio) (ds : Deques)
      → flow.up ≡ true
      → removed_from radio flow t ds ≡ pop_taken t.deque_sources ds
  removed_upwards flow t ds up = rw up refl

  pub removed_downwards :
      (flow : Flow) (t : Taking radio) (ds : Deques)
      → flow.up ≡ false
      → removed_from radio flow t ds
        ≡ retain_in t.taken_snapshot (involved_deques t.taken_snapshot) ds
  removed_downwards flow t ds down = rw down refl

  pub finish_ampdu-Built :
      (first : MpduPacket) (now sta : ℕ) (ac : EdcaAc) (link backlog : ℕ) (flow : Flow)
      (t : Taking radio) (q : QueueModule)
      → IsValid q
      → AllOf sta ac (source_keys (sta, ac, link) q)
      → Present (source_keys (sta, ac, link) q) q.deques
      → (gained : Gained radio now q flow
          (source_keys (sta, ac, link) q)
          (nothing_taken radio backlog)
          t)
      → ((s : ℕ) (a : EdcaAc)
          → total s a (removed_from radio flow t q.deques)
              + weight s a (sta, ac, link) (length gained.new)
            ≡ total s a q.deques)
      → ((test : Ident → Bool)
          → tally test (removed_from radio flow t q.deques) + count test (idents_of gained.new)
            ≡ tally test q.deques)
      → ((k : MacKey) → Holds k q.deques → Holds k (removed_from radio flow t q.deques))
      → Distinct same_packet_id (idents_of gained.new)
      → flow.up ≡ is_ul first
      → flow.target_dest_id ≡ first.sta_dest_id
      → Built radio
          (sta, ac, link)
          q
          (finish_ampdu radio first link flow t q).0
          (finish_ampdu radio first link flow t q).2
  unfolding finish_ampdu
  finish_ampdu-Built first now sta ac link backlog flow t q valid of present gained less left holds
        distinct way target =
      let keys = source_keys (sta, ac, link) q in
      let t_s = radio.to_duration t.resultz in
      let taken : List (MacKey × MpduPacket) = t.taken_snapshot in
      let sent : List MpduPacket = (transmit radio.loses t_s taken q.rng).0 in
      let through = transmit-Sent radio.loses t_s taken q.rng in
      let same : taken ≡ gained.new = gained.snapshot in
      let part : PartOf (idents_of taken) (idents_in keys q.deques) = rw same gained.part in
      let placeable : Placeable sta ac taken q.deques =
        rw same (Placeable-FromKeys sta ac keys gained.new q.deques of present gained.keyed) in
      let balanced =
        finished-Conserved radio.loses t_s sta ac link q
          (record q {
            rng = (transmit radio.loses t_s taken q.rng).2;
            blocked_packet_counter =
                q.blocked_packet_counter + (transmit radio.loses t_s taken q.rng).1;
            deques = push_failed sent taken (removed_from radio flow t q.deques);
          })
          taken (removed_from radio flow t q.deques) q.rng valid
          (λ s a.
            ap
              (λ l.
                total s a (removed_from radio flow t q.deques)
                + weight s a (sta, ac, link) (length l))
              same
            ∙ less s a)
          (λ test.
            ap (λ l. tally test (removed_from radio flow t q.deques) + count test (idents_of l))
              same
            ∙ left test)
          (Placeable-Holds sta ac taken q.deques (removed_from radio flow t q.deques) holds
            placeable)
          (rw same distinct)
          (taken-Own sta ac q.queue_maxsize_dl q.ul_capacity_queue_device keys q.deques
            (idents_of taken) sent of present valid.placed part through.part)
          refl refl in
      record {
        balanced = record {
          counted = balanced.counted;
          conserved = balanced.conserved;
          content = balanced.content;
        };
        size_le = gained.bound (omega arith);
        sent_le = omega (arith, through.all, gained.size, ap length same);
        in_order =
            PartOf-trans (idents sent) (idents_of taken) (idents_in keys q.deques) through.part
              part;
        complete = elim (gained.complete refl) [
          | inl all ↦ inl (
              omega (arith, gained.size, length-idents_of gained.new, ap length all)
              ∙ ap (λ up. length (eligible up flow.target_dest_id (idents_in keys q.deques))) way
              ∙ ap (λ dest. length (eligible (is_ul first) dest (idents_in keys q.deques))) target)
          | inr limit ↦ inr limit
        ];
        lossless = λ clean. omega (
          arith,
          through.all,
          transmit-lossless radio.loses t_s taken q.rng clean,
          gained.size,
          ap length same,
        );
      }
