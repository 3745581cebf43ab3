-- ===== src/Mac/Contenders.antt =====
-- What one slot does to all stations (models_mm1k.rs, `tick_backoff`).
use mathlib.Core.List.{append_assoc, append-nil}
use si_est_a_vr.Common.{
  ℕ, ◌≡◌, refl, sym, ap, ◌∙◌, Bool, true, false, ◌&&◌, List, [], ◌∷◌, ◌++◌, ◌==◌, if◌then◌else◌, ok,
}
use si_est_a_vr.Mac.Edca.{EdcaAc, MacKey}
use si_est_a_vr.Mac.Backoff.{DcfStats}
use si_est_a_vr.Mac.Medium.{Medium}
use si_est_a_vr.Mac.Tick.{
  Contention, clear_all, is_ready, ready_on, link_of, is_active, tick_stations, tick_backoff,
}
use si_est_a_vr.Mac.Rounds.{after_slot, after_slots, contenders, Linked, own_key, round-RoundDone}

record LoopDone (now : ℕ) (mediums : List (ℕ × Medium)) (counts : ℕ → EdcaAc → ℕ)
    (sts : List DcfStats) (ready : List (ℕ × List MacKey)) : Type 0 where
  all_ready : List (ℕ × List MacKey)
  result :
      tick_stations now mediums counts sts ready
      ≡ ok (after_slots now mediums counts sts, all_ready)
  adds :
      (link : ℕ)
      → ready_on link all_ready ≡ ready_on link ready ++ contenders link now mediums counts sts

own_key-contenders :
    (link now : ℕ) (mediums : List (ℕ × Medium)) (counts : ℕ → EdcaAc → ℕ) (st : DcfStats)
    (sts : List DcfStats)
    → own_key link now mediums counts st ++ contenders link now mediums counts sts
      ≡ contenders link now mediums counts (st ∷ sts)
own_key-contenders link now mediums counts st sts =
    here
      (link_of st == link && (is_active counts st && is_ready (after_slot now mediums counts st)))
  where
    here :
        (b : Bool)
        → (if b then st.mac_key ∷ [] else []) ++ contenders link now mediums counts sts ≡ (
            if b
            then st.mac_key ∷ contenders link now mediums counts sts
            else contenders link now mediums counts sts)
    here true = refl
    here false = refl

tick_stations-LoopDone :
    (now : ℕ) (mediums : List (ℕ × Medium)) (counts : ℕ → EdcaAc → ℕ) (sts : List DcfStats)
    (ready : List (ℕ × List MacKey))
    → Linked mediums counts sts
    → LoopDone now mediums counts sts ready
unfolding tick_stations
tick_stations-LoopDone now mediums counts [] ready linked = record {
  all_ready = ready;
  result = refl;
  adds = λ link. sym (append-nil (ready_on link ready));
}
tick_stations-LoopDone now mediums counts (st ∷ sts) ready linked =
    let one = round-RoundDone now mediums counts st ready linked.0 in
    let others = tick_stations-LoopDone now mediums counts sts one.ready' linked.1 in
    record {
      all_ready = others.all_ready;
      result = rw (one.result, others.result);
      adds = λ link.
          others.adds link
          ∙ ap (λ l. l ++ contenders link now mediums counts sts) (one.adds link)
          ∙ append_assoc (ready_on link ready) (own_key link now mediums counts st)
              (contenders link now mediums counts sts)
          ∙ ap (λ l. ready_on link ready ++ l) (own_key-contenders link now mediums counts st sts);
    }

-- Where every station with packets is on a link that has a medium, a slot does not panic. It ticks
-- the stations with packets and leaves the others as they are, clears idle media, and gives for each
-- link the stations with packets there that are ready after the slot, each once and in order.
pub tick_backoff_lem :
    (now : ℕ) (a : Contention)
    → Linked (clear_all now a.link_mediums) a.active_mac_key_counts a.dcf_values
    → (ready : List (ℕ × List MacKey)) × (tick_backoff now a
        ≡ ok (
          record a {
            link_mediums = clear_all now a.link_mediums;
            dcf_values =
                after_slots now (clear_all now a.link_mediums) a.active_mac_key_counts a.dcf_values;
          },
          ready,
        ))
      × ((link : ℕ)
          → ready_on link ready
            ≡ contenders link now
                (clear_all now a.link_mediums)
                a.active_mac_key_counts
                a.dcf_values)
unfolding tick_backoff
tick_backoff_lem now a linked =
    let all =
      tick_stations-LoopDone now (clear_all now a.link_mediums) a.active_mac_key_counts a.dcf_values
        [] linked in
    (all.all_ready, rw all.result, all.adds)
