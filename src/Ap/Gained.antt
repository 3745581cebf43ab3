-- ===== src/Ap/Gained.antt =====
-- All queues in the aggregation loop (models_mm1k.rs, `build_new_ampdu`).
use mathlib.Core.List.{append_assoc, append-nil}
use mathlib.Core.Path.{subst}
use si_est_a_vr.Common.{
  ℕ, ◌≡◌, refl, sym, ap, ◌∙◌, inl, inr, false, ◌⊎◌, some, List, [], ◌∷◌, ◌++◌, length,
  length-append, ok, arith, Bool-cases,
}
use si_est_a_vr.Mac.Edca.{MacKey}
use si_est_a_vr.Ap.Packets.{MpduPacket}
use si_est_a_vr.Ap.State.{QueueModule, deque_at}
use si_est_a_vr.Ap.Aggregate.{Radio, Flow, Taking, note_source, take_from_all}
use si_est_a_vr.Ap.Parts.{nothing_of}
use si_est_a_vr.Ap.Taken.{
  tagged, idents_of, idents_in, none_popped, Present, none_grouped, group, Fronted, none_fronted,
  eligible, eligible-none, Limited,
}
use si_est_a_vr.Ap.Drawn.{Located, Drawn, take_from-Drawn, Gained}
use si_est_a_vr.Ap.Sources.{
  noted, sum_taken-noted, noted-Popped, noted-Fronted, keyed_in, destinations_in, fits, front_in,
  all_in, part_in, note_source-Noted, length-tagged,
}

module _ (radio : Radio) (now : ℕ) (q : QueueModule) (flow : Flow) where
  Complete : List MacKey → Taking radio → Taking radio → List (MacKey × MpduPacket) → Type 0
  Complete keys t t' new =
      length t.taken_snapshot ≡ t.size
      → (idents_of new ≡ eligible flow.up flow.target_dest_id (idents_in keys q.deques))
        ⊎ Limited radio q.packs_per_ampdu t'.size

  no-Gained :
      (keys : List MacKey) (t : Taking radio)
      → Complete keys t t []
      → Gained radio now q flow keys t t
  unfolding Complete
  no-Gained keys t complete = record {
    complete = complete;
    new = [];
    added = [];
    snapshot = sym (append-nil t.taken_snapshot);
    sources = sym (append-nil t.deque_sources);
    keyed = tt;
    grouped = none_grouped keys;
    aimed = λ down. tt;
    pops = none_popped keys;
    fronts = λ up. none_fronted keys;
    sum = refl;
    part = nothing_of (idents_in keys q.deques);
    size = omega arith;
    bound = λ h. h;
  }

  joined-Complete :
      (key : MacKey) (keys : List MacKey) (d : List MpduPacket) (t t' : Taking radio)
      → deque_at key q.deques ≡ some d
      → (one : Drawn radio now q flow key d 0 t)
      → (rest : Gained radio now q flow keys (note_source radio key one.taken' one.t') t')
      → (length t.taken_snapshot ≡ t.size
          → (one.stop ≡ false) ⊎ Limited radio q.packs_per_ampdu t'.size)
      → Complete (key ∷ keys) t t' (tagged key one.new ++ rest.new)
  unfolding Complete
  joined-Complete key keys d t t' found one rest ended inv =
      let note = note_source-Noted radio key one.taken' one.t' in
      elim (ended inv) [
        | inr limit ↦ inr limit
        | inl go ↦
            elim (rest.complete (
              ap length (note.snapshot ∙ one.snapshot)
              ∙ omega (
                arith,
                inv,
                note.size,
                one.size,
                length-append t.taken_snapshot (tagged key one.new),
                length-tagged key one.new,
              ))) [
                | inl same ↦ inl (
                    all_in flow.up flow.target_dest_id key keys q.deques d one.new rest.new found
                      (one.all go) same)
                | inr limit ↦ inr limit
              ]
      ]

  -- One queue and then the others.
  joined :
      (key : MacKey) (keys : List MacKey) (d : List MpduPacket) (t t' : Taking radio)
      → deque_at key q.deques ≡ some d
      → (one : Drawn radio now q flow key d 0 t)
      → Gained radio now q flow keys (note_source radio key one.taken' one.t') t'
      → (length t.taken_snapshot ≡ t.size
          → (one.stop ≡ false) ⊎ Limited radio q.packs_per_ampdu t'.size)
      → Gained radio now q flow (key ∷ keys) t t'
  unfolding Complete
  joined key keys d t t' found one rest ended =
      let note = note_source-Noted radio key one.taken' one.t' in
      record {
        new = tagged key one.new ++ rest.new;
        added = noted key one.taken' ++ rest.added;
        snapshot =
            rest.snapshot
            ∙ ap (λ l. l ++ rest.new) (note.snapshot ∙ one.snapshot)
            ∙ append_assoc t.taken_snapshot (tagged key one.new) rest.new;
        sources =
            rest.sources
            ∙ ap (λ l. l ++ rest.added)
                (note.sources ∙ ap (λ l. l ++ noted key one.taken') one.sources)
            ∙ append_assoc t.deque_sources (noted key one.taken') rest.added;
        keyed = keyed_in key keys one.new rest.new rest.keyed;
        grouped = group key keys d one.new rest.new found one.part rest.grouped;
        aimed = λ down.
            destinations_in flow.target_dest_id key one.new rest.new (one.aimed down)
              (rest.aimed down);
        pops =
            noted-Popped q.deques key keys d one.taken' rest.added found
              (fits d one.new one.taken' one.count one.part) rest.pops;
        fronts = λ up.
            subst (Fronted q.deques (key ∷ keys) (noted key one.taken' ++ rest.added))
              (front_in key d one.new rest.new one.taken' one.count (one.front up))
              (noted-Fronted q.deques key keys d one.taken' rest.added (idents_of rest.new) found
                (rest.fronts up));
        sum =
            sum_taken-noted key one.taken' rest.added
            ∙ omega (
              arith,
              one.count,
              rest.sum,
              length-append (tagged key one.new) rest.new,
              length-tagged key one.new,
            );
        complete = joined-Complete key keys d t t' found one rest ended;
        part = part_in key keys q.deques d one.new rest.new found one.part rest.part;
        size = omega (
          arith,
          rest.size,
          note.size,
          one.size,
          length-append (tagged key one.new) rest.new,
          length-tagged key one.new,
        );
        bound = λ h. rest.bound (omega (arith, note.size, one.bound h));
      }

  pub take_from_all-Gained :
      Located radio now q flow
      → (keys : List MacKey) → Present keys q.deques
      → (t : Taking radio)
      → (t' : Taking radio) × (take_from_all radio now q flow keys t ≡ ok t')
        × Gained radio now q flow keys t t'
  unfolding take_from_all Complete
  take_from_all-Gained located [] present t =
      (t, refl, no-Gained [] t (λ inv. inl (eligible-none flow.up flow.target_dest_id)))
  take_from_all-Gained located (key ∷ keys) ((d, found), present) t =
      let one = take_from-Drawn radio now q flow located key d 0 t in
      let t1 : Taking radio = note_source radio key one.taken' one.t' in
      elim (Bool-cases one.stop) [
        | inl e ↦
            let note = note_source-Noted radio key one.taken' one.t' in
            let limit : length t.taken_snapshot ≡ t.size → Limited radio q.packs_per_ampdu t1.size =
              λ inv. subst (Limited radio q.packs_per_ampdu) (sym note.size) (one.limited inv e) in
            (
              t1,
              rw (found, one.result, e) refl,
              joined key keys d t t1 found one
                  (no-Gained keys t1 (λ inv. inr (
                    limit (
                      omega (
                        arith,
                        inv,
                        ap length (note.snapshot ∙ one.snapshot),
                        length-append t.taken_snapshot (tagged key one.new),
                        length-tagged key one.new,
                        note.size,
                        one.size,
                      )))))
                  (λ inv. inr (limit inv)),
            )
        | inr e ↦
            let (t', result, rest) = take_from_all-Gained located keys present t1 in
            (
              t',
              rw (found, one.result, e) result,
              joined key keys d t t' found one rest (λ inv. inl e),
            )
      ]
