-- ===== src/Ap/Drawn.antt =====
-- One queue in the aggregation loop, and what the loop adds (models_mm1k.rs, `build_new_ampdu`).
use mathlib.Core.List.{append_assoc, append-nil}
use si_est_a_vr.Common.{
  ℕ, ◌+◌, ◌-◌, ◌≤◌, map, length-append, ◌==◌, ◌≡◌, refl, sym, ap, take, ◌∙◌, ◌⊎◌, inl, inr, Bool,
  true, false, not, ◌&&◌, ◌||◌, ltb, some, List, [], ◌∷◌, ◌++◌, length, ok, lookup, arith,
  Bool-cases,
}
use si_est_a_vr.Mac.Edca.{MacKey}
use si_est_a_vr.Ap.Packets.{MpduPacket}
use si_est_a_vr.Ap.State.{QueueModule}
use si_est_a_vr.Ap.Aggregate.{Radio, Flow, Taking, airtime_with, take_packet, take_from}
use si_est_a_vr.Ap.Parts.{PartOf, nothing, keep, skip, nothing_of}
use si_est_a_vr.Ap.Taken.{
  ident, idents, tagged, idents_of, idents_in, sum_taken, Popped, Fronted, FromKeys, Grouped, Aimed,
  eligible, Limited, eligible-keep, eligible-skip, eligible-none, length-lengths,
}

module _ (radio : Radio) (now : ℕ) (q : QueueModule) (flow : Flow) where
  -- Upwards no coordinates are looked up; downwards the destination has some.
  abbrev pub Located : Type 0
  Located =
      (flow.up ≡ true)
      ⊎ ((flow.up ≡ false) × (c : ℕ) × (lookup flow.target_dest_id q.sta_coords_map ≡ some c))

  airtime_with-ok :
      (t : Taking radio) (p : MpduPacket)
      → Located
      → (not flow.up && not (p.sta_dest_id == flow.target_dest_id)) ≡ false
      → (from to : ℕ) × (airtime_with radio q flow t p
          ≡ ok (
              radio.airtime
                (map (λ (k, x). x.length_packet_bits) t.taken_snapshot ++ p.length_packet_bits ∷ [])
                from
                to
                flow.channel_width))
  unfolding airtime_with
  airtime_with-ok t p (inl up) ours = (p.sta_src_coords, radio.coords_queue, rw up refl)
  airtime_with-ok t p (inr (down, c, found)) ours =
      let same : p.sta_dest_id ≡ flow.target_dest_id = ground (arith, down, ours) in
      (radio.coords_queue, c, rw (down, same, found) refl)

  pub record Drawn (key : MacKey) (ps : List MpduPacket) (taken : ℕ) (t : Taking radio)
      : Type 1 where
    pub t' : Taking radio
    pub taken' : ℕ
    pub stop : Bool
    pub result : take_from radio now q flow key ps taken t ≡ ok (t', taken', stop)
    pub new : List MpduPacket
    pub snapshot : t'.taken_snapshot ≡ t.taken_snapshot ++ tagged key new
    pub count : taken' ≡ taken + length new
    pub part : PartOf (idents new) (idents ps)
    pub size : t'.size ≡ t.size + length new
    pub bound : t.size ≤ q.packs_per_ampdu → t'.size ≤ q.packs_per_ampdu
    pub sources : t'.deque_sources ≡ t.deque_sources
    pub aimed : flow.up ≡ false → Aimed flow.target_dest_id (idents new)
    pub all : stop ≡ false → idents new ≡ eligible flow.up flow.target_dest_id (idents ps)
    pub limited :
        length t.taken_snapshot ≡ t.size → stop ≡ true → Limited radio q.packs_per_ampdu t'.size
    pub front : flow.up ≡ true → idents new ≡ idents (take (length new) ps)

  stops_at :
      (most n : ℕ) (lengths : List ℕ) (from to width txop : ℕ)
      → length lengths ≡ n + 1
      → (radio.at_limit (radio.airtime lengths from to width).0 txop || ltb most (n + 1)) ≡ true
      → Limited radio most n
  stops_at most n lengths from to width txop one_more f = elim (Bool-cases (ltb most (n + 1))) [
    | inl e ↦ inl (ground (arith, e))
    | inr e ↦ inr (lengths, from, to, width, txop, one_more, ground (arith, e, f))
  ]

  pub take_from-Drawn :
      Located
      → (key : MacKey) (ps : List MpduPacket) (taken : ℕ) (t : Taking radio) → Drawn key ps taken t
  unfolding take_from take_packet
  take_from-Drawn located key [] taken t = record {
    t' = t;
    taken' = taken;
    stop = false;
    result = refl;
    new = [];
    snapshot = sym (append-nil t.taken_snapshot);
    count = omega arith;
    part = nothing;
    size = omega arith;
    bound = λ h. h;
    sources = refl;
    aimed = λ down. tt;
    front = λ up. refl;
    all = λ go. eligible-none flow.up flow.target_dest_id;
    limited = λ inv stops. absurd (ground (arith, stops));
  }
  take_from-Drawn located key (p ∷ ps) taken t =
      elim (Bool-cases (not flow.up && not (p.sta_dest_id == flow.target_dest_id))) [
        | inl e ↦
            let rest = take_from-Drawn located key ps taken t in
            record {
              t' = rest.t';
              taken' = rest.taken';
              stop = rest.stop;
              result = rw e rest.result;
              new = rest.new;
              snapshot = rest.snapshot;
              count = rest.count;
              part = skip (ident p) (idents rest.new) (idents ps) rest.part;
              size = rest.size;
              bound = rest.bound;
              sources = rest.sources;
              aimed = rest.aimed;
              front = λ up. absurd (ground (arith, e, up));
              all = λ go.
                  rest.all go ∙ eligible-skip flow.up flow.target_dest_id (ident p) (idents ps) e;
              limited = rest.limited;
            }
        | inr e ↦
            let (from, to, timed) = airtime_with-ok t p located e in
            let lengths =
              map (λ (k, x). x.length_packet_bits) t.taken_snapshot ++ p.length_packet_bits ∷ [] in
            let (result, mcs) = radio.airtime lengths from to flow.channel_width in
            let t0 : Taking radio = record t { resultz = result; mcs_assigned = mcs } in
            elim (Bool-cases
              (radio.at_limit result flow.txop_limit_us || ltb q.packs_per_ampdu (t.size + 1))) [
                | inl f ↦ record {
                  t' = t0;
                  taken' = taken;
                  stop = true;
                  result = rw (e, timed) (rw f refl);
                  new = [];
                  snapshot = sym (append-nil t.taken_snapshot);
                  count = omega arith;
                  part = nothing_of (idents (p ∷ ps));
                  size = omega arith;
                  bound = λ h. h;
                  sources = refl;
                  aimed = λ down. tt;
                  front = λ up. refl;
                  all = λ go. absurd (ground (arith, go));
                  limited = λ inv stops.
                      stops_at q.packs_per_ampdu t.size lengths from to flow.channel_width
                        flow.txop_limit_us
                        (omega (arith, inv, length-lengths t.taken_snapshot p.length_packet_bits))
                        f;
                }
                | inr f ↦
                    let t1 : Taking radio = take_packet radio now flow key p result t0 in
                    let rest = take_from-Drawn located key ps (taken + 1) t1 in
                    let stamped : MpduPacket = record p {
                      queue_length_when_out = t.flow_backlog;
                      queue_out_instant = now;
                      t_q = now - p.queue_in_instant;
                      mac_key_cached = some flow.mac_key;
                    } in
                    record {
                      t' = rest.t';
                      taken' = rest.taken';
                      stop = rest.stop;
                      result = rw (e, timed) (rw f rest.result);
                      new = stamped ∷ rest.new;
                      snapshot =
                          rest.snapshot
                          ∙ append_assoc t.taken_snapshot ((key, stamped) ∷ [])
                              (tagged key rest.new);
                      count = omega (arith, rest.count);
                      part = keep (ident p) (idents rest.new) (idents ps) rest.part;
                      size = omega (arith, rest.size);
                      bound = λ h. rest.bound (ground (arith, f));
                      sources = rest.sources;
                      aimed = λ down. (ground (arith, e, down), rest.aimed down);
                      front = λ up. ap (◌∷◌ (ident p)) (rest.front up);
                      all = λ go.
                          eligible-keep flow.up flow.target_dest_id (ident p) (idents ps)
                            (idents rest.new) e (rest.all go);
                      limited = λ inv stops.
                          rest.limited
                            (omega
                              (arith, inv, length-append t.taken_snapshot ((key, stamped) ∷ [])))
                            stops;
                    }
              ]
      ]

  -- What the loop over some queues adds.
  pub record Gained (keys : List MacKey) (t t' : Taking radio) : Type 1 where
    pub new : List (MacKey × MpduPacket)
    pub added : List (MacKey × ℕ)
    pub snapshot : t'.taken_snapshot ≡ t.taken_snapshot ++ new
    pub sources : t'.deque_sources ≡ t.deque_sources ++ added
    pub keyed : FromKeys keys new
    pub grouped : Grouped q.deques keys new
    pub aimed : flow.up ≡ false → Aimed flow.target_dest_id (idents_of new)
    pub pops : Popped q.deques keys added
    pub fronts : flow.up ≡ true → Fronted q.deques keys added (idents_of new)
    pub sum : sum_taken added ≡ length new
    pub part : PartOf (idents_of new) (idents_in keys q.deques)
    pub complete :
        length t.taken_snapshot ≡ t.size
        → (idents_of new ≡ eligible flow.up flow.target_dest_id (idents_in keys q.deques))
          ⊎ Limited radio q.packs_per_ampdu t'.size
    pub size : t'.size ≡ t.size + length new
    pub bound : t.size ≤ q.packs_per_ampdu → t'.size ≤ q.packs_per_ampdu
