-- ===== src/Ap/Stored.antt =====
-- A packet that is put into its queue (models_mm1k.rs, the common part of `input` and `input_UL`).
use si_est_a_vr.Common.{
  ℕ, ◌+◌, ◌<◌, ◌==◌, ◌≡◌, refl, sym, ap, ◌∙◌, Bool, true, false, ◌&&◌, if◌then◌else◌, none, some,
  List, [], ◌∷◌, ◌++◌, length, length-append, arith, inl, inr, Bool-cases, if_elim, lookup, insert,
  ok,
}
use si_est_a_vr.Mac.Edca.{EdcaAc, MacKey}
use si_est_a_vr.Mac.Virtual.{same_key}
use si_est_a_vr.Ap.Packets.{MpduPacket, owner_of}
use si_est_a_vr.Ap.State.{
  Deques, QueueModule, deque_at, set_deque, count_one, schedule_tick, deque_schedule_event,
  slot_time, any_link_idle, count_flow, get_link_queue_depth,
}
use si_est_a_vr.Ap.Input.{key_of, cache_input_packet, admit}
use si_est_a_vr.Ap.Counts.{
  Belong, limit, Placed, IsValid, total-set_deque, Placed-set_deque, deque_at-set_deque,
  same_key→eq, deque_at-hit,
}

pub Placed-deque_at :
    (dl ul : ℕ) (key : MacKey) (old : List MpduPacket) (ds : Deques)
    → Placed dl ul ds
    → deque_at key ds ≡ some old
    → Belong key old
Placed-deque_at dl ul key old [] placed h = absurd (ground (arith, h))
Placed-deque_at dl ul key old ((k, d) ∷ ds) placed h = elim (Bool-cases (same_key k key)) [
  | inl e ↦
      let same : d ≡ old =
        ap (λ o. elim o [ none ↦ d | some x ↦ x ]) (sym (deque_at-hit k key d ds e) ∙ h) in
      rw (sym same, sym (same_key→eq k key e)) placed.0.0
  | inr e ↦ Placed-deque_at dl ul key old ds placed.1 (sym (rw e refl) ∙ h)
]

Belong-append :
    (key : MacKey) (ps qs : List MpduPacket) → Belong key ps → Belong key qs → Belong key (ps ++ qs)
Belong-append key [] qs b c = c
Belong-append key (p ∷ ps) qs b c = (b.0, Belong-append key ps qs b.1 c)

-- Whether or not a tick is asked for, and whether or not one is pending, what holds of the state and
-- of the state with a tick holds after it.
ticked_elim {ℓ} :
    (P : QueueModule → Type ℓ) (b : Bool) (q : QueueModule)
    → (b ≡ false → P q)
    → (q.slot_tick_pending ≡ true → P q)
    → P (record q {
      slot_tick_pending = true;
      scheduled = deque_schedule_event slot_time ∷ q.scheduled;
    })
    → P (if b then schedule_tick q else q)
unfolding schedule_tick
ticked_elim P b q same pending new =
    if_elim P b (λ e. if_elim P q.slot_tick_pending (λ f. pending f) (λ f. new)) same

pub record Admitted (pkt : MpduPacket) (key : MacKey) (waiting : List MpduPacket)
    (q q' : QueueModule) : Type 0 where
  pub valid : IsValid q'
  pub stored : deque_at key q'.deques ≡ some (waiting ++ pkt ∷ [])
  pub blocked : q'.blocked_packet_counter ≡ q.blocked_packet_counter
  pub wakes :
      length waiting ≡ 0 → any_link_idle q.link_is_transmitting ≡ true → q'.slot_tick_pending ≡ true

-- The state with the packet in its queue and counted.
abbrev queued : MpduPacket → MacKey → List MpduPacket → QueueModule → QueueModule
queued pkt (sta, ac, link) waiting q = record q {
  sta_stats_cache = count_flow pkt.sta_src_id pkt.sta_dest_id q.sta_stats_cache;
  link_queue_depths = insert link (get_link_queue_depth link q + 1) q.link_queue_depths;
  active_mac_key_counts = count_one sta ac q.active_mac_key_counts;
  deques = set_deque (sta, ac, link) (waiting ++ pkt ∷ []) q.deques;
}

queued-IsValid :
    (pkt : MpduPacket) (key : MacKey) (waiting : List MpduPacket) (q : QueueModule)
    → IsValid q
    → deque_at key q.deques ≡ some waiting
    → (owner_of pkt ≡ key.0) × (pkt.edca_ac ≡ key.1)
    → length waiting < limit q.queue_maxsize_dl q.ul_capacity_queue_device key
    → IsValid (queued pkt key waiting q)
queued-IsValid pkt (sta, ac, link) waiting q valid found belongs room = record {
  counted = λ s a. ground (
    arith,
    valid.counted s a,
    length-append waiting (pkt ∷ []),
    total-set_deque s a (sta, ac, link) waiting (waiting ++ pkt ∷ []) q.deques found,
  );
  placed =
      Placed-set_deque q.queue_maxsize_dl q.ul_capacity_queue_device (sta, ac, link)
        (waiting ++ pkt ∷ []) q.deques valid.placed
        (Belong-append (sta, ac, link) waiting (pkt ∷ [])
          (Placed-deque_at q.queue_maxsize_dl q.ul_capacity_queue_device (sta, ac, link) waiting
            q.deques valid.placed found)
          (belongs, tt))
        (omega (arith, room, length-append waiting (pkt ∷ [])));
}

pub admit-Admitted :
    (pkt : MpduPacket) (sta : ℕ) (ac : EdcaAc) (link width : ℕ) (waiting : List MpduPacket)
    (q : QueueModule)
    → IsValid q
    → lookup link q.link_channel_widths ≡ some width
    → deque_at (sta, ac, link) q.deques ≡ some waiting
    → key_of pkt.sta_src_id pkt.sta_dest_id ac link ≡ (sta, ac, link)
    → (owner_of pkt ≡ sta) × (pkt.edca_ac ≡ ac)
    → length waiting < limit q.queue_maxsize_dl q.ul_capacity_queue_device (sta, ac, link)
    → (q' : QueueModule) × (admit pkt (sta, ac, link) (length waiting) q ≡ ok q')
      × Admitted pkt (sta, ac, link) waiting q q'
unfolding admit cache_input_packet get_link_queue_depth
admit-Admitted pkt sta ac link width waiting q valid wide found own belongs room =
    let after : QueueModule = queued pkt (sta, ac, link) waiting q in
    let sound = queued-IsValid pkt (sta, ac, link) waiting q valid found belongs room in
    let there = deque_at-set_deque (sta, ac, link) waiting (waiting ++ pkt ∷ []) q.deques found in
    (
      if length waiting + 1 == 1 && any_link_idle q.link_is_transmitting
          then schedule_tick after
          else after,
      rw (wide, own, found) (rw found refl),
      ticked_elim (λ q'. Admitted pkt (sta, ac, link) waiting q q')
          (length waiting + 1 == 1 && any_link_idle q.link_is_transmitting) after
          (λ e. record {
            valid = sound;
            stored = there;
            blocked = refl;
            wakes = λ none free. absurd (ground (arith, e, none, free));
          })
          (λ pending. record {
            valid = sound;
            stored = there;
            blocked = refl;
            wakes = λ none free. pending;
          })
          (record {
            valid = record { counted = sound.counted; placed = sound.placed };
            stored = there;
            blocked = refl;
            wakes = λ none free. refl;
          }),
    )
