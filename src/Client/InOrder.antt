-- ===== src/Client/InOrder.antt =====
-- The frames that the headset shows (models_XR.rs, `vsync`).
use mathlib.Core.List.{append-nil, append_assoc}
use mathlib.Core.Path.{subst}
use si_est_a_vr.Common.{
  ◌+◌, ◌<◌, ◌≤◌, ◌≡◌, refl, sym, ap, ◌∙◌, false, List, [], ◌∷◌, ◌++◌, length, drop, arith, if_elim,
  length-append, length-drop, ◌==◌, leb, lt→leb_false,
}
use si_est_a_vr.Ap.Parts.{
  PartOf, nothing, skip, PartOf-refl, nothing_of, PartOf-append, PartOf-trans,
}
use si_est_a_vr.Client.Queue.{DroppingVecDeque, clear, push, pop, pop_front}
use si_est_a_vr.Client.Playback.{
  Frame, Playback, Shown, shown, frames_of, show, vsync, receive_frame, session_end, session_reboot,
  Event, frame_event, vsync_event, session_end_event, session_reboot_event, received, play, start,
}

drop_one-PartOf : (fs : List Frame) → PartOf (drop 1 fs) fs
drop_one-PartOf [] = nothing
drop_one-PartOf (f ∷ fs) = skip f fs fs (PartOf-refl fs)

push-PartOf : (f : Frame) (q : DroppingVecDeque Frame) → PartOf (push f q).deque (q.deque ++ f ∷ [])
unfolding push
push-PartOf f q =
    if_elim {A = DroppingVecDeque Frame} (λ x. PartOf x.deque (q.deque ++ f ∷ []))
      (length q.deque == q.capacity)
      (λ full.
        PartOf-append (drop 1 q.deque) q.deque (f ∷ []) (f ∷ []) (drop_one-PartOf q.deque)
          (PartOf-refl (f ∷ [])))
      (λ room. PartOf-refl (q.deque ++ f ∷ []))

show-PartOf :
    (fs : List Frame) (p : Playback)
    → p.decoder_queue.deque ≡ (pop_front fs).1
    → PartOf
        (frames_of (show (pop_front fs).0 p).0 ++ (show (pop_front fs).0 p).1.decoder_queue.deque)
        fs
show-PartOf [] p e = rw e nothing
show-PartOf ((id, bytes) ∷ fs) p e = rw e (PartOf-refl ((id, bytes) ∷ fs))

vsync-PartOf :
    (p : Playback)
    → PartOf (frames_of (vsync p).0 ++ (vsync p).1.decoder_queue.deque) p.decoder_queue.deque
unfolding vsync pop
vsync-PartOf p =
    let d = p.decoder_queue.deque in
    let q : DroppingVecDeque Frame = record p.decoder_queue {
      deque = (pop_front d).1;
      ok_dequed_frame_counter = p.decoder_queue.ok_dequed_frame_counter + 1;
    } in
    if_elim {A = List Shown × Playback} (λ r. PartOf (frames_of r.0 ++ r.1.decoder_queue.deque) d)
      p.jitter_buffer_warmup_ready (λ ready. show-PartOf d (record p { decoder_queue = q }) refl)
      (λ waiting.
        if_elim {A = Playback} (λ r. PartOf r.decoder_queue.deque d) (leb 3 (length d))
          (λ e. PartOf-refl d) (λ e. PartOf-refl d))

frames_of-append : (xs ys : List Shown) → frames_of (xs ++ ys) ≡ frames_of xs ++ frames_of ys
frames_of-append [] ys = refl
frames_of-append (shown f lost ∷ xs) ys = ap (◌∷◌ f) (frames_of-append xs ys)

-- What was dropped with the queue does not come back.
cleared : (ds fs rest : List Frame) → PartOf rest fs → PartOf rest (ds ++ fs)
cleared ds fs rest h = PartOf-append [] ds rest fs (nothing_of ds) h

-- Whatever comes in, the frames that are shown, and then those that wait, are among those that waited
-- at first and those that came in since, in their order.
pub play-PartOf :
    (es : List Event) (p : Playback)
    → PartOf
        (frames_of (play es p).0 ++ (play es p).1.decoder_queue.deque)
        (p.decoder_queue.deque ++ received es)
unfolding receive_frame session_end session_reboot clear
play-PartOf [] p = rw (append-nil p.decoder_queue.deque) (PartOf-refl p.decoder_queue.deque)
play-PartOf (frame_event f ∷ es) p =
    let d = p.decoder_queue.deque in
    let d' = (push f p.decoder_queue).deque in
    let rest = received es in
    let r = play es (receive_frame f p) in
    PartOf-trans (frames_of r.0 ++ r.1.decoder_queue.deque) (d' ++ rest) (d ++ f ∷ rest)
      (play-PartOf es (receive_frame f p))
      (subst (PartOf (d' ++ rest)) (append_assoc d (f ∷ []) rest) (
        PartOf-append d' (d ++ f ∷ []) rest rest (push-PartOf f p.decoder_queue)
          (PartOf-refl rest)))
play-PartOf (vsync_event ∷ es) p =
    let d = p.decoder_queue.deque in
    let now = frames_of (vsync p).0 in
    let d' = (vsync p).1.decoder_queue.deque in
    let r = play es (vsync p).1 in
    let later = frames_of r.0 ++ r.1.decoder_queue.deque in
    let together : frames_of ((vsync p).0 ++ r.0) ++ r.1.decoder_queue.deque ≡ now ++ later =
      ap (λ fs. fs ++ r.1.decoder_queue.deque) (frames_of-append (vsync p).0 r.0)
      ∙ append_assoc now (frames_of r.0) r.1.decoder_queue.deque in
    subst (λ fs. PartOf fs (d ++ received es)) (sym together)
      (PartOf-trans (now ++ later) (now ++ (d' ++ received es)) (d ++ received es)
        (PartOf-append now now later (d' ++ received es) (PartOf-refl now)
          (play-PartOf es (vsync p).1))
        (subst (λ fs. PartOf fs (d ++ received es)) (append_assoc now d' (received es))
          (PartOf-append (now ++ d') d (received es) (received es) (vsync-PartOf p)
            (PartOf-refl (received es)))))
play-PartOf (session_end_event ∷ es) p =
    let r = play es (session_end p) in
    cleared p.decoder_queue.deque (received es) (frames_of r.0 ++ r.1.decoder_queue.deque)
      (play-PartOf es (session_end p))
play-PartOf (session_reboot_event ∷ es) p =
    let r = play es (session_reboot p) in
    cleared p.decoder_queue.deque (received es) (frames_of r.0 ++ r.1.decoder_queue.deque)
      (play-PartOf es (session_reboot p))

length-push_le :
    (f : Frame) (q : DroppingVecDeque Frame) → length (push f q).deque ≤ length q.deque + 1
unfolding push
length-push_le f q =
    if_elim {A = DroppingVecDeque Frame} (λ x. length x.deque ≤ length q.deque + 1)
      (length q.deque == q.capacity)
      (λ full.
        omega (arith, length-append {0} (drop 1 q.deque) (f ∷ []), length-drop {0} 1 q.deque))
      (λ room. omega (arith, length-append {0} q.deque (f ∷ [])))

-- A tick of the screen before the buffer has warmed up.
vsync_early :
    (p : Playback)
    → p.jitter_buffer_warmup_ready ≡ false
    → length p.decoder_queue.deque < 3
    → vsync p ≡ ([], p)
unfolding vsync
vsync_early p waiting few = rw waiting (rw (lt→leb_false 3 (length p.decoder_queue.deque) few) refl)

-- While it warms up, no frame is shown as long as fewer than three wait or come in.
play_waiting :
    (es : List Event) (p : Playback)
    → p.jitter_buffer_warmup_ready ≡ false
    → length p.decoder_queue.deque + length (received es) < 3
    → (play es p).0 ≡ []
unfolding receive_frame session_end session_reboot clear
play_waiting [] p waiting few = refl
play_waiting (frame_event f ∷ es) p waiting few =
    play_waiting es (receive_frame f p) waiting
      (omega (arith, few, length-push_le f p.decoder_queue))
play_waiting (vsync_event ∷ es) p waiting few =
    rw (vsync_early p waiting (omega (arith, few))) (play_waiting es p waiting few)
play_waiting (session_end_event ∷ es) p waiting few =
    play_waiting es (session_end p) refl (omega (arith, few))
play_waiting (session_reboot_event ∷ es) p waiting few =
    play_waiting es (session_reboot p) waiting (omega (arith, few))

-- From a start nothing is shown before three frames came in, and nothing is shown after the end of a
-- session before three more came in, whatever else happens and whatever was shown or waited before.
pub play-early :
    (es : List Event) (p : Playback)
    → length (received es) < 3
    → ((play es start).0 ≡ []) × ((play (session_end_event ∷ es) p).0 ≡ [])
unfolding session_end clear
play-early es p few =
    let at_most : 0 + length (received es) < 3 = omega (arith, few) in
    (play_waiting es start refl at_most, play_waiting es (session_end p) refl at_most)
