-- ===== src/Client/Newest.antt =====
-- What the queue before the decoder holds and counts (models_XR.rs, `DroppingVecDeque`).
use native.Mathlib.Nat.{add-zero, add_assoc}
use mathlib.Core.List.{append-nil, append_assoc}
use si_est_a_vr.Common.{
  ℕ, ◌+◌, ◌-◌, ◌≤◌, ◌<◌, ◌≡◌, refl, sym, ap, ◌∙◌, Option, none, some, List, [], ◌∷◌, ◌++◌, length,
  drop, arith, length-append, length-drop, drop-drop, drop-append_inside, if_elim, eq_of_==, ◌==◌,
}
use si_est_a_vr.Client.Queue.{
  DroppingVecDeque, push, pop, pop_front, push_all, misses_of, use_queue, misses_in,
}

module _ {ℓ} {A : Type ℓ} where
  record Pushed (x : A) (q q' : DroppingVecDeque A) : Type ℓ where
    newest : q'.deque ≡ drop (length q.deque + 1 - q.capacity) (q.deque ++ x ∷ [])
    capacity : q'.capacity ≡ q.capacity

  push-Pushed :
      (x : A) (q : DroppingVecDeque A)
      → length q.deque ≤ q.capacity
      → 0 < q.capacity
      → Pushed x q (push x q)
  unfolding push
  push-Pushed x q h pos =
      if_elim (Pushed x q) (length q.deque == q.capacity)
        (λ full.
          let one : length q.deque + 1 - q.capacity ≡ 1 =
            omega (arith, eq_of_== (length q.deque) q.capacity full) in
          record {
            newest = rw one (
                sym (
                  drop-append_inside q.deque (x ∷ []) 1
                    (omega (arith, eq_of_== (length q.deque) q.capacity full))));
            capacity = refl;
          })
        (λ room.
          let none_more : length q.deque + 1 - q.capacity ≡ 0 = ground (arith, room, h) in
          record { newest = rw none_more refl; capacity = refl })

  -- Pushing frames onto a queue within its capacity leaves the newest ones, as many as fit.
  pub push_all-newest :
      (xs : List A) (q : DroppingVecDeque A)
      → length q.deque ≤ q.capacity
      → 0 < q.capacity
      → (push_all xs q).deque ≡ drop (length q.deque + length xs - q.capacity) (q.deque ++ xs)
  push_all-newest [] q h pos =
      let none_more : length q.deque + 0 - q.capacity ≡ 0 = omega arith in
      rw none_more (sym (append-nil q.deque))
  push_all-newest (x ∷ xs) q h pos =
      let p = push-Pushed x q h pos in
      let k = length q.deque + 1 - q.capacity in
      let held : length (push x q).deque ≡ length q.deque + 1 - k =
        ap length p.newest
        ∙ length-drop k (q.deque ++ x ∷ [])
        ∙ omega (arith, length-append {ℓ} q.deque (x ∷ [])) in
      let inside : k ≤ length (q.deque ++ x ∷ []) =
        omega (arith, length-append {ℓ} q.deque (x ∷ [])) in
      let n = length (push x q).deque + length xs - (push x q).capacity in
      push_all-newest xs (push x q) (omega (arith, held, p.capacity)) (omega (arith, p.capacity))
      ∙ ap (λ d. drop n (d ++ xs)) p.newest
      ∙ ap (drop n) (sym (drop-append_inside (q.deque ++ x ∷ []) xs k inside))
      ∙ drop-drop (q.deque ++ x ∷ [] ++ xs) n k (k + n) refl
      ∙ ap (drop (k + n)) (append_assoc q.deque (x ∷ []) xs)
      ∙ ap (λ m. drop m (q.deque ++ x ∷ xs)) (omega (arith, held, p.capacity))

  -- Within its capacity, and nothing unaccounted for: `misses` attempts found nothing to take.
  pub record IsCounted (misses : ℕ) (q : DroppingVecDeque A) : Type ℓ where
    pub bounded : length q.deque ≤ q.capacity
    pub positive : 0 < q.capacity
    pub counted :
        q.enqued_frame_counter + misses
        ≡ q.dropped_frame_counter + q.ok_dequed_frame_counter + length q.deque

  pub push-IsCounted :
      (misses : ℕ) (x : A) (q : DroppingVecDeque A)
      → IsCounted misses q
      → IsCounted misses (push x q)
  unfolding push
  push-IsCounted misses x q c =
      if_elim (IsCounted misses) (length q.deque == q.capacity)
        (λ full.
          let same = eq_of_== (length q.deque) q.capacity full in
          let one_less = length-drop 1 q.deque in
          let more = length-append {ℓ} (drop 1 q.deque) (x ∷ []) in
          record {
            bounded = omega (arith, same, one_less, more, c.positive);
            positive = c.positive;
            counted = omega (arith, same, one_less, more, c.positive, c.counted);
          })
        (λ room.
          let more = length-append {ℓ} q.deque (x ∷ []) in
          record {
            bounded = ground (arith, room, more, c.bounded);
            positive = c.positive;
            counted = omega (arith, more, c.counted);
          })

  misses_le : (item : Option A) → misses_of item ≤ 1
  misses_le none = omega arith
  misses_le (some x) = omega arith

  length-pop_front :
      (xs : List A) → length xs + misses_of (pop_front xs).0 ≡ length (pop_front xs).1 + 1
  length-pop_front [] = omega arith
  length-pop_front (x ∷ xs) = omega arith

  pub pop-IsCounted :
      (misses : ℕ) (q : DroppingVecDeque A)
      → IsCounted misses q
      → IsCounted (misses + misses_of (pop q).0) (pop q).1
  unfolding pop
  pop-IsCounted misses q c =
      let taken = length-pop_front q.deque in
      record {
        bounded = omega (arith, taken, c.bounded, misses_le (pop_front q.deque).0);
        positive = c.positive;
        counted = omega (arith, taken, c.counted);
      }

  -- Whatever pushes and pops are made on a queue within its capacity, it stays so, and its counters
  -- account for all frames: those that came in were dropped, taken or are still there. An attempt to
  -- take from an empty queue is counted as taken.
  pub use_queue-IsCounted :
      (calls : List (Option A)) (misses : ℕ) (q : DroppingVecDeque A)
      → IsCounted misses q
      → IsCounted (misses + misses_in (use_queue calls q).0) (use_queue calls q).1
  use_queue-IsCounted [] misses q c = rw (add-zero misses) c
  use_queue-IsCounted (some x ∷ calls) misses q c =
      use_queue-IsCounted calls misses (push x q) (push-IsCounted misses x q c)
  use_queue-IsCounted (none ∷ calls) misses q c =
      rw (← add_assoc misses (misses_of (pop q).0) (misses_in (use_queue calls (pop q).1).0)) (
        use_queue-IsCounted calls (misses + misses_of (pop q).0) (pop q).1
          (pop-IsCounted misses q c))
