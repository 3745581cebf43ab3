-- ===== src/Client/Queue.antt =====
-- `DroppingVecDeque` (models_XR.rs): the queue before the decoder, which drops its oldest frame where
-- it is full. Counters of type `usize` are unbounded.
use si_est_a_vr.Common.{
  ℕ, ◌+◌, ◌==◌, if◌then◌else◌, Option, none, some, List, [], ◌∷◌, ◌++◌, length, drop,
}

pub record DroppingVecDeque {ℓ} (A : Type ℓ) : Type ℓ where
  pub deque : List A
  pub capacity : ℕ
  pub dropped_frame_counter : ℕ
  pub ok_dequed_frame_counter : ℕ
  pub enqued_frame_counter : ℕ

module _ {ℓ} {A : Type ℓ} where
  abbrev pub new : ℕ → DroppingVecDeque A
  new capacity = record {
    deque = [];
    capacity = capacity;
    dropped_frame_counter = 0;
    ok_dequed_frame_counter = 0;
    enqued_frame_counter = 0;
  }

  unfoldable pub clear : DroppingVecDeque A → DroppingVecDeque A
  clear q = new q.capacity

  unfoldable pub push : A → DroppingVecDeque A → DroppingVecDeque A
  push item q =
      if length q.deque == q.capacity
      then record q {
        deque = drop 1 q.deque ++ item ∷ [];
        dropped_frame_counter = q.dropped_frame_counter + 1;
        enqued_frame_counter = q.enqued_frame_counter + 1;
      }
      else record q {
        deque = q.deque ++ item ∷ [];
        enqued_frame_counter = q.enqued_frame_counter + 1;
      }

  abbrev pub pop_front : List A → Option A × List A
  pop_front [] = (none, [])
  pop_front (x ∷ xs) = (some x, xs)

  -- The counter goes up also where there is nothing to take.
  unfoldable pub pop : DroppingVecDeque A → Option A × DroppingVecDeque A
  pop q =
      let (item, rest) = pop_front q.deque in
      (item, record q { deque = rest; ok_dequed_frame_counter = q.ok_dequed_frame_counter + 1 })

  abbrev pub push_all : List A → DroppingVecDeque A → DroppingVecDeque A
  push_all [] q = q
  push_all (x ∷ xs) q = push_all xs (push x q)

  -- One for an attempt that found nothing.
  abbrev pub misses_of : Option A → ℕ
  misses_of none = 1
  misses_of (some x) = 0

  -- Any sequence of pushes and pops, with what the pops gave.
  abbrev pub use_queue : List (Option A) → DroppingVecDeque A → List (Option A) × DroppingVecDeque A
  use_queue [] q = ([], q)
  use_queue (some x ∷ calls) q = use_queue calls (push x q)
  use_queue (none ∷ calls) q =
      let (item, q') = pop q in let (items, q'') = use_queue calls q' in (item ∷ items, q'')

  abbrev pub misses_in : List (Option A) → ℕ
  misses_in [] = 0
  misses_in (item ∷ items) = misses_of item + misses_in items
