-- ===== src/Shard/Tracker.antt =====
-- `FrameTracker` (alvr_stream_socket.rs): the send instants of the latest frames, for the round
-- trip times. The hash map is an association list, an instant a number of nanoseconds.
use si_est_a_vr.Common.{
  ℕ, ◌≤◌, ◌<◌, ◌≡◌, refl, sym, ◌∙◌, List, [], ◌∷◌, ◌++◌, some, arith, ltb, ◌==◌, if◌then◌else◌,
  length, length-append, lookup, insert, remove, lookup-insert, lookup-remove, ◌⊎◌, inl, inr,
  Bool-cases, if_elim, eq_of_==, le→ltb_false,
}

pub record FrameTracker : Type 0 where
  pub frame_map : List (ℕ × ℕ)
  pub queue : List ℕ
  pub max_size : ℕ

abbrev pub new : FrameTracker
new = record { frame_map = []; queue = []; max_size = 1000 }

-- `while self.queue.len() > self.max_size`, on what is left of the queue.
evict : ℕ → List (ℕ × ℕ) → List ℕ → List (ℕ × ℕ) × List ℕ
evict cap m [] = (m, [])
evict cap m (oldest ∷ q) =
    let rest = evict cap (remove oldest m) q in
    if ltb cap (length (oldest ∷ q)) then rest else (m, oldest ∷ q)

unfoldable pub insert_frame : FrameTracker → ℕ → ℕ → FrameTracker
unfolding evict
insert_frame t frame_id instant =
    let (m, q) =
      evict t.max_size (insert frame_id instant t.frame_map) (t.queue ++ frame_id ∷ []) in
    record t { frame_map = m; queue = q }

-- The number of frames in the queue never passes the cap, and every frame of the map is in it.
abbrev pub Among : ℕ → List ℕ → Type 0
Among k [] = ⊥
Among k (x ∷ q) = (k ≡ x) ⊎ Among k q

pub record IsValid (t : FrameTracker) : Type 0 where
  pub bounded : length t.queue ≤ t.max_size
  pub listed : (k v : ℕ) → lookup k t.frame_map ≡ some v → Among k t.queue

evict-length : (cap : ℕ) (m : List (ℕ × ℕ)) (q : List ℕ) → length (evict cap m q).1 ≤ cap
unfolding evict
evict-length cap m [] = omega arith
evict-length cap m (x ∷ q) = ground (arith, evict-length cap (remove x m) q)

Among-append_left : (k : ℕ) (q r : List ℕ) → Among k q → Among k (q ++ r)
Among-append_left k [] r h = elim h [ ]
Among-append_left k (x ∷ q) r (inl e) = inl e
Among-append_left k (x ∷ q) r (inr h) = inr (Among-append_left k q r h)

Among-concat : (k : ℕ) (q : List ℕ) → Among k (q ++ k ∷ [])
Among-concat k [] = inl refl
Among-concat k (x ∷ q) = inr (Among-concat k q)

abbrev Listed : List (ℕ × ℕ) × List ℕ → Type 0
Listed r = (k v : ℕ) → lookup k r.0 ≡ some v → Among k r.1

Listed-remove : (m : List (ℕ × ℕ)) (x : ℕ) (q : List ℕ) → Listed (m, x ∷ q) → Listed (remove x m, q)
Listed-remove m x q all k v h = elim (Bool-cases (x == k)) [
  | inl same ↦ cc (rw same at (lookup-remove x k m), h)
  | inr other ↦ elim (all k v (sym (rw other at (lookup-remove x k m)) ∙ h)) [
    | inl e ↦ absurd (ground arith)
    | inr later ↦ later
  ]
]

evict-Listed : (cap : ℕ) (m : List (ℕ × ℕ)) (q : List ℕ) → Listed (m, q) → Listed (evict cap m q)
unfolding evict
evict-Listed cap m [] all = all
evict-Listed cap m (x ∷ q) all =
    if_elim Listed (ltb cap (length (x ∷ q)))
      (λ _. evict-Listed cap (remove x m) q (Listed-remove m x q all)) (λ _. all)

Listed-insert :
    (m : List (ℕ × ℕ)) (q : List ℕ) (f i : ℕ) → Listed (m, q) → Listed (insert f i m, q ++ f ∷ [])
Listed-insert m q f i all k v h = elim (Bool-cases (f == k)) [
  | inl same ↦ rw (eq_of_== f k same) (Among-concat k q)
  | inr other ↦
      Among-append_left k q (f ∷ []) (all k v (sym (rw other at (lookup-insert f k i m)) ∙ h))
]

-- Tracking a frame keeps the tracker within its cap, with every frame of the map in the queue.
pub insert_frame-IsValid :
    (t : FrameTracker) (frame_id instant : ℕ)
    → IsValid t
    → IsValid (insert_frame t frame_id instant)
unfolding insert_frame
insert_frame-IsValid t f i v = record {
  bounded = evict-length t.max_size (insert f i t.frame_map) (t.queue ++ f ∷ []);
  listed =
      evict-Listed t.max_size (insert f i t.frame_map) (t.queue ++ f ∷ [])
        (Listed-insert t.frame_map t.queue f i v.listed);
}

evict_fits : (cap : ℕ) (m : List (ℕ × ℕ)) (q : List ℕ) → length q ≤ cap → evict cap m q ≡ (m, q)
unfolding evict
evict_fits cap m [] h = refl
evict_fits cap m (x ∷ q) h = rw (le→ltb_false cap (length (x ∷ q)) h)

-- While there is room, the frame just sent is found with its instant, and the others as before.
pub lookup-insert_frame :
    (t : FrameTracker) (frame_id instant k : ℕ)
    → length t.queue < t.max_size
    → lookup k (insert_frame t frame_id instant).frame_map
      ≡ (if frame_id == k then some instant else lookup k t.frame_map)
unfolding insert_frame
lookup-insert_frame t f i k h =
    rw
      (evict_fits t.max_size (insert f i t.frame_map) (t.queue ++ f ∷ [])
        (omega (arith, length-append {0} t.queue (f ∷ []))))
      (lookup-insert f k i t.frame_map)
