-- ===== src/Codec/Chunks.antt =====
-- `HevcParser::get_frames` on a stream that comes in several reads (mod.rs).
use mathlib.Core.List.{append_assoc}
use si_est_a_vr.Common.{
  ℕ, zero, suc, ◌≤◌, ◌<◌, ◌≡◌, sym, ap, ◌∙◌, inl, inr, none, some, arith, length, List, [], ◌++◌,
  Bytes, ok, length-append,
}
use si_est_a_vr.Codec.Hevc.{
  HevcParser, NalUnit, add_bytes, next_nal_unit, add_unit, frames_from, get_frames,
}
use si_est_a_vr.Codec.Units.{Cuts, next_nal_unit-Cuts}

stops :
    (p : HevcParser)
    → next_nal_unit p ≡ ok (p, none)
    → (k : ℕ) → length p.buffer < k
    → frames_from k p ≡ ok (p, [])
unfolding frames_from
stops p h zero less = absurd (omega arith)
stops p h (suc k) less = rw h

goes_on :
    (p q : HevcParser) (u : NalUnit) (r : HevcParser) (frames : List Bytes)
    → next_nal_unit p ≡ ok (q, some u)
    → length q.buffer < length p.buffer
    → ((k : ℕ) → length q.buffer < k → frames_from k (add_unit u q).0 ≡ ok (r, frames))
    → (k : ℕ) → length p.buffer < k
    → frames_from k p ≡ ok (r, (add_unit u q).1 ++ frames)
unfolding frames_from
goes_on p q u r frames h shorter later zero less = absurd (omega arith)
goes_on p q u r frames h shorter later (suc k) less = rw (h, later k (omega arith))

-- What the loop gives on any fuel that is enough, and how it goes on when there is more data.
record FramesDone (p : HevcParser) : Type 0 where
  after : HevcParser
  frames : List Bytes
  result : (k : ℕ) → length p.buffer < k → frames_from k p ≡ ok (after, frames)
  still_long : 3 ≤ length after.buffer
  extended :
      (more : Bytes) (r : HevcParser) (later : List Bytes)
      → ((k : ℕ)
          → length (after.buffer ++ more) < k
          → frames_from k (add_bytes more after) ≡ ok (r, later))
      → (k : ℕ) → length (p.buffer ++ more) < k
      → frames_from k (add_bytes more p) ≡ ok (r, frames ++ later)

unit-FramesDone :
    (p : HevcParser) (c : Cuts p) → FramesDone (add_unit c.unit c.after).0 → FramesDone p
unfolding add_unit
unit-FramesDone p c ih = record {
  after = ih.after;
  frames = (add_unit c.unit c.after).1 ++ ih.frames;
  result = goes_on p c.after c.unit ih.after ih.frames c.result c.shorter ih.result;
  still_long = ih.still_long;
  extended = λ more r later f k less.
      goes_on (add_bytes more p) (add_bytes more c.after) c.unit r (ih.frames ++ later)
        (c.extended more)
        (omega (
          arith,
          length-append {0} p.buffer more,
          length-append {0} c.after.buffer more,
          c.shorter,
        ))
        (ih.extended more r later f) k less
      ∙ ap (λ l. ok (r, l)) (sym (append_assoc (add_unit c.unit c.after).1 ih.frames later));
}

frames_from-FramesDone :
    (n : ℕ) (p : HevcParser) → length p.buffer < n → 3 ≤ length p.buffer → FramesDone p
unfolding add_unit
frames_from-FramesDone zero p less long = absurd (omega arith)
frames_from-FramesDone (suc n) p less long = elim (next_nal_unit-Cuts p long) [
  | inl none_left ↦ record {
    after = p;
    frames = [];
    result = stops p none_left;
    still_long = long;
    extended = λ more r later f. f;
  }
  | inr c ↦
      unit-FramesDone p c (
        frames_from-FramesDone n (add_unit c.unit c.after).0 (omega (arith, c.shorter))
          c.still_long)
]

-- Give the parser some data, three bytes or more, take the frames, give it more and take the frames
-- again: no call panics or fails to end, the frames together are those of one call on all the data,
-- and the parser is left in the same state.
pub get_frames-chunks :
    (p : HevcParser) (more : Bytes)
    → 3 ≤ length p.buffer
    → (q : HevcParser) × (r : HevcParser) × (first : List Bytes) × (second : List Bytes)
      × (get_frames p ≡ ok (q, first))
      × (get_frames (add_bytes more q) ≡ ok (r, second))
      × (get_frames (add_bytes more p) ≡ ok (r, first ++ second))
unfolding get_frames
get_frames-chunks p more long =
    let one = frames_from-FramesDone (suc (length p.buffer)) p (omega arith) long in
    let two =
      frames_from-FramesDone (suc (length (one.after.buffer ++ more))) (add_bytes more one.after)
        (omega arith) (omega (arith, length-append {0} one.after.buffer more, one.still_long)) in
    (
      one.after,
      two.after,
      one.frames,
      two.frames,
      one.result (suc (length p.buffer)) (omega arith),
      two.result (suc (length (one.after.buffer ++ more))) (omega arith),
      one.extended more two.after two.frames two.result (suc (length (p.buffer ++ more)))
          (omega arith),
    )
