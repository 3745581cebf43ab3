-- ===== src/Rng/Shared.antt =====
-- What the calls of `RunRng::once` (sim_rng.rs) leave to the calls after them.
use si_est_a_vr.Common.{ℕ, true, Option, none, some, List, [], ◌∷◌, ◌≡◌, refl, arith, Bytes}
use si_est_a_vr.Rng.Run.{
  RunRng, Drawing, Call, next_stream_call, once_call, same_name, chosen, choose, once_with, once,
  next_stream, calls,
}

same_name_refl : (xs : Bytes) → same_name xs xs ≡ true
same_name_refl [] = refl
same_name_refl (x ∷ xs) = ground (arith, same_name_refl xs)

chosen-choose :
    (key : Bytes) (v : ℕ) (made : List (Bytes × ℕ))
    → chosen key made ≡ none
    → chosen key (choose key v made) ≡ some v
chosen-choose key v [] h = rw (same_name_refl key) refl
chosen-choose key v ((k, w) ∷ made) h = ground (arith, h, chosen-choose key v made)

chosen_kept :
    (key j : Bytes) (v w : ℕ) (made : List (Bytes × ℕ))
    → chosen key made ≡ some v
    → chosen key (choose j w made) ≡ some v
chosen_kept key j v w [] h = ground (arith, h)
chosen_kept key j v w ((k, u) ∷ made) h = ground (arith, h, chosen_kept key j v w made)

chosen-once_with :
    (key : Bytes) (draw : Drawing) (run : RunRng) (found : Option ℕ)
    → chosen key run.made ≡ found
    → chosen key (once_with key draw found run).0.made ≡ some (once_with key draw found run).1
chosen-once_with key draw run none h = chosen-choose key (draw run.seed run.counter).0 run.made h
chosen-once_with key draw run (some v) h = h

chosen-once_with_kept :
    (key j : Bytes) (v : ℕ) (draw : Drawing) (run : RunRng) (found : Option ℕ)
    → chosen key run.made ≡ some v
    → chosen key (once_with j draw found run).0.made ≡ some v
chosen-once_with_kept key j v draw run none h =
    chosen_kept key j v (draw run.seed run.counter).0 run.made h
chosen-once_with_kept key j v draw run (some w) h = h

calls_keep :
    (key : Bytes) (v : ℕ) (cs : List Call) (run : RunRng)
    → chosen key run.made ≡ some v
    → chosen key (calls cs run).made ≡ some v
unfolding once next_stream
calls_keep key v [] run h = h
calls_keep key v (next_stream_call tag_name ∷ cs) run h =
    calls_keep key v cs (next_stream tag_name run).0 h
calls_keep key v (once_call j draw ∷ cs) run h =
    calls_keep key v cs (once j draw run).0
      (chosen-once_with_kept key j v draw run (chosen j run.made) h)

-- A choice is made once in a run: whatever calls of once and next_stream come between, a later call
-- with the same name gives the first one's value, draws nothing, and leaves the run as it is.
pub once_lem :
    (key : Bytes) (draw again : Drawing) (run : RunRng) (cs : List Call)
    → once key again (calls cs (once key draw run).0)
      ≡ (calls cs (once key draw run).0, (once key draw run).1)
unfolding once
once_lem key draw again run cs =
    let found = chosen-once_with key draw run (chosen key run.made) refl in
    rw (calls_keep key (once key draw run).1 cs (once key draw run).0 found) refl
