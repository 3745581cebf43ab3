-- ===== src/Rng/Run.antt =====
-- `RunRng` (sim_rng.rs): the seed, the counter and the choices made once that the models of a run
-- share, as one state that the calls pass on. A name is its bytes.
use si_est_a_vr.Common.{
  ℕ, ◌+◌, Bool, true, false, ◌&&◌, ◌==◌, if◌then◌else◌, Option, none, some, List, [], ◌∷◌, Bytes,
}
use si_est_a_vr.Rng.SplitMix.{SimRng, wrap64, tag, tag_str, for_seed}

abbrev pub same_name : Bytes → Bytes → Bool
same_name [] [] = true
same_name [] (y ∷ ys) = false
same_name (x ∷ xs) [] = false
same_name (x ∷ xs) (y ∷ ys) = x == y && same_name xs ys

abbrev pub chosen : Bytes → List (Bytes × ℕ) → Option ℕ
chosen key [] = none
chosen key ((k, v) ∷ made) = if same_name k key then some v else chosen key made

-- The insertion of a name that the map lacks.
abbrev pub choose : Bytes → ℕ → List (Bytes × ℕ) → List (Bytes × ℕ)
choose key v [] = (key, v) ∷ []
choose key v (entry ∷ made) = entry ∷ choose key v made

pub record RunRng : Type 0 where
  pub seed : ℕ  -- u64
  pub counter : ℕ  -- AtomicU64
  pub made : List (Bytes × ℕ)  -- the map `once`

-- `set_global_seed`.
abbrev pub set_global_seed : ℕ → RunRng
set_global_seed seed = record { seed = seed; counter = 0; made = [] }

abbrev pub stream : ℕ → RunRng → SimRng
stream owner run = for_seed run.seed owner

unfoldable pub next_stream : Bytes → RunRng → RunRng × SimRng
next_stream tag_name run = (
  record run { counter = wrap64 (run.counter + 1) },
  stream (tag (tag_str tag_name ∷ run.counter ∷ [])) run,
)

-- What the caller draws, from the seed and the counter. It may take streams, which move the counter;
-- a call of `once` in it would wait for the lock for ever.
abbrev pub Drawing : Type 0
Drawing = ℕ → ℕ → ℕ × ℕ

abbrev pub once_with : Bytes → Drawing → Option ℕ → RunRng → RunRng × ℕ
once_with key draw (some v) run = (run, v)
once_with key draw none run =
    let (v, counter) = draw run.seed run.counter in
    (record run { counter = counter; made = choose key v run.made }, v)

unfoldable pub once : Bytes → Drawing → RunRng → RunRng × ℕ
once key draw run = once_with key draw (chosen key run.made) run

-- The calls of the models that share a run.
pub data Call : Type 0 where
  next_stream_call : Bytes → Call
  once_call : Bytes → Drawing → Call

abbrev pub call : Call → RunRng → RunRng
call (next_stream_call tag_name) run = (next_stream tag_name run).0
call (once_call key draw) run = (once key draw run).0

abbrev pub calls : List Call → RunRng → RunRng
calls [] run = run
calls (c ∷ cs) run = calls cs (call c run)
