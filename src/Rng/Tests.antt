-- ===== src/Rng/Tests.antt =====
-- The theorems on the streams at concrete inputs.
use si_est_a_vr.Common.{◌+◌, ◌*◌, ◌<◌, ◌≡◌, refl, arith, List, [], ◌∷◌, Bytes}
use si_est_a_vr.Rng.SplitMix.{SimRng, mix64, next_u64, wrap64}
use si_est_a_vr.Rng.Run.{
  RunRng, Drawing, Call, next_stream_call, once_call, set_global_seed, next_stream, once, calls,
}
use si_est_a_vr.Rng.Shared.{once_lem}
use si_est_a_vr.Rng.Streams.{after, after-mix64}

-- A stream three increments before the wrap.
abbrev near_wrap : SimRng
near_wrap = record { state = 18446744073709551000 }

after-mix64_example :
    ((next_u64 (after 3 near_wrap)).1
      ≡ mix64 (wrap64 (18446744073709551000 + 3 * 11400714819323198485)))
    × ((after 3 near_wrap).state < 18446744073709551616)
after-mix64_example = after-mix64 3 near_wrap (omega arith)

-- A trace's name, a draw that takes a stream, and one that gives another value.
abbrev trace : Bytes
trace = 116 ∷ 114 ∷ []

abbrev start_offset : Drawing
start_offset seed counter = (seed + counter, counter + 1)

abbrev other_offset : Drawing
other_offset seed counter = (7, counter)

abbrev fresh_run : RunRng
fresh_run = set_global_seed 40

abbrev between : List Call
between =
    next_stream_call trace ∷ once_call (116 ∷ []) other_offset ∷ once_call trace other_offset ∷ []

first_choice : (once trace start_offset (next_stream trace fresh_run).0).1 ≡ 41
unfolding once next_stream
first_choice = refl

once_lem_example :
    once trace other_offset (calls between (once trace start_offset fresh_run).0)
    ≡ (calls between (once trace start_offset fresh_run).0, (once trace start_offset fresh_run).1)
once_lem_example = once_lem trace start_offset other_offset fresh_run between
