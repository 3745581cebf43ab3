-- ===== src/Rng/Streams.antt =====
-- The draws of a stream (sim_rng.rs, `SimRng`).
use native.Mathlib.Nat.{mul-mod_left, add-mul-mod_self_right}
use si_est_a_vr.Common.{
  ℕ, zero, suc, ◌+◌, ◌-◌, ◌*◌, ◌/◌, ◌%◌, ◌≤◌, ◌<◌, ◌≡◌, ◌≢◌, sym, ap, ◌∙◌, min, arith, ◌==◌, ◌++◌,
  if_elim, length, take, length-append, length-take, [], Bytes, eq_of_==,
}
use si_est_a_vr.Rng.SplitMix.{wrap64, mix64, SimRng, next_u64, le_bytes, fill_from, fill_bytes}

-- The stream after `n` draws.
abbrev pub after : ℕ → SimRng → SimRng
after zero s = s
after (suc n) s = after n (next_u64 s).0

after_state :
    (n : ℕ) (s : SimRng)
    → s.state < 18446744073709551616
    → (after n s).state ≡ wrap64 (s.state + n * 11400714819323198485)
unfolding next_u64
after_state zero s h = omega (arith, h)
after_state (suc n) s h =
    after_state n (record { state = wrap64 (s.state + 11400714819323198485) }) (omega arith)
    ∙ omega arith

-- Draw `n` of a stream is the mix of its start plus `n` increments: any draw can be had without those
-- before it, and the state stays a `u64`.
pub after-mix64 :
    (n : ℕ) (s : SimRng)
    → s.state < 18446744073709551616
    → ((next_u64 (after n s)).1 ≡ mix64 (wrap64 (s.state + n * 11400714819323198485)))
      × ((after n s).state < 18446744073709551616)
unfolding next_u64 mix64
after-mix64 n s h =
    let e = after_state n s h in (ap (λ x. (next_u64 (record { state = x })).1) e, omega (arith, e))

below : (d : ℕ) → d < 18446744073709551616 → d % 18446744073709551616 ≡ d
below d h = omega (arith, h)

scaled :
    (d t : ℕ)
    → d * 11400714819323198485 ≡ t * 18446744073709551616
    → d + d * 10771413168148108919 * 18446744073709551616
      ≡ t * 17428512612931826493 * 18446744073709551616
scaled d t h = omega (arith, h)

-- The increment has an inverse modulo 2 ^ 64.
increment-inverse :
    (d t : ℕ)
    → d * 11400714819323198485 ≡ t * 18446744073709551616
    → d < 18446744073709551616
    → d ≡ 0
increment-inverse d t h small =
    sym (below d small)
    ∙ sym (add-mul-mod_self_right d (d * 10771413168148108919) 18446744073709551616)
    ∙ ap (λ n. n % 18446744073709551616) (scaled d t h)
    ∙ mul-mod_left (t * 17428512612931826493) 18446744073709551616

-- No state comes twice in 2 ^ 64 draws.
pub after-distinct :
    (i j : ℕ) (s : SimRng)
    → s.state < 18446744073709551616
    → i < j
    → j < 18446744073709551616
    → (after i s).state ≢ (after j s).state
after-distinct i j s h less most same = omega (
  arith,
  less,
  increment-inverse (j - i)
      ((s.state + j * 11400714819323198485) / 18446744073709551616
        - (s.state + i * 11400714819323198485) / 18446744073709551616)
      (omega (arith, after_state i s h, after_state j s h, same)) (omega arith),
)

one_draw : (count : ℕ) → 0 < count → (count + 7) / 8 ≡ suc ((count - 8 + 7) / 8)
one_draw count h = omega arith

-- What a loop that is left with `count` bytes gives.
abbrev Fills : ℕ → SimRng → SimRng × Bytes → Type 0
Fills count s (end, bytes) = (length bytes ≡ count) × (end ≡ after ((count + 7) / 8) s)

fill_from-Fills :
    (fuel count : ℕ) (s : SimRng) → count ≤ fuel → Fills count s (fill_from fuel count s)
unfolding fill_from
fill_from-Fills zero count s h =
    let none_left : (count + 7) / 8 ≡ 0 = omega arith in (omega arith, rw none_left)
fill_from-Fills (suc fuel) count s h =
    let (s', v) = next_u64 s in
    let (end, rest) = fill_from fuel (count - 8) s' in
    let ih = fill_from-Fills fuel (count - 8) s' in
    if_elim (Fills count s) (count == 0) {x = (s, [])}
      {y = (end, take (min 8 count) (le_bytes 8 v) ++ rest)}
      (λ e.
        let none_left : (count + 7) / 8 ≡ 0 = omega (arith, eq_of_== count 0 e) in
        (sym (eq_of_== count 0 e), rw none_left))
      (λ e.
        let pos : 0 < count = ground arith in
        (
          omega (
            arith,
            pos,
            length-append {0} (take (min 8 count) (le_bytes 8 v)) rest,
            length-take {0} (min 8 count) (le_bytes 8 v),
            (ih (omega (arith, pos))).0,
          ),
          rw (one_draw count pos) (ih (omega (arith, pos))).1,
        ))

-- `fill_bytes` gives as many bytes as it is asked for, and takes one draw for every eight of them
-- and one for the rest.
pub fill_bytes-after :
    (count : ℕ) (s : SimRng)
    → (length (fill_bytes count s).1 ≡ count) × ((fill_bytes count s).0 ≡ after ((count + 7) / 8) s)
unfolding fill_bytes
fill_bytes-after count s = fill_from-Fills count count s (omega arith)
