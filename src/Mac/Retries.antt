-- ===== src/Mac/Retries.antt =====
-- Failed attempts in a row (models_mm1k.rs, `DcfStats::on_failure`): binary exponential back-off.
use native.Mathlib.Nat.{pow-suc, one-le-pow}
use si_est_a_vr.Common.{
  ℕ, zero, suc, ◌+◌, ◌-◌, ◌*◌, ◌^◌, ◌≤◌, ◌<◌, min, ◌≡◌, refl, ◌∙◌, sym, ap, true, false, arith,
}
use si_est_a_vr.Mac.Backoff.{Draw, DcfStats, on_failure}

-- A packet's first attempt: the smallest window and no retry.
pub record IsFresh (st : DcfStats) : Type 0 where
  pub smallest : st.cw ≡ st.param.cw_min
  pub no_retry : st.retry_count ≡ 0
  pub sane : st.param.cw_min ≤ st.param.cw_max

double_window :
    (widest x : ℕ) → 1 ≤ x → min widest ((min widest (x - 1) + 1) * 2 - 1) ≡ min widest (x * 2 - 1)
double_window widest x h = omega arith

one_more_power : (m k : ℕ) → (m + 1) * 2 ^ suc k ≡ (m + 1) * 2 ^ k * 2
one_more_power m k = grind (arith, pow-suc 2 k)

power_of_two-positive : (m k : ℕ) → 1 ≤ (m + 1) * 2 ^ k
power_of_two-positive m k = grind (arith, one-le-pow k 2 (omega arith))

module _ (r : Draw) where
  abbrev pub fail_times : ℕ → DcfStats → DcfStats
  fail_times zero st = st
  fail_times (suc k) st = (on_failure r (fail_times k st)).0

  -- One failure below the limit.
  on_failure_below :
      (st : DcfStats)
      → st.retry_count < 10
      → ((on_failure r st).1 ≡ true)
        × ((on_failure r st).0.retry_count ≡ st.retry_count + 1)
        × ((on_failure r st).0.cw ≡ min st.param.cw_max ((st.cw + 1) * 2 - 1))
        × ((on_failure r st).0.param ≡ st.param)
  unfolding on_failure
  on_failure_below st h = ground arith

  on_failure_limit :
      (st : DcfStats)
      → st.retry_count ≡ 10
      → ((on_failure r st).1 ≡ false)
        × ((on_failure r st).0.retry_count ≡ 0)
        × ((on_failure r st).0.cw ≡ st.param.cw_min)
        × ((on_failure r st).0.param ≡ st.param)
  unfolding on_failure
  on_failure_limit st h = ground arith

  -- After `k` failures in a row, up to ten, the window is (cw_min + 1) 2 ^ k - 1, cut to the
  -- category's largest, and the count of retries is `k`.
  pub fail_times_lem :
      (k : ℕ) (st : DcfStats)
      → IsFresh st
      → k ≤ 10
      → ((fail_times k st).retry_count ≡ k)
        × ((fail_times k st).cw ≡ min st.param.cw_max ((st.param.cw_min + 1) * 2 ^ k - 1))
        × ((fail_times k st).param ≡ st.param)
  fail_times_lem zero st f h = (f.no_retry, omega (arith, f.smallest, f.sane), refl)
  fail_times_lem (suc k) st f h =
      let (retries, window, same) = fail_times_lem k st f (omega arith) in
      let (kept, next, wider, same') =
        on_failure_below (fail_times k st) (omega (arith, retries)) in
      (
        omega (arith, next, retries),
        wider
            ∙ rw (same, window, one_more_power st.param.cw_min k)
                (double_window _ _ (power_of_two-positive st.param.cw_min k)),
        same' ∙ same,
      )

  -- The packet is kept on each of the first ten failures, and given up on the eleventh, which
  -- makes the state fresh again.
  pub fail_times_gives_up :
      (st : DcfStats)
      → IsFresh st
      → ((k : ℕ) → k < 10 → (on_failure r (fail_times k st)).1 ≡ true)
        × ((on_failure r (fail_times 10 st)).1 ≡ false)
        × IsFresh (fail_times 11 st)
  fail_times_gives_up st f =
      let (retries, window, same) = fail_times_lem 10 st f (omega arith) in
      let (dropped, reset, smallest, same') = on_failure_limit (fail_times 10 st) retries in
      (
        λ k h.
            (on_failure_below (fail_times k st)
              (omega (arith, (fail_times_lem k st f (omega arith)).0))).0,
        dropped,
        record {
          smallest = smallest ∙ ap (λ p. p.cw_min) (sym same');
          no_retry = reset;
          sane = rw (same', same) f.sane;
        },
      )
