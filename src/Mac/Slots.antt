-- ===== src/Mac/Slots.antt =====
-- Many slots of one station's count-down (models_mm1k.rs, `tick_backoff`).
use si_est_a_vr.Common.{ℕ, zero, suc, ◌+◌, ◌-◌, ◌≤◌, ◌≡◌, ap, ◌∙◌, true, false, arith, leb}
use si_est_a_vr.Mac.Edca.{aifs}
use si_est_a_vr.Mac.Backoff.{DcfStats, IsValid}
use si_est_a_vr.Mac.Medium.{Medium, is_idle}
use si_est_a_vr.Mac.Tick.{tick_station, is_ready}

-- A slot keeps a station's contention state sound.
pub tick_station-IsValid :
    (now : ℕ) (m : Medium) (st : DcfStats) → IsValid st → IsValid (tick_station now m st)
unfolding tick_station
tick_station-IsValid now m st v = ground (arith)

-- `n` slots from `now` on.
abbrev pub ticks : ℕ → ℕ → Medium → DcfStats → DcfStats
ticks zero now m st = st
ticks (suc n) now m st = ticks n (now + 9000) m (tick_station now m st)

tick_station-open :
    (now : ℕ) (m : Medium) (st : DcfStats)
    → is_idle m now ≡ true
    → st.medium_free_since + aifs st.param ≤ now
    → ((tick_station now m st).backoff_counter ≡ st.backoff_counter - 1)
      × ((tick_station now m st).backoff_frozen ≡ false)
      × ((tick_station now m st).medium_free_since + aifs (tick_station now m st).param
          ≡ st.medium_free_since + aifs st.param)
unfolding tick_station
tick_station-open now m st idle free = ground arith

is_idle-later :
    (m : Medium) (now later : ℕ) → is_idle m now ≡ true → now ≤ later → is_idle m later ≡ true
unfolding is_idle
is_idle-later m now later h le = ground arith

leb-pred : (c n : ℕ) → leb (c - 1) (suc n) ≡ leb c (suc (suc n))
leb-pred c n = ground arith

-- On a link that is idle, once the AIFS is over, a station counts one down in each slot, and it is
-- ready after `n + 1` slots exactly if its counter was `n + 1` at most.
pub ticks_lem :
    (n now : ℕ) (m : Medium) (st : DcfStats)
    → is_idle m now ≡ true
    → st.medium_free_since + aifs st.param ≤ now
    → ((ticks (suc n) now m st).backoff_counter ≡ st.backoff_counter - suc n)
      × (is_ready (ticks (suc n) now m st) ≡ leb st.backoff_counter (suc n))
unfolding is_ready
ticks_lem zero now m st idle free =
    let (counter, open_now, _) = tick_station-open now m st idle free in (counter, ground arith)
ticks_lem (suc n) now m st idle free =
    let (counter, open_now, same) = tick_station-open now m st idle free in
    let (later, ready) =
      ticks_lem n (now + 9000) m (tick_station now m st)
        (is_idle-later m now (now + 9000) idle (omega arith)) (omega (arith, same, free)) in
    (
      omega (arith, later, counter),
      ready ∙ ap (λ c. leb c (suc n)) counter ∙ leb-pred st.backoff_counter n,
    )
