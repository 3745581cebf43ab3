-- ===== src/Abr/Bounds.antt =====
-- What the rate control keeps (gcc_nada_estimator.rs, `AimdRateControl`).
use si_est_a_vr.Common.{
  ℕ, true, false, not, ◌&&◌, if◌then◌else◌, Option, none, some, ◌≡◌, ◌≢◌, refl, arith, if_elim, ◌+◌,
  ltb,
}
use si_est_a_vr.Abr.Float.{Float64, Laws}
use si_est_a_vr.Abr.Aimd.{
  AimdRateControl, RateControlInput, RateControlState, rc_hold, rc_increase, rc_decrease,
  bw_overusing, is_overusing, change_state, increase, decrease, in_state, settle, clamp_bitrate,
  change_bitrate, update, below_upper, above_lower, unwrap_or, bounds_of, note_throughput,
  first_estimate, NetworkStateEstimate, decreased_bitrate,
}

module _ (f : Float64) (laws : Laws f) where
  -- The bit rate is no lower than the configured one; a decrease has been acted on; and the control
  -- is in its increase only if the time of a change is known.
  pub record IsSound (c : AimdRateControl f) : Type 0 where
    pub floor : f.le c.min_configured_bitrate c.current_bitrate ≡ true
    pub acted : c.rate_control_state ≢ rc_decrease
    pub started : c.rate_control_state ≡ rc_increase → c.time_last_bitrate_change ≢ none

  record Acted (c c' : AimdRateControl f) : Type 0 where
    same_floor : c'.min_configured_bitrate ≡ c.min_configured_bitrate
    acted : c'.rate_control_state ≢ rc_decrease
    started : c'.rate_control_state ≡ rc_increase → c'.time_last_bitrate_change ≢ none

  in_state-Acted :
      (state : RateControlState) (estimated : f.Number) (at_time : ℕ) (c : AimdRateControl f)
      → c.rate_control_state ≡ state
      → Acted c (in_state f state estimated at_time c).1
  unfolding increase decrease
  in_state-Acted rc_hold estimated at_time c e = record {
    same_floor = refl;
    acted = λ h. cc;
    started = λ h. cc;
  }
  in_state-Acted rc_increase estimated at_time c e = record {
    same_floor = refl;
    acted = λ h. cc;
    started = λ h k. cc;
  }
  in_state-Acted rc_decrease estimated at_time c e = record {
    same_floor = refl;
    acted = λ h. cc;
    started = λ h. cc;
  }

  settle-IsSound :
      (c : AimdRateControl f) (new_bitrate : Option f.Number) (c' : AimdRateControl f)
      → f.le c.min_configured_bitrate c.min_configured_bitrate ≡ true
      → Acted c c'
      → IsSound (settle f (new_bitrate, c'))
  unfolding settle clamp_bitrate
  settle-IsSound c new_bitrate c' v a =
      let x = unwrap_or f c'.current_bitrate new_bitrate in
      record {
        floor =
            laws.le-max_right
              (above_lower f (some (bounds_of f c')) c'.current_bitrate c'.beta
                (below_upper f (some (bounds_of f c')) x))
              c'.min_configured_bitrate (rw a.same_floor v);
        acted = a.acted;
        started = a.started;
      }

  noted-IsSound :
      (t : Option f.Number) (c : AimdRateControl f) → IsSound c → IsSound (note_throughput f t c)
  noted-IsSound none c s = s
  noted-IsSound (some x) c s = record { floor = s.floor; acted = s.acted; started = s.started }

  noted_floor :
      (t : Option f.Number) (c : AimdRateControl f)
      → (note_throughput f t c).min_configured_bitrate ≡ c.min_configured_bitrate
  noted_floor none c = refl
  noted_floor (some x) c = refl

  change_bitrate-IsSound :
      (input : RateControlInput f) (at_time : ℕ) (c : AimdRateControl f)
      → f.le c.min_configured_bitrate c.min_configured_bitrate ≡ true
      → (c.bitrate_is_initialized ≡ false → IsSound c)
      → IsSound (change_bitrate f input at_time c)
  unfolding change_bitrate change_state
  change_bitrate-IsSound input at_time c v s =
      let c1 = note_throughput f input.estimated_throughput c in
      let c2 = change_state f input.bw_state at_time c1 in
      let estimated = unwrap_or f c.latest_estimated_throughput input.estimated_throughput in
      let r = in_state f c2.rate_control_state estimated at_time c2 in
      if_elim IsSound (not c.bitrate_is_initialized && not (is_overusing input.bw_state))
        (λ e. noted-IsSound input.estimated_throughput c (s (ground (arith, e))))
        (λ e.
          settle-IsSound c2 r.0 r.1 (rw (noted_floor input.estimated_throughput c) v)
            (in_state-Acted c2.rate_control_state estimated at_time c2 refl))

  -- What `change_bitrate` takes for granted.
  record Started (c : AimdRateControl f) : Type 0 where
    number : f.le c.min_configured_bitrate c.min_configured_bitrate ≡ true
    waiting : c.bitrate_is_initialized ≡ false → IsSound c

  first_estimate-Started :
      (first : Option ℕ) (t : Option f.Number) (at_time : ℕ) (c : AimdRateControl f)
      → IsSound c
      → Started (first_estimate f first t at_time c)
  first_estimate-Started first none at_time c s = record {
    number = laws.le_left c.min_configured_bitrate c.current_bitrate s.floor;
    waiting = λ h. s;
  }
  first_estimate-Started none (some x) at_time c s = record {
    number = laws.le_left c.min_configured_bitrate c.current_bitrate s.floor;
    waiting = λ h. record { floor = s.floor; acted = s.acted; started = s.started };
  }
  first_estimate-Started (some t) (some x) at_time c s =
      let number = laws.le_left c.min_configured_bitrate c.current_bitrate s.floor in
      if_elim Started (ltb (t + 5000) at_time) (λ e. record { number = number; waiting = λ h. cc })
        (λ e. record { number = number; waiting = λ h. s })

  -- Whatever the estimates and the verdicts, an update keeps the bit rate at the configured least one
  -- or above, leaves no decrease to be acted on, and is in its increase only with a time of the last
  -- change.
  pub update-IsSound :
      (input : RateControlInput f) (at_time : ℕ) (c : AimdRateControl f)
      → IsSound c
      → IsSound (update f input at_time c)
  unfolding update
  update-IsSound input at_time c s =
      let first =
        first_estimate-Started c.time_first_throughput_estimate input.estimated_throughput at_time c
          s in
      if_elim {A = AimdRateControl f} (λ x. IsSound (change_bitrate f input at_time x))
        c.bitrate_is_initialized
        (λ e.
          change_bitrate-IsSound input at_time c
            (laws.le_left c.min_configured_bitrate c.current_bitrate s.floor) (λ h. s))
        (λ e.
          change_bitrate-IsSound input at_time
            (first_estimate f c.time_first_throughput_estimate input.estimated_throughput at_time c)
            first.number first.waiting)

  below_upper-le :
      (e : Option (NetworkStateEstimate f)) (x y : f.Number)
      → f.le x y ≡ true
      → f.le (below_upper f e x) y ≡ true
  below_upper-le none x y h = h
  below_upper-le (some e) x y h =
      if_elim (λ z. f.le z y ≡ true) (not (f.eq e.link_capacity_upper f.neg_infinity))
        (λ t.
          laws.le_trans (f.min e.link_capacity_upper x) x y
            (laws.min-le_right e.link_capacity_upper x (laws.le_left x y h)) h)
        (λ t. h)

  above_lower-le :
      (e : Option (NetworkStateEstimate f)) (current beta x : f.Number)
      → f.le x current ≡ true
      → f.le (above_lower f e current beta x) current ≡ true
  above_lower-le none current beta x h = h
  above_lower-le (some e) current beta x h =
      if_elim (λ z. f.le z current ≡ true)
        (not (f.eq e.link_capacity_lower f.neg_infinity) && f.lt x current)
        (λ t.
          laws.min-le_left current (f.max x (f.mul e.link_capacity_lower beta))
            (laws.le_right x current h))
        (λ t. h)

  clamp_bitrate-le :
      (x : f.Number) (c : AimdRateControl f)
      → f.le c.min_configured_bitrate c.min_configured_bitrate ≡ true
      → f.le x c.current_bitrate ≡ true
      → f.le (clamp_bitrate f x c) (f.max c.current_bitrate c.min_configured_bitrate) ≡ true
  unfolding clamp_bitrate
  clamp_bitrate-le x c v h =
      let low = below_upper f c.network_estimate x in
      let y = above_lower f c.network_estimate c.current_bitrate c.beta low in
      let top = f.max c.current_bitrate c.min_configured_bitrate in
      laws.max-le y c.min_configured_bitrate top
        (laws.le_trans y c.current_bitrate top
          (above_lower-le c.network_estimate c.current_bitrate c.beta low
            (below_upper-le c.network_estimate x c.current_bitrate h))
          (laws.le-max_left c.current_bitrate c.min_configured_bitrate
            (laws.le_right x c.current_bitrate h)))
        (laws.le-max_right c.current_bitrate c.min_configured_bitrate v)

  -- The bit rate is no higher than it was, or the least one.
  abbrev pub Lowered : AimdRateControl f → AimdRateControl f → Type 0
  Lowered c c' = f.le c'.current_bitrate (f.max c.current_bitrate c.min_configured_bitrate) ≡ true

  decrease-Lowered :
      (estimated : f.Number) (at_time : ℕ) (c : AimdRateControl f)
      → f.le c.min_configured_bitrate c.min_configured_bitrate ≡ true
      → f.le c.current_bitrate c.current_bitrate ≡ true
      → Lowered c (settle f (decrease f estimated at_time c))
  unfolding decrease settle
  decrease-Lowered estimated at_time c v h =
      let c' = (decrease f estimated at_time c).1 in
      let settled : AimdRateControl f = record c' { network_estimate = some (bounds_of f c') } in
      if_elim {A = Option f.Number}
        (λ n.
          f.le (clamp_bitrate f (unwrap_or f c.current_bitrate n) settled)
            (f.max c.current_bitrate c.min_configured_bitrate)
          ≡ true)
        (f.lt (decreased_bitrate f estimated c) c.current_bitrate)
        (λ e.
          clamp_bitrate-le (decreased_bitrate f estimated c) settled v
            (laws.lt→le (decreased_bitrate f estimated c) c.current_bitrate e))
        (λ e. clamp_bitrate-le c.current_bitrate settled v h)

  overusing-Lowered :
      (estimated : f.Number) (at_time : ℕ) (c c1 : AimdRateControl f)
      → f.le c1.min_configured_bitrate c1.min_configured_bitrate ≡ true
      → f.le c1.current_bitrate c1.current_bitrate ≡ true
      → Lowered c1 (
          if not c.bitrate_is_initialized && not true
          then c1
          else settle f (decrease f estimated at_time (change_state f bw_overusing at_time c1)))
  unfolding change_state
  overusing-Lowered estimated at_time c c1 v h =
      if_elim (Lowered c1) (not c.bitrate_is_initialized && not true)
        (λ e. absurd (ground (arith, e)))
        (λ e. decrease-Lowered estimated at_time (change_state f bw_overusing at_time c1) v h)

  -- An over-use never raises the bit rate, but to the least one that is configured: neither of them
  -- being a NaN, the new bit rate is at most the larger one of the old bit rate and the least one.
  pub change_bitrate-overuse :
      (throughput : Option f.Number) (at_time : ℕ) (c : AimdRateControl f)
      → f.le c.min_configured_bitrate c.min_configured_bitrate ≡ true
      → f.le c.current_bitrate c.current_bitrate ≡ true
      → Lowered c (
          change_bitrate f
            (record { bw_state = bw_overusing; estimated_throughput = throughput })
            at_time
            c)
  unfolding change_bitrate change_state
  change_bitrate-overuse none at_time c v h =
      overusing-Lowered c.latest_estimated_throughput at_time c c v h
  change_bitrate-overuse (some x) at_time c v h =
      overusing-Lowered x at_time c (note_throughput f (some x) c) v h
