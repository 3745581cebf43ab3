-- ===== src/Abr/Tests.antt =====
-- The theorems on the rate control, with numbers for `f64`.
use si_est_a_vr.Common.{
  ℕ, ◌+◌, ◌-◌, ◌*◌, ◌/◌, min, max, ◌≡◌, refl, true, false, none, some, arith, ltb, leb, ◌==◌, ◌≤◌,
}
use si_est_a_vr.Abr.Float.{Float64, Laws}
use si_est_a_vr.Abr.Capacity
use si_est_a_vr.Abr.Aimd.{AimdRateControl, rc_hold, bw_overusing, change_bitrate}
use si_est_a_vr.Abr.Bounds.{Lowered, change_bitrate-overuse}

abbrev pub numbers : Float64
numbers = record {
  Number = ℕ;
  literal = λ n d. n;
  infinity = 1000000000;
  neg_infinity = 0;
  add = λ a b. a + b;
  sub = λ a b. a - b;
  mul = λ a b. a * b;
  div = λ a b. a / b;
  min = λ a b. min a b;
  max = λ a b. max a b;
  powf = λ a b. a;
  sqrt = λ a. a;
  lt = λ a b. ltb a b;
  le = λ a b. leb a b;
  nan = 0;
  neg = λ a. 0;
  abs = λ a. a;
  truncate = λ a. a;
  eq = λ a b. a == b;
  elapsed = λ a b. a;
}

lt_to_le : (x y : ℕ) → ltb x y ≡ true → leb x y ≡ true
lt_to_le x y h = ground (arith, h)

trans : (x y z : ℕ) → leb x y ≡ true → leb y z ≡ true → leb x z ≡ true
trans x y z h k = ground (arith, h, k)

left_self : (x y : ℕ) → leb x y ≡ true → leb x x ≡ true
left_self x y h = ground arith

right_self : (x y : ℕ) → leb x y ≡ true → leb y y ≡ true
right_self x y h = ground arith

above_left : (x y : ℕ) → leb x x ≡ true → leb x (max x y) ≡ true
above_left x y h = ground arith

above_right : (x y : ℕ) → leb y y ≡ true → leb y (max x y) ≡ true
above_right x y h = ground arith

below_left : (x y : ℕ) → leb x x ≡ true → leb (min x y) x ≡ true
below_left x y h = ground arith

below_right : (x y : ℕ) → leb y y ≡ true → leb (min x y) y ≡ true
below_right x y h = ground arith

least : (x y z : ℕ) → leb x z ≡ true → leb y z ≡ true → leb (max x y) z ≡ true
least x y z h k = ground (arith, h, k)

not_less : (x : ℕ) → ltb x x ≡ false
not_less x = ground arith

not_less_below : (m n : ℕ) → n ≤ m → ltb m n ≡ false
not_less_below m n h = ground (arith, h)

pub number_laws : Laws numbers
number_laws = record {
  lt→le = lt_to_le;
  le_trans = trans;
  le_left = left_self;
  le_right = right_self;
  le-max_left = above_left;
  le-max_right = above_right;
  min-le_left = below_left;
  min-le_right = below_right;
  max-le = least;
  lt_irrefl = not_less;
  lt-literal = not_less_below;
}

abbrev control : AimdRateControl numbers
control = record {
  min_configured_bitrate = 10;
  max_configured_bitrate = 100;
  current_bitrate = 60;
  latest_estimated_throughput = 60;
  link_capacity = Capacity.new numbers;
  network_estimate = none;
  rate_control_state = rc_hold;
  time_last_bitrate_change = none;
  time_last_bitrate_decrease = none;
  time_first_throughput_estimate = none;
  bitrate_is_initialized = true;
  beta = 0;
  rtt = 200;
  last_decrease = none;
  esitmate_thr_testing = 0;
  gcc_frame_interval = 1;
}

change_bitrate-overuse_example : Lowered numbers number_laws control (
    change_bitrate numbers
      (record { bw_state = bw_overusing; estimated_throughput = some 50 })
      7000
      control)
change_bitrate-overuse_example =
    change_bitrate-overuse numbers number_laws (some 50) 7000 control refl refl
