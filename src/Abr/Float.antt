-- ===== src/Abr/Float.antt =====
-- The `f64` operations that the rate control uses (gcc_nada_estimator.rs), which are the processor's:
-- a parameter. A literal is given by its digits and the number of decimals.
use si_est_a_vr.Common.{ℕ, Bool, ◌≡◌, true, false, ◌≤◌, Option}

pub record Float64 : Type 1 where
  pub Number : Type 0
  pub literal : ℕ → ℕ → Number
  pub infinity : Number
  pub neg_infinity : Number
  pub nan : Number
  pub add : Number → Number → Number
  pub sub : Number → Number → Number
  pub mul : Number → Number → Number
  pub div : Number → Number → Number
  pub min : Number → Number → Number
  pub max : Number → Number → Number
  pub powf : Number → Number → Number
  pub sqrt : Number → Number
  pub neg : Number → Number
  pub abs : Number → Number
  pub lt : Number → Number → Bool
  pub le : Number → Number → Bool
  pub eq : Number → Number → Bool
  -- `(at_time - last_time) as f64`, where `none` is the time `i64::MIN`.
  pub elapsed : ℕ → Option ℕ → Number
  -- `as i64`, for a time, which is not negative.
  pub truncate : Number → ℕ

-- What is documented of the comparisons, of `f64::min` and of `f64::max`: a number is at most itself
-- unless it is a NaN; of a number and a NaN, both give the number; nothing is less than itself; and
-- literals that are whole numbers keep their order.
pub record Laws (f : Float64) : Type 0 where
  pub lt→le : (x y : f.Number) → f.lt x y ≡ true → f.le x y ≡ true
  pub le_trans : (x y z : f.Number) → f.le x y ≡ true → f.le y z ≡ true → f.le x z ≡ true
  pub le_left : (x y : f.Number) → f.le x y ≡ true → f.le x x ≡ true
  pub le_right : (x y : f.Number) → f.le x y ≡ true → f.le y y ≡ true
  pub le-max_left : (x y : f.Number) → f.le x x ≡ true → f.le x (f.max x y) ≡ true
  pub le-max_right : (x y : f.Number) → f.le y y ≡ true → f.le y (f.max x y) ≡ true
  pub min-le_left : (x y : f.Number) → f.le x x ≡ true → f.le (f.min x y) x ≡ true
  pub min-le_right : (x y : f.Number) → f.le y y ≡ true → f.le (f.min x y) y ≡ true
  pub max-le : (x y z : f.Number) → f.le x z ≡ true → f.le y z ≡ true → f.le (f.max x y) z ≡ true
  pub lt_irrefl : (x : f.Number) → f.lt x x ≡ false
  pub lt-literal : (m n : ℕ) → n ≤ m → f.lt (f.literal m 0) (f.literal n 0) ≡ false
