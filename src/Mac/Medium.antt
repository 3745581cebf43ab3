-- ===== src/Mac/Medium.antt =====
-- `Medium` (models_mm1k.rs): when a link is busy, and who holds it. Times are nanoseconds. The sum
-- of busy seconds is an `f32` that the operations only add to, and is left out; the high-water mark
-- that guards it is kept.
use si_est_a_vr.Common.{ℕ, ◌≤◌, ◌<◌, Bool, ◌&&◌, Option, none, some, ltb, leb, if◌then◌else◌}
use si_est_a_vr.Mac.Edca.{MacKey}

pub record Medium : Type 0 where
  pub busy_until : ℕ
  pub nav_until : ℕ
  pub tx_owner : Option MacKey
  pub last_txop_owner : Option MacKey
  pub last_txop_end : ℕ
  pub max_busy_reached : ℕ

unfoldable pub is_idle : Medium → ℕ → Bool
is_idle m now = leb m.busy_until now && leb m.nav_until now

unfoldable pub integrate_busy_time : ℕ → ℕ → Medium → Medium
integrate_busy_time now until m =
    let start = if ltb m.max_busy_reached now then now else m.max_busy_reached in
    if ltb start until then record m { max_busy_reached = until } else m

unfoldable pub start_txop : ℕ → ℕ → MacKey → Medium → Medium
unfolding integrate_busy_time
start_txop now t owner m = record (integrate_busy_time now t m) {
  busy_until = t;
  tx_owner = some owner;
}

unfoldable pub occupy_collision : ℕ → ℕ → Medium → Medium
unfolding integrate_busy_time
occupy_collision now until m = record (integrate_busy_time now until m) {
  tx_owner = none;
  busy_until = until;
}

unfoldable pub set_nav_until : ℕ → ℕ → Medium → Medium
unfolding integrate_busy_time
set_nav_until now t m = record (integrate_busy_time now t m) { nav_until = t }

release_owned : Option MacKey → ℕ → Medium → Medium
release_owned (some owner) now m = record m {
  last_txop_owner = some owner;
  last_txop_end = now;
  tx_owner = none;
}
release_owned none now m = record m { tx_owner = none }

unfoldable pub release_txop : ℕ → Medium → Medium
unfolding release_owned
release_txop now m = release_owned m.tx_owner now m

unfoldable pub clear_if_idle : ℕ → Medium → Medium
unfolding is_idle
clear_if_idle now m = if is_idle m now then record m { tx_owner = none } else m

-- The operations on a medium, each at its time.
pub data MediumOp : Type 0 where
  start : ℕ → MacKey → MediumOp
  collide : ℕ → MediumOp
  nav : ℕ → MediumOp
  release clear : MediumOp

abbrev pub apply : MediumOp → ℕ → Medium → Medium
apply (start t owner) now m = start_txop now t owner m
apply (collide t) now m = occupy_collision now t m
apply (nav t) now m = set_nav_until now t m
apply release now m = release_txop now m
apply clear now m = clear_if_idle now m

-- An operation that makes the link busy does so past the present.
abbrev pub Lasts : MediumOp → ℕ → Type 0
Lasts (start t owner) now = now < t
Lasts (collide t) now = now < t
Lasts (nav t) now = now < t
Lasts release now = Unit
Lasts clear now = Unit

-- The time up to which an operation makes the link busy.
abbrev pub busy_end : MediumOp → ℕ → ℕ
busy_end (start t owner) now = t
busy_end (collide t) now = t
busy_end (nav t) now = t
busy_end release now = now
busy_end clear now = now

-- The busy time that is counted reaches at least as far as the link has ever been busy.
pub record IsCovered (m : Medium) : Type 0 where
  pub busy_covered : m.busy_until ≤ m.max_busy_reached
  pub nav_covered : m.nav_until ≤ m.max_busy_reached
