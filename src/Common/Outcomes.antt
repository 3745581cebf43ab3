-- ===== src/Common/Outcomes.antt =====
-- What a fallible operation of the source can do: return, return an error, panic, or spin for ever.
use mathlib.Core.Bool.{Bool, true, false}

pub data Outcome {ℓ} (E : Type 0) (A : Type ℓ) : Type ℓ where
  ok : A → Outcome E A
  err : E → Outcome E A
  panic : Outcome E A
  hang : Outcome E A

infixl 5 ◌>>=◌
abbrev pub ◌>>=◌ {ℓ κ} :
    {E : Type 0} {A : Type ℓ} {B : Type κ} → Outcome E A → (A → Outcome E B) → Outcome E B
ok a >>= f = f a
err e >>= f = err e
panic >>= f = panic
hang >>= f = hang

-- An `assert`-like step: a slice index or a checked subtraction that panics when it fails.
abbrev pub require {ℓ} : {E : Type 0} {A : Type ℓ} → Bool → Outcome E A → Outcome E A
require true m = m
require false m = panic
