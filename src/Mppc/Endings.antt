-- ===== src/Mppc/Endings.antt =====
-- How a piece of mppc_expand ends: with a value, by `return -1`, by an access outside an array, or
-- (in the model only) with its fuel used up.

pub data Outcome {ℓ} (A : Type ℓ) : Type ℓ where
  value : A → Outcome A
  minus_one : Outcome A
  fault : Outcome A
  stuck : Outcome A

infixl 5 ◌>>=◌
abbrev pub ◌>>=◌ {ℓ κ} : {A : Type ℓ} {B : Type κ} → Outcome A → (A → Outcome B) → Outcome B
value a >>= f = f a
minus_one >>= f = minus_one
fault >>= f = fault
stuck >>= f = stuck
