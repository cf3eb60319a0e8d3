-- ===== src/Base/Faults.antt =====
-- Code that may touch memory outside an allocation: `none` is such an access, which C leaves
-- undefined, and `some` is an ordinary return. Chains of it are `do` blocks.
use mathlib.Core.Path.{◌≡◌, refl}
use mathlib.Core.Option.{Option, none, some}

infixl 5 ◌>>=◌ ◌>>◌
abbrev pub ◌>>=◌ {ℓ κ} : {A : Type ℓ} {B : Type κ} → Option A → (A → Option B) → Option B
some a >>= f = f a
none >>= f = none

abbrev pub ◌>>◌ {ℓ κ} : {A : Type ℓ} {B : Type κ} → Option A → Option B → Option B
m >> k = m >>= λ _. k

-- Inversion of a chain that returned.
pub >>=-eq-some {ℓ κ} :
    {A : Type ℓ} {B : Type κ} (m : Option A) (f : A → Option B) {b : B}
    → (m >>= f) ≡ some b
    → (a : A) × (m ≡ some a) × (f a ≡ some b)
>>=-eq-some (some a) f h = (a, refl, h)
>>=-eq-some none f h = cc

-- How a loop on fuel ends: with a value, by an access outside an allocation, or (in the model only) with
-- its fuel used up.
pub data Parsed {ℓ} (A : Type ℓ) : Type ℓ where
  returned : A → Parsed A
  fault : Parsed A
  stuck : Parsed A
