-- ===== src/Bitmap/Endings.antt =====
-- How a piece of bitmap.c ends: with a value, by `return False`, by a read behind the input's memory, by
-- an access outside the picture, or (in the model only) with its fuel used up.
use mathlib.Core.Path.{◌≡◌, refl}
use mathlib.Core.Bool.{Bool, true, false}
use app_network_rdesktop.Base.{if◌then◌else◌}

pub data Outcome {ℓ} (A : Type ℓ) : Type ℓ where
  value : A → Outcome A
  failed : Outcome A
  over_read : Outcome A
  outside : Outcome A
  stuck : Outcome A

infixl 5 ◌>>=◌
abbrev pub ◌>>=◌ {ℓ κ} : {A : Type ℓ} {B : Type κ} → Outcome A → (A → Outcome B) → Outcome B
value a >>= f = f a
failed >>= f = failed
over_read >>= f = over_read
outside >>= f = outside
stuck >>= f = stuck

-- A value has the property, the fuel does not run out, and `F` is what is known where the picture is left.
abbrev pub Ends {ℓ} : {A : Type ℓ} → Type 0 → (A → Type 0) → Outcome A → Type 0
Ends F P (value a) = P a
Ends F P failed = Unit {0}
Ends F P over_read = Unit {0}
Ends F P outside = F
Ends F P stuck = ⊥

pub Ends-bind {ℓ κ} :
    {A : Type ℓ} {B : Type κ} (F : Type 0) (P : A → Type 0) (Q : B → Type 0) (m : Outcome A)
    (f : A → Outcome B)
    → Ends F P m
    → ((a : A) → P a → Ends F Q (f a))
    → Ends F Q (m >>= f)
Ends-bind F P Q (value a) f h k = k a h
Ends-bind F P Q failed f h k = tt
Ends-bind F P Q over_read f h k = tt
Ends-bind F P Q outside f h k = h
Ends-bind F P Q stuck f h k = absurd h

pub Ends-weaken {ℓ} :
    {A : Type ℓ} (F : Type 0) (P Q : A → Type 0) (m : Outcome A)
    → Ends F P m
    → ((a : A) → P a → Q a)
    → Ends F Q m
Ends-weaken F P Q (value a) h k = k a h
Ends-weaken F P Q failed h k = tt
Ends-weaken F P Q over_read h k = tt
Ends-weaken F P Q outside h k = h
Ends-weaken F P Q stuck h k = h

-- What follows is the same if it is so for the values that come.
pub bind_agree {ℓ κ} :
    {A : Type ℓ} {B : Type κ} (F : Type 0) (P : A → Type 0) (m : Outcome A) (f g : A → Outcome B)
    → Ends F P m
    → ((a : A) → P a → f a ≡ g a)
    → (m >>= f) ≡ (m >>= g)
bind_agree F P (value a) f g h k = k a h
bind_agree F P failed f g h k = refl
bind_agree F P over_read f g h k = refl
bind_agree F P outside f g h k = refl
bind_agree F P stuck f g h k = refl

pub bind_assoc {ℓ κ μ} :
    {A : Type ℓ} {B : Type κ} {C : Type μ} (m : Outcome A) (f : A → Outcome B) (g : B → Outcome C)
    → ((m >>= f) >>= g) ≡ (m >>= λ a. f a >>= g)
bind_assoc (value a) f g = refl
bind_assoc failed f g = refl
bind_assoc over_read f g = refl
bind_assoc outside f g = refl
bind_assoc stuck f g = refl

pub Ends-if {ℓ} :
    {A : Type ℓ} (F : Type 0) (P : A → Type 0) (b : Bool) (x y : Outcome A)
    → (b ≡ true → Ends F P x)
    → (b ≡ false → Ends F P y)
    → Ends F P (if b then x else y)
Ends-if F P true x y h k = h refl
Ends-if F P false x y h k = k refl
