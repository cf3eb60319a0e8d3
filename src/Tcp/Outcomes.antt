-- ===== src/Tcp/Outcomes.antt =====
-- What holds of every value that a chain of calls returns.
use app_network_rdesktop.Tcp.State.{Reply, done, refused, waiting, fault, ◌>>=◌}

-- What is returned, if something is, has a property.
abbrev pub Returns {ℓ} : {A : Type ℓ} → (A → Type 0) → Reply A → Type 0
Returns P (done a) = P a
Returns P (refused t) = Unit {0}
Returns P waiting = Unit {0}
Returns P fault = Unit {0}

pub >>=-Returns {ℓ κ} :
    {A : Type ℓ} {B : Type κ} (Q : A → Type 0) (P : B → Type 0) (m : Reply A) (f : A → Reply B)
    → Returns Q m
    → ((a : A) → Q a → Returns P (f a))
    → Returns P (m >>= f)
>>=-Returns Q P (done a) f q h = h a q
>>=-Returns Q P (refused t) f q h = tt
>>=-Returns Q P waiting f q h = tt
>>=-Returns Q P fault f q h = tt

-- The same, whatever the first call returns.
pub >>=-Returns_any {ℓ κ} :
    {A : Type ℓ} {B : Type κ} (P : B → Type 0) (m : Reply A) (f : A → Reply B)
    → ((a : A) → Returns P (f a))
    → Returns P (m >>= f)
>>=-Returns_any P (done a) f h = h a
>>=-Returns_any P (refused t) f h = tt
>>=-Returns_any P waiting f h = tt
>>=-Returns_any P fault f h = tt

pub Returns-map {ℓ} :
    {A : Type ℓ} (P Q : A → Type 0) (m : Reply A)
    → ((a : A) → P a → Q a)
    → Returns P m
    → Returns Q m
Returns-map P Q (done a) f h = f a h
Returns-map P Q (refused t) f h = tt
Returns-map P Q waiting f h = tt
Returns-map P Q fault f h = tt
