-- ===== src/Base/Memory.antt =====
-- Memory as a function from addresses to bytes: reading a range of it, and agreeing on one.
use Prim.Native.Nat.{ℕ, zero, suc, ◌+◌, ◌<◌}
use mathlib.Core.Path.{◌≡◌, refl, ap, ◌∙◌}
use mathlib.Core.List.{List, [], ◌∷◌, ◌++◌}
use native.Mathlib.Omega.{arith}
use mathlib.Core.Bool.{true, false}
use app_network_rdesktop.Base.Tests.{◌==◌, if◌then◌else◌}
use app_network_rdesktop.Base.Lists.{length}

-- `n` bytes from `at`.
abbrev pub window : (ℕ → ℕ) → ℕ → ℕ → List ℕ
window from at zero = []
window from at (suc n) = from at ∷ window from (at + 1) n

-- `memcpy(&to[at], bytes, ...)`.
abbrev pub paste : (ℕ → ℕ) → ℕ → List ℕ → ℕ → ℕ
paste to at [] = to
paste to at (b ∷ bytes) = paste (λ j. if j == at then b else to j) (at + 1) bytes

pub paste_below :
    (to : ℕ → ℕ) (at : ℕ) (bytes : List ℕ) (j : ℕ) → j < at → paste to at bytes j ≡ to j
paste_below to at [] j h = refl
paste_below to at (b ∷ bytes) j h =
    let e : (j == at) ≡ false = ground arith in
    paste_below (λ j. if j == at then b else to j) (at + 1) bytes j (omega arith) ∙ rw e refl

pub window_agree :
    (f g : ℕ → ℕ) (at n : ℕ) → ((j : ℕ) → j < at + n → f j ≡ g j) → window f at n ≡ window g at n
window_agree f g at zero h = refl
window_agree f g at (suc n) h =
    rw (h at (omega arith), window_agree f g (at + 1) n (λ j k. h j (omega arith))) refl

pub window-add :
    (f : ℕ → ℕ) (at a b : ℕ) → window f at (a + b) ≡ window f at a ++ window f (at + a) b
window-add f at zero b =
    ap (window f at) (let e : 0 + b ≡ b = omega arith in e)
    ∙ ap (λ i. window f i b) (let e : at ≡ at + 0 = omega arith in e)
window-add f at (suc a) b =
    ap (window f at) (let e : suc a + b ≡ suc (a + b) = omega arith in e)
    ∙ ap (λ xs. f at ∷ xs) (window-add f (at + 1) a b)
    ∙ ap (λ i. f at ∷ window f (at + 1) a ++ window f i b)
        (let e : at + 1 + a ≡ at + suc a = omega arith in e)

pub window-paste :
    (to : ℕ → ℕ) (at : ℕ) (bytes : List ℕ) → window (paste to at bytes) at (length bytes) ≡ bytes
window-paste to at [] = refl
window-paste to at (b ∷ bytes) =
    let e : (at == at) ≡ true = ground arith in
    rw
      (
        paste_below (λ j. if j == at then b else to j) (at + 1) bytes at (omega arith),
        e,
        window-paste (λ j. if j == at then b else to j) (at + 1) bytes,
      )
      refl
