-- ===== src/Cache/Order.antt =====
-- The bitmap cache's links as a list, from the least to the most recently used.
use app_network_rdesktop.Base.{
  ℕ, ◌≡◌, ◌≢◌, refl, ap, sym, ◌∙◌, false, List, [], ◌∷◌, ◌++◌, Option, none, some, arith, length,
  All,
}
use app_network_rdesktop.Cache.Bitmaps.{Bmpcache, link, same}

abbrev pub head_of : List ℕ → Option ℕ
head_of [] = none
head_of (x ∷ xs) = some x

abbrev pub last_of : List ℕ → Option ℕ
last_of [] = none
last_of (x ∷ []) = some x
last_of (x ∷ y ∷ ys) = last_of (y ∷ ys)

abbrev pub Absent : ℕ → List ℕ → Type 0
Absent x xs = All (λ z. z ≢ x) xs

abbrev pub Distinct : List ℕ → Type 0
Distinct [] = Unit {0}
Distinct (x ∷ xs) = Absent x xs × Distinct xs

-- Each entry's links are its neighbours in the list, `p` before the first.
abbrev pub Linked : (ℕ → Option ℕ) → (ℕ → Option ℕ) → Option ℕ → List ℕ → Type 0
Linked next previous p [] = Unit {0}
Linked next previous p (x ∷ xs) =
    (previous x ≡ p) × (next x ≡ head_of xs) × Linked next previous (some x) xs

-- The cache's links, ends and count are those of the list.
pub record Listed (c : Bmpcache) (xs : List ℕ) : Type 0 where
  pub first : c.lru ≡ head_of xs
  pub last : c.mru ≡ last_of xs
  pub linked : Linked c.next c.previous none xs
  pub distinct : Distinct xs
  pub counted : c.count ≡ length xs

link_other :
    (table : ℕ → Option ℕ) (i : ℕ) (v : Option ℕ) (j : ℕ) → j ≢ i → link table i v j ≡ table j
link_other table i v j h = ground arith

pub link_here : (table : ℕ → Option ℕ) (i : ℕ) (v : Option ℕ) → link table i v i ≡ v
link_here table i v = ground arith

-- A link of an entry outside the list may change.
pub Linked-outside :
    (next previous : ℕ → Option ℕ) (p : Option ℕ) (xs : List ℕ) (i : ℕ) (u v : Option ℕ)
    → Absent i xs
    → Linked next previous p xs
    → Linked (link next i u) (link previous i v) p xs
Linked-outside next previous p [] i u v a l = tt
Linked-outside next previous p (x ∷ xs) i u v a l = (
  link_other previous i v x a.0 ∙ l.0,
  link_other next i u x a.0 ∙ l.1,
  Linked-outside next previous (some x) xs i u v a.1 l.2,
)

pub Linked-previous :
    (next previous : ℕ → Option ℕ) (p : Option ℕ) (xs : List ℕ) (i : ℕ) (v : Option ℕ)
    → Absent i xs
    → Linked next previous p xs
    → Linked next (link previous i v) p xs
Linked-previous next previous p [] i v a l = tt
Linked-previous next previous p (x ∷ xs) i v a l = (
  link_other previous i v x a.0 ∙ l.0,
  l.1,
  Linked-previous next previous (some x) xs i v a.1 l.2,
)

Absent-last : (x m : ℕ) (xs : List ℕ) → Absent x xs → last_of xs ≡ some m → m ≢ x
Absent-last x m [] a e = absurd (grind arith)
Absent-last x m (y ∷ []) a e = ground arith
Absent-last x m (y ∷ z ∷ zs) a e = Absent-last x m (z ∷ zs) a.1 e

-- A new entry behind the last one, `m`.
pub Linked-append :
    (next previous : ℕ → Option ℕ) (p : Option ℕ) (xs : List ℕ) (m i : ℕ)
    → Absent i xs
    → Distinct xs
    → last_of xs ≡ some m
    → Linked next previous p xs
    → Linked (link (link next i none) m (some i)) (link previous i (some m)) p (xs ++ (i ∷ []))
Linked-append next previous p [] m i a d e l = absurd (grind arith)
Linked-append next previous p (x ∷ []) m i a d e l =
    let xm : x ≡ m = ground arith in
    (
      link_other previous i (some m) x a.0 ∙ l.0,
      ground arith,
      (link_here previous i (some m) ∙ ap some (sym xm), ground arith, tt),
    )
Linked-append next previous p (x ∷ y ∷ ys) m i a d e l =
    let far : x ≢ m = λ k. Absent-last x m (y ∷ ys) d.0 e (sym k) in
    (
      link_other previous i (some m) x a.0 ∙ l.0,
      link_other (link next i none) m (some i) x far ∙ link_other next i none x a.0 ∙ l.1,
      Linked-append next previous (some x) (y ∷ ys) m i a.1 d.1 e l.2,
    )

Absent-append : (x i : ℕ) (xs : List ℕ) → Absent x xs → i ≢ x → Absent x (xs ++ (i ∷ []))
Absent-append x i [] a h = (h, tt)
Absent-append x i (y ∷ ys) a h = (a.0, Absent-append x i ys a.1 h)

pub Distinct-append : (i : ℕ) (xs : List ℕ) → Absent i xs → Distinct xs → Distinct (xs ++ (i ∷ []))
Distinct-append i [] a d = (tt, tt)
Distinct-append i (x ∷ xs) a d =
    (Absent-append x i xs d.0 (λ e. a.0 (sym e)), Distinct-append i xs a.1 d.1)

pub last-append : (i : ℕ) (xs : List ℕ) → last_of (xs ++ (i ∷ [])) ≡ some i
last-append i [] = refl
last-append i (x ∷ []) = refl
last-append i (x ∷ y ∷ ys) = last-append i (y ∷ ys)

pub Absent-last_other : (i : ℕ) (xs : List ℕ) → Absent i xs → same (last_of xs) i ≡ false
Absent-last_other i [] a = refl
Absent-last_other i (x ∷ []) a = ground arith
Absent-last_other i (x ∷ y ∷ ys) a = Absent-last_other i (y ∷ ys) a.1

pub last_cases : (x : ℕ) (xs : List ℕ) → (m : ℕ) × (last_of (x ∷ xs) ≡ some m)
last_cases x [] = (x, refl)
last_cases x (y ∷ ys) = last_cases y ys
