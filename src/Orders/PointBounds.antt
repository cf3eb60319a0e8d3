-- ===== src/Orders/PointBounds.antt =====
-- Reading the points of an order: how many come, and how much data keeps the reading inside it.
use app_network_rdesktop.Base.{
  get_elem?-lt, ℕ, zero, suc, ◌+◌, ◌-◌, ◌*◌, ◌/◌, ◌%◌, ◌≤◌, ◌<◌, ◌≡◌, refl, Bool, true, false, has,
  ltb, ◌==◌, List, ◌∷◌, Option, none, some, ◌>>=◌, length, get_elem?, arith, Bool-cases, ltb→lt,
  inl, inr,
}
use app_network_rdesktop.Orders.Points.{
  parse_delta, point_delta, point_flags, read_points, order_points,
}

-- Nothing, or `n` points.
abbrev pub Counted : ℕ → Option (List (ℕ × ℕ)) → Type 0
Counted n none = Unit {0}
Counted n (some points) = length points ≡ n

-- A value with P, and no fault.
abbrev pub Within : {A : Type 0} → (A → Type 0) → Option A → Type 0
Within P (some a) = P a
Within P none = ⊥

Within-bind :
    {A B : Type 0} (P : A → Type 0) (Q : B → Type 0) (m : Option A) (f : A → Option B)
    → Within P m
    → ((a : A) → P a → Within Q (f a))
    → Within Q (m >>= f)
Within-bind P Q (some a) f h k = k a h
Within-bind P Q none f h k = absurd h

get_elem?-Within : (xs : List ℕ) (i : ℕ) → i < length xs → Within (λ _. Unit {0}) (get_elem? xs i)
get_elem?-Within xs i h = let (x, got) = get_elem?-lt xs i h in rw got tt

module _ (buffer : List ℕ) (full : length buffer ≡ 256) where
  parse_delta-Within :
      (offset : ℕ) → offset + 2 ≤ 256 → Within (λ r. r.1 ≤ offset + 2) (parse_delta buffer offset)
  unfolding parse_delta
  parse_delta-Within offset h =
      Within-bind (λ _. Unit {0}) (λ r. r.1 ≤ offset + 2) (get_elem? buffer offset) _
        (get_elem?-Within buffer offset (omega arith))
        λ value _. elim (Bool-cases (has value 0x80)) [
          | inl e ↦ rw e (
              Within-bind (λ _. Unit {0}) (λ r. r.1 ≤ offset + 2) (get_elem? buffer (offset + 1)) _
                (get_elem?-Within buffer (offset + 1) (omega arith)) (λ low _. omega arith))
          | inr e ↦ rw e (omega arith)
        ]

  point_delta-Within :
      (left_out : Bool) (offset : ℕ)
      → offset + 2 ≤ 256
      → Within (λ r. r.1 ≤ offset + 2) (point_delta left_out buffer offset)
  unfolding point_delta
  point_delta-Within true offset h = omega arith
  point_delta-Within false offset h = parse_delta-Within offset h

  point_flags-Within :
      (next index flags : ℕ)
      → index < 256
      → Within (λ r. r.1 ≤ index + 1) (point_flags buffer next index flags)
  unfolding point_flags
  point_flags-Within next index flags h = elim (Bool-cases ((next - 1) % 4 == 0)) [
    | inl e ↦
        rw (e, point_flags)
          (Within-bind (λ _. Unit {0}) (λ r. r.1 ≤ index + 1) (get_elem? buffer index) _
            (get_elem?-Within buffer index (omega arith)) (λ f _. omega arith))
    | inr e ↦ rw (e, point_flags) (omega arith)
  ]

  read_points-Within :
      (left datasize next index data' flags : ℕ)
      → datasize ≤ 253
      → index + left ≤ 256
      → Within (Counted left) (read_points left buffer datasize next index data' flags)
  unfolding read_points
  read_points-Within zero datasize next index data' flags d i = refl
  read_points-Within (suc left) datasize next index data' flags d i =
      elim (Bool-cases (ltb data' datasize)) [
        | inr e ↦ rw (e, read_points) tt
        | inl e ↦
            rw (e, read_points)
              (Within-bind _ (Counted (suc left)) (point_flags buffer next index flags) _
                (point_flags-Within next index flags (omega arith))
                λ f h1.
                  Within-bind _ (Counted (suc left)) (point_delta (has f.0 0x80) buffer data') _
                    (point_delta-Within (has f.0 0x80) data'
                      (omega (arith, ltb→lt data' datasize e)))
                    λ x h2.
                      Within-bind _ (Counted (suc left)) (point_delta (has f.0 0x40) buffer x.1) _
                        (point_delta-Within (has f.0 0x40) x.1
                          (omega (arith, ltb→lt data' datasize e)))
                        λ y h3.
                          Within-bind (Counted left) (Counted (suc left))
                            (read_points left buffer datasize (next + 1) f.1 y.1 (f.0 * 4 % 256)) _
                            (read_points-Within left datasize (next + 1) f.1 y.1 (f.0 * 4 % 256) d
                              (omega arith))
                            (λ rest h4. counted x.0 y.0 rest h4))
      ]
    where
      counted :
          (x y : ℕ) (rest : Option (List (ℕ × ℕ)))
          → Counted left rest
          → Counted (suc left) (elim rest [ none ↦ none | some points ↦ some ((x, y) ∷ points) ])
      counted x y none h = tt
      counted x y (some points) h = omega (arith, h)

  -- An order with at most 255 points and at most 253 bytes of data, in the array of 256 bytes, is read
  -- without an access outside that array: its points do not parse, or they are the order's own and as
  -- many as it says.
  pub order_points-Within :
      (x y npoints datasize : ℕ)
      → npoints ≤ 255
      → datasize ≤ 253
      → Within (Counted (npoints + 1)) (order_points x y npoints buffer datasize)
  unfolding order_points
  order_points-Within x y npoints datasize n d =
      Within-bind (Counted npoints) (Counted (npoints + 1))
        (read_points npoints buffer datasize 1 0 ((npoints - 1) / 4 + 1) 0) _
        (read_points-Within npoints datasize 1 0 ((npoints - 1) / 4 + 1) 0 d (omega arith))
        (λ rest h. counted rest h)
    where
      counted :
          (rest : Option (List (ℕ × ℕ)))
          → Counted npoints rest
          → Counted (npoints + 1) (elim rest [ none ↦ none | some points ↦ some ((x, y) ∷ points) ])
      counted none h = tt
      counted (some points) h = omega (arith, h)
