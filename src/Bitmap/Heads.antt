-- ===== src/Bitmap/Heads.antt =====
-- The head of an order: it takes a byte of input at least, and leaves the place in the picture.
use app_network_rdesktop.Base.{
  ℕ, ◌+◌, ◌-◌, ◌/◌, ◌%◌, ◌≤◌, ◌<◌, ◌≡◌, inl, inr, ◌==◌, ltb, leb, ◌||◌, ◌&&◌, List, arith,
  Bool-cases,
}
use app_network_rdesktop.Bitmap.Endings.{Ends, Ends-bind, Ends-weaken}
use app_network_rdesktop.Bitmap.Reading.{
  Run, BitmapOrder, cval, pixel_at, strange_count, long_count, order_form, read_order, preliminary,
}
use app_network_rdesktop.Bitmap.Keeping.{Kept, Kept-drawn, Kept-reinked, cval-Ends, pixel_at-Ends}

module _ (input : List ℕ) where
  strange_count-Ends :
      (opcode count offset i : ℕ)
      → Ends ⊥ (λ o. i ≤ o.i) (strange_count input opcode count offset i)
  unfolding strange_count
  strange_count-Ends opcode count offset i = elim (Bool-cases (count == 0)) [
    | inl e ↦ rw e (
        Ends-bind ⊥ (λ t. t.1 ≡ i + 1) (λ o. i ≤ o.i) (cval input i) _ (cval-Ends input ⊥ i)
          λ t h. omega arith)
    | inr e ↦ rw e (omega arith)
  ]

  long_count-Ends : (opcode i : ℕ) → Ends ⊥ (λ o. i ≤ o.i) (long_count input opcode i)
  unfolding long_count
  long_count-Ends opcode i =
      Ends-bind ⊥ (λ t. t.1 ≡ i + 1) (λ o. i ≤ o.i) (cval input i) _ (cval-Ends input ⊥ i)
        λ t h.
          Ends-bind ⊥ (λ u. u.1 ≡ t.1 + 1) (λ o. i ≤ o.i) (cval input t.1) _ (cval-Ends input ⊥ t.1)
            λ u k. omega arith

  order_form-Ends : (code i : ℕ) → Ends ⊥ (λ o. i ≤ o.i) (order_form input code i)
  unfolding order_form
  order_form-Ends code i = elim (Bool-cases (leb 0xc (code / 16) && leb (code / 16) 0xe)) [
    | inl e ↦ rw e (strange_count-Ends (code / 16 - 6) (code % 16) 16 i)
    | inr e ↦ rw e (elim (Bool-cases (code / 16 == 0xf)) [
      | inl e' ↦ rw e' (elim (Bool-cases (ltb (code % 16) 9)) [
        | inl e'' ↦ rw e'' (long_count-Ends (code % 16) i)
        | inr e'' ↦ rw e'' (omega arith)
      ])
      | inr e' ↦ rw e' (strange_count-Ends (code / 16 / 2) (code % 32) 32 i)
    ])
  ]

  pub read_order-Ends : (i : ℕ) → Ends ⊥ (λ o. i < o.i) (read_order input i)
  unfolding read_order
  read_order-Ends i =
      Ends-bind ⊥ (λ t. t.1 ≡ i + 1) (λ o. i < o.i) (cval input i) _ (cval-Ends input ⊥ i)
        λ t h.
          Ends-weaken ⊥ (λ o. t.1 ≤ o.i) (λ o. i < o.i) (order_form input t.0 t.1)
            (order_form-Ends t.0 t.1) λ o k. omega arith

  pub preliminary-Ends :
      (bpp width : ℕ) (o : BitmapOrder) (r : Run)
      → Ends ⊥ (λ t. Kept r t.1) (preliminary input bpp width o r)
  unfolding preliminary
  preliminary-Ends bpp width o r =
      let k = r.inks in
      elim (Bool-cases (o.opcode == 0)) [
        | inl e ↦ rw e (Kept-reinked r _)
        | inr e0 ↦ rw e0 (elim (Bool-cases (o.opcode == 8)) [
          | inl e ↦ rw e (
              Ends-bind ⊥ (λ t. r.i ≤ t.1) (λ t. Kept r t.1) (pixel_at input bpp r.i) _
                (pixel_at-Ends input ⊥ bpp r.i)
                λ t h.
                  Ends-bind ⊥ (λ u. t.1 ≤ u.1) (λ u. Kept r u.1) (pixel_at input bpp t.1) _
                    (pixel_at-Ends input ⊥ bpp t.1)
                    λ u h'.
                      Kept-drawn r r.out (record k { colour1 = t.0; colour2 = u.0 }) u.1 r.count
                        (omega arith) (omega arith))
          | inr e8 ↦ rw e8 (elim (Bool-cases (o.opcode == 3)) [
            | inl e ↦ rw e (
                Ends-bind ⊥ (λ t. r.i ≤ t.1) (λ t. Kept r t.1) (pixel_at input bpp r.i) _
                  (pixel_at-Ends input ⊥ bpp r.i)
                  λ t h.
                    Kept-drawn r r.out (record k { colour2 = t.0 }) t.1 r.count h (omega arith))
            | inr e3 ↦ rw e3 (elim (Bool-cases (o.opcode == 6 || o.opcode == 7)) [
              | inl e ↦ rw e (
                  Ends-bind ⊥ (λ t. r.i ≤ t.1) (λ t. Kept r t.1) (pixel_at input bpp r.i) _
                    (pixel_at-Ends input ⊥ bpp r.i)
                    λ t h. Kept-drawn r r.out (record k { mix = t.0 }) t.1 r.count h (omega arith))
              | inr e6 ↦ rw e6 (elim (Bool-cases (o.opcode == 9)) [
                | inl e ↦ rw e (Kept-reinked r _)
                | inr e9 ↦ rw e9 (elim (Bool-cases (o.opcode == 0x0a)) [
                  | inl e ↦ rw e (Kept-reinked r _)
                  | inr ea ↦ rw ea (Kept-reinked r k)
                ])
              ])
            ])
          ])
        ])
      ]
