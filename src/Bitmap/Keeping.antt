-- ===== src/Bitmap/Keeping.antt =====
-- What the statements of an order leave as it is, and that they stay in the picture.
use Prim.Native.Nat.{bit_xor}
use app_network_rdesktop.Base.{
  ℕ, zero, suc, ◌+◌, ◌*◌, ◌%◌, ◌≤◌, ◌<◌, ◌≡◌, refl, sym, subst, ◌∙◌, ◌⊎◌, inl, inr, Bool, true,
  false, ltb, ◌==◌, has, List, Option, none, some, arith, get_elem?, Bool-cases, Option-cases,
  not_ltb→le, if◌then◌else◌,
}
use app_network_rdesktop.Bitmap.Endings.{Outcome, value, ◌>>=◌, Ends, Ends-bind, Ends-weaken}
use app_network_rdesktop.Bitmap.Reading.{Run, Inks, reinked, cval, pixel_at, white}
use app_network_rdesktop.Bitmap.Statements.{
  put_pixel, above, fill, mix_pixel, bicolour_pixel, mask_update, fill_or_mix, copy_pixel,
  statement,
}

-- A line that the program owns.
abbrev pub Placed : ℕ → ℕ → Option ℕ → Type 0
Placed width area none = Unit {0}
Placed width area (some l) = l + width ≤ area

-- Lines are in the picture, and so are those that follow; `x` is at the end where there is no line.
pub record Fits (width area : ℕ) (r : Run) : Type 0 where
  pub within : r.x ≤ width
  pub tall : r.height * width ≤ area
  pub here : Placed width area r.line
  pub before : Placed width area r.prevline
  pub started : r.line ≡ none → width ≤ r.x

-- The place and the lines stay; the count does not fall and the input does not go back.
pub record Kept (r r' : Run) : Type 0 where
  pub x : r'.x ≡ r.x
  pub height : r'.height ≡ r.height
  pub line : r'.line ≡ r.line
  pub prevline : r'.prevline ≡ r.prevline
  pub count : r.count ≤ r'.count
  pub i : r.i ≤ r'.i

-- Drawing, reading and the inks change nothing else.
pub Kept-drawn :
    (r : Run) (out : ℕ → ℕ) (inks : Inks) (i count : ℕ)
    → r.i ≤ i
    → r.count ≤ count
    → Kept r (record r { out = out; inks = inks; i = i; count = count })
Kept-drawn r out inks i count h k = record {
  x = refl;
  height = refl;
  line = refl;
  prevline = refl;
  count = k;
  i = h;
}

-- Other inks.
pub Kept-reinked : (r : Run) (inks : Inks) → Kept r (reinked r inks)
Kept-reinked r inks = Kept-drawn r r.out inks r.i r.count (omega arith) (omega arith)

pub Fits-Kept : {width area : ℕ} (r r' : Run) → Kept r r' → Fits width area r → Fits width area r'
Fits-Kept {width} {area} r r' k f = record {
  within = omega (arith, k.x, f.within);
  tall = subst (λ (h : ℕ). h * width ≤ area) (sym k.height) f.tall;
  here = subst (Placed width area) (sym k.line) f.here;
  before = subst (Placed width area) (sym k.prevline) f.before;
  started = λ e. omega (arith, k.x, f.started (sym k.line ∙ e));
}

module _ (input : List ℕ) where
  pub cval-Ends : (F : Type 0) (i : ℕ) → Ends F (λ r. r.1 ≡ i + 1) (cval input i)
  unfolding cval
  cval-Ends F i = elim (Option-cases (get_elem? input i)) [
    | inl e ↦ rw (e, cval) tt
    | inr (b, e) ↦ rw (e, cval) refl
  ]

  pub pixel_at-Ends : (F : Type 0) (bpp i : ℕ) → Ends F (λ r. i ≤ r.1) (pixel_at input bpp i)
  unfolding pixel_at
  pixel_at-Ends F zero i = omega arith
  pixel_at-Ends F (suc n) i =
      Ends-bind F (λ r. r.1 ≡ i + 1) (λ r. i ≤ r.1) (cval input i) _ (cval-Ends F i)
        λ r e.
          Ends-bind F (λ t. r.1 ≤ t.1) (λ t. i ≤ t.1) (pixel_at input n r.1) _
            (pixel_at-Ends F n r.1) λ t h. omega arith

module _ (F : Type 0) (width area : ℕ) where
  -- A run at a place of a line, unless leaving the picture is no matter.
  abbrev pub Inside : Run → Type 0
  Inside r = (Fits width area r × (r.x < width)) ⊎ F

  pub put_pixel-Ends : (v : ℕ) (r : Run) → Inside r → Ends F (Kept r) (put_pixel area v r)
  unfolding put_pixel
  put_pixel-Ends v r inside = elim (Option-cases r.line) [
    | inl e ↦ rw e (elim inside [ inl (f, h) ↦ absurd (omega (arith, f.started e)) | inr k ↦ k ])
    | inr (l, e) ↦ rw e (elim (Bool-cases (ltb (l + r.x) area)) [
      | inl t ↦ rw t (record {
        x = refl;
        height = refl;
        line = refl;
        prevline = refl;
        count = omega arith;
        i = omega arith;
      })
      | inr t ↦ rw t (elim inside [
        | inl (f, h) ↦
            (let here : l + width ≤ area = subst (Placed width area) e f.here in
              absurd (omega (arith, not_ltb→le (l + r.x) area t)))
        | inr k ↦ k
      ])
    ])
  ]

  above-Ends :
      (f : ℕ → ℕ) (without : ℕ) (r : Run)
      → Inside r
      → Ends F (λ v. Unit {0}) (above area f without r)
  unfolding above
  above-Ends f without r inside = elim (Option-cases r.prevline) [
    | inl e ↦ rw e tt
    | inr (p, e) ↦ rw e (elim (Bool-cases (ltb (p + r.x) area)) [
      | inl t ↦ rw t tt
      | inr t ↦ rw t (elim inside [
        | inl (f', h) ↦
            let before : p + width ≤ area = subst (Placed width area) e f'.before in
            absurd (omega (arith, not_ltb→le (p + r.x) area t))
        | inr k ↦ k
      ])
    ])
  ]

  fill-Ends : (r : Run) → Inside r → Ends F (Kept r) (fill area r)
  unfolding fill
  fill-Ends r inside =
      Ends-bind F (λ v. Unit {0}) (Kept r) (above area (λ v. v) 0 r) _
        (above-Ends (λ v. v) 0 r inside) λ v h. put_pixel-Ends v r inside

  pub mix_pixel-Ends : (r : Run) → Inside r → Ends F (Kept r) (mix_pixel area r)
  unfolding mix_pixel
  mix_pixel-Ends r inside =
      Ends-bind F (λ v. Unit {0}) (Kept r) (above area (λ v. bit_xor v r.inks.mix) r.inks.mix r) _
        (above-Ends (λ v. bit_xor v r.inks.mix) r.inks.mix r inside)
        λ v h. put_pixel-Ends v r inside

  -- What holds of a run holds of one that differs in what was drawn, the input and the inks.
  Inside-Kept : (r r' : Run) → Kept r r' → Inside r → Inside r'
  Inside-Kept r r' k inside = elim inside [
    | inl (f, h) ↦ inl (Fits-Kept r r' k f, omega (arith, k.x))
    | inr known ↦ inr known
  ]

  Kept-trans : (r r' r'' : Run) → Kept r r' → Kept r' r'' → Kept r r''
  Kept-trans r r' r'' k l = record {
    x = l.x ∙ k.x;
    height = l.height ∙ k.height;
    line = l.line ∙ k.line;
    prevline = l.prevline ∙ k.prevline;
    count = omega (arith, k.count, l.count);
    i = omega (arith, k.i, l.i);
  }

  Ends-Kept :
      (r : Run) (m : Outcome Run) (f : Run → Outcome Run)
      → Inside r
      → Ends F (Kept r) m
      → ((r' : Run) → Inside r' → Ends F (Kept r') (f r'))
      → Ends F (Kept r) (m >>= f)
  Ends-Kept r m f inside h k = Ends-bind F (Kept r) (Kept r) m f h λ r' kept.
      Ends-weaken F (Kept r') (Kept r) (f r') (k r' (Inside-Kept r r' kept inside))
        λ r'' kept'. Kept-trans r r' r'' kept kept'

  bicolour_pixel-Ends : (r : Run) → Inside r → Ends F (Kept r) (bicolour_pixel area r)
  unfolding bicolour_pixel
  bicolour_pixel-Ends r inside =
      let k = r.inks in
      let light = record r { count = r.count + 1; inks = record k { bicolour = true } } in
      let dark = reinked r (record k { bicolour = false }) in
      elim (Bool-cases k.bicolour) [
        | inl e ↦
            subst
              (λ b.
                Ends F (Kept r)
                  (if b then put_pixel area k.colour2 dark else put_pixel area k.colour1 light))
              (sym e)
              (Ends-Kept r (value dark) (put_pixel area k.colour2) inside
                (Kept-reinked r (record k { bicolour = false })) (put_pixel-Ends k.colour2))
        | inr e ↦
            subst
              (λ b.
                Ends F (Kept r)
                  (if b then put_pixel area k.colour2 dark else put_pixel area k.colour1 light))
              (sym e)
              (Ends-Kept r (value light) (put_pixel area k.colour1) inside
                (Kept-drawn r r.out (record k { bicolour = true }) r.i (r.count + 1) (omega arith)
                  (omega arith))
                (put_pixel-Ends k.colour1))
      ]

  mask_update-Ends : (input : List ℕ) (r : Run) → Ends F (Kept r) (mask_update input r)
  unfolding mask_update
  mask_update-Ends input r = elim (Bool-cases (r.inks.mixmask * 2 % 256 == 0)) [
    | inl e ↦ rw e (elim (Bool-cases (r.inks.fom_mask == 0)) [
      | inl e' ↦ rw e' (
          Ends-bind F (λ t. t.1 ≡ r.i + 1) (Kept r) (cval input r.i) _ (cval-Ends input F r.i)
            λ t h.
              Kept-drawn r r.out (record r.inks { mask = t.0; mixmask = 1 }) t.1 r.count
                (omega arith) (omega arith))
      | inr e' ↦ rw e' (Kept-reinked r (record r.inks { mask = r.inks.fom_mask; mixmask = 1 }))
    ])
    | inr e ↦ rw e (Kept-reinked r (record r.inks { mixmask = r.inks.mixmask * 2 % 256 }))
  ]

  module _ (input : List ℕ) (bpp : ℕ) where
    fill_or_mix-Ends : (r : Run) → Inside r → Ends F (Kept r) (fill_or_mix input area r)
    unfolding fill_or_mix
    fill_or_mix-Ends r inside =
        Ends-Kept r (mask_update input r) _ inside (mask_update-Ends input r) λ r' inside'.
          elim (Bool-cases (has r'.inks.mask r'.inks.mixmask)) [
            | inl e ↦ rw e (mix_pixel-Ends r' inside')
            | inr e ↦ rw e (fill-Ends r' inside')
          ]

    copy_pixel-Ends : (r : Run) → Inside r → Ends F (Kept r) (copy_pixel input area bpp r)
    unfolding copy_pixel
    copy_pixel-Ends r inside =
        Ends-bind F (λ t. r.i ≤ t.1) (Kept r) (pixel_at input bpp r.i) _
          (pixel_at-Ends input F bpp r.i)
          λ t h.
            Ends-Kept r (value (record r { i = t.1 })) (put_pixel area t.0) inside
              (Kept-drawn r r.out r.inks t.1 r.count h (omega arith)) (put_pixel-Ends t.0)

    choice :
        (b : Bool) (first act : Run → Outcome Run) (others : Option (Run → Outcome Run)) (r : Run)
        → Ends F (Kept r) (first r)
        → (others ≡ some act → Ends F (Kept r) (act r))
        → (if b then some first else others) ≡ some act
        → Ends F (Kept r) (act r)
    choice true first act others r h k e =
        let same : first ≡ act = cc in
        subst (λ (a : Run → Outcome Run). Ends F (Kept r) (a r)) same h
    choice false first act others r h k e = k e

    -- Every statement keeps the place, and stays in the picture.
    pub statement-Ends :
        (opcode : ℕ) (act : Run → Outcome Run) (r : Run)
        → statement input area bpp opcode ≡ some act
        → Inside r
        → Ends F (Kept r) (act r)
    unfolding statement
    statement-Ends opcode act r e inside =
        choice (opcode == 0) (fill area) act _ r (fill-Ends r inside)
          (choice (opcode == 1) (mix_pixel area) act _ r (mix_pixel-Ends r inside) (
            choice (opcode == 2) (fill_or_mix input area) act _ r (fill_or_mix-Ends r inside) (
              choice (opcode == 3) (λ r. put_pixel area r.inks.colour2 r) act _ r
                (put_pixel-Ends r.inks.colour2 r inside)
                (choice (opcode == 4) (copy_pixel input area bpp) act _ r (copy_pixel-Ends r inside)
                  (choice (opcode == 8) (bicolour_pixel area) act _ r (bicolour_pixel-Ends r inside)
                    (choice (opcode == 0xd) (put_pixel area (white bpp)) act _ r
                      (put_pixel-Ends (white bpp) r inside)
                      (choice (opcode == 0xe) (put_pixel area 0) act none r
                        (put_pixel-Ends 0 r inside) (λ h. cc))))))))
          e
