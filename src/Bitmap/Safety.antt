-- ===== src/Bitmap/Safety.antt =====
-- The decompression of 1, 2 and 3 bytes per pixel ends and stays in the picture, whatever the input is.
use app_network_rdesktop.Base.{
  ℕ, zero, suc, ◌+◌, ◌-◌, ◌*◌, ◌≤◌, ◌<◌, ◌≡◌, ◌≢◌, refl, ◌∙◌, ◌⊎◌, inl, inr, false, ltb, leb, ◌==◌,
  ◌&&◌, List, some, arith, Bool-cases, Option-cases, ltb→lt, not_ltb→le, not_leb→lt, not_eqb→ne,
}
use app_network_rdesktop.Bitmap.Endings.{
  Outcome, value, failed, ◌>>=◌, Ends, Ends-bind, Ends-weaken, Ends-if,
}
use app_network_rdesktop.Bitmap.Reading.{Run, reinked, Inks, read_order, preliminary}
use app_network_rdesktop.Bitmap.Statements.{statement, mix_pixel}
use app_network_rdesktop.Bitmap.Keeping.{
  Fits, Kept, Fits-Kept, Kept-reinked, statement-Ends, mix_pixel-Ends,
}
use app_network_rdesktop.Bitmap.Unrolling.{repeat_lem}
use app_network_rdesktop.Bitmap.Heads.{read_order-Ends, preliminary-Ends}
use app_network_rdesktop.Bitmap.{
  draw_pixel, repeat_ones, repeat, next_line, insert_mix, strokes, output_body, draw_order,
  draw_orders, opening, bitmap_decompress_pixels,
}

line_fits : (h w a : ℕ) → h * w ≤ a → h ≢ 0 → ((h - 1) * w + w ≤ a) × ((h - 1) * w ≤ a)
line_fits zero w a k n = absurd (n refl)
line_fits (suc h) w a k n = let e : suc h - 1 ≡ h = omega arith in rw e (grind arith)

module _ (width area : ℕ) where
  -- The run is still in the picture, on the same line, and not back in the input.
  record Onward (r r' : Run) : Type 0 where
    fits : Fits width area r'
    height : r'.height ≡ r.height
    i : r.i ≤ r'.i

  -- A pixel further.
  onward :
      (r r' : Run) (count : ℕ) (inks : Inks)
      → Fits width area r
      → r.x < width
      → Kept r r'
      → Onward r (record r' { count = count; x = r'.x + 1; inks = inks })
  onward r r' count inks f h k =
      let f' = Fits-Kept r r' k f in
      record {
        fits = record {
          within = omega (arith, k.x);
          tall = f'.tall;
          here = f'.here;
          before = f'.before;
          started = λ e. omega (arith, k.x, f'.started e);
        };
        height = k.height;
        i = k.i;
      }

  draw_pixel-Onward :
      (act : Run → Outcome Run) (r : Run)
      → ((r : Run) → Fits width area r → r.x < width → Ends ⊥ (Kept r) (act r))
      → Fits width area r
      → r.x < width
      → Ends ⊥ (λ r'. Onward r r' × (r'.x ≡ r.x + 1)) (draw_pixel act r)
  unfolding draw_pixel
  draw_pixel-Onward act r acts f h =
      Ends-bind ⊥ (Kept r) (λ r'. Onward r r' × (r'.x ≡ r.x + 1)) (act r) _ (acts r f h)
        λ r' k. (onward r r' (r'.count - 1) r'.inks f h k, omega (arith, k.x))

  Onward-trans : (r r' r'' : Run) → Onward r r' → Onward r' r'' → Onward r r''
  Onward-trans r r' r'' k l = record {
    fits = l.fits;
    height = l.height ∙ k.height;
    i = omega (arith, k.i, l.i);
  }

  Onward-refl : (r : Run) → Fits width area r → Onward r r
  Onward-refl r f = record { fits = f; height = refl; i = omega arith }

  -- Nothing is left to draw, or the line is full.
  abbrev Ended : Run → Type 0
  Ended r = (r.count ≡ 0) ⊎ (width ≤ r.x)

  repeat_ones-Onward :
      (fuel : ℕ) (act : Run → Outcome Run) (r : Run)
      → ((r : Run) → Fits width area r → r.x < width → Ends ⊥ (Kept r) (act r))
      → Fits width area r
      → width - r.x < fuel
      → Ends ⊥ (λ r'. Onward r r' × Ended r') (repeat_ones width fuel act r)
  unfolding repeat_ones
  repeat_ones-Onward zero act r acts f h = absurd (omega arith)
  repeat_ones-Onward (suc fuel) act r acts f h =
      elim (Bool-cases (ltb 0 r.count && ltb r.x width)) [
        | inl e ↦
            let below : r.x < width = ground (arith, e) in
            rw e (
              Ends-bind ⊥ (λ r'. Onward r r' × (r'.x ≡ r.x + 1)) (λ r'. Onward r r' × Ended r')
                (draw_pixel act r) (repeat_ones width fuel act)
                (draw_pixel-Onward act r acts f below)
                λ r' k.
                  Ends-weaken ⊥ (λ r''. Onward r' r'' × Ended r'') (λ r''. Onward r r'' × Ended r'')
                    (repeat_ones width fuel act r')
                    (repeat_ones-Onward fuel act r' acts k.0.fits (omega (arith, k.1)))
                    λ r'' l. (Onward-trans r r' r'' k.0 l.0, l.1))
        | inr e ↦ rw e (Onward-refl r f, ended r e)
      ]
    where
      ended : (r : Run) → (ltb 0 r.count && ltb r.x width) ≡ false → Ended r
      ended r e = elim (Bool-cases (ltb 0 r.count)) [
        | inl c ↦ inr (let full : width ≤ r.x = ground (arith, e, c) in full)
        | inr c ↦ inl (omega (arith, not_ltb→le 0 r.count c))
      ]

  insert_mix-Onward :
      (r : Run) → Fits width area r → r.x < width → Ends ⊥ (Onward r) (insert_mix area r)
  unfolding insert_mix
  insert_mix-Onward r f h =
      Ends-if ⊥ (Onward r) r.inks.insertmix _ (value r)
        (λ e.
          Ends-bind ⊥ (Kept r) (Onward r) (mix_pixel area r) _
            (mix_pixel-Ends ⊥ width area r (inl (f, h)))
            λ r' k. onward r r' (r'.count - 1) (record r'.inks { insertmix = false }) f h k)
        (λ e. Onward-refl r f)

  module _ (input : List ℕ) (bpp : ℕ) where
    repeat-Onward :
        (opcode : ℕ) (act : Run → Outcome Run) (r : Run)
        → statement input area bpp opcode ≡ some act
        → Fits width area r
        → Ends ⊥ (λ r'. Onward r r' × Ended r') (repeat width act r)
    repeat-Onward opcode act r e f = rw (repeat_lem input area bpp width opcode act r e) (
        repeat_ones-Onward (suc (width - r.x)) act r
          (λ r' f' h. statement-Ends ⊥ width area input bpp opcode act r' e (inl (f', h))) f
          (omega arith))

    strokes-Onward :
        (opcode : ℕ) (r : Run)
        → Fits width area r
        → r.x < width
        → Ends ⊥ (λ r'. Onward r r' × Ended r') (strokes input bpp width area opcode r)
    unfolding strokes
    strokes-Onward opcode r f h = elim (Option-cases (statement input area bpp opcode)) [
      | inl nothing ↦ rw (nothing, strokes) tt
      | inr (act, e) ↦
          rw (e, strokes)
            (elim (Bool-cases (opcode == 0)) [
              | inl z ↦ rw z (
                  Ends-bind ⊥ (Onward r) (λ r'. Onward r r' × Ended r') (insert_mix area r)
                    (repeat width act) (insert_mix-Onward r f h)
                    λ r' k.
                      Ends-weaken ⊥ (λ r''. Onward r' r'' × Ended r'')
                        (λ r''. Onward r r'' × Ended r'') (repeat width act r')
                        (repeat-Onward opcode act r' e k.fits)
                        λ r'' l. (Onward-trans r r' r'' k l.0, l.1))
              | inr z ↦ rw z (repeat-Onward opcode act r e f)
            ])
    ]

  -- What next_line gives: a place in a line, at the price of a line if the last one was full.
  record Lined (r r' : Run) : Type 0 where
    fits : Fits width area r'
    space : r'.x < width
    i : r'.i ≡ r.i
    lines : (r'.height ≡ r.height) ⊎ (r'.height + 1 ≡ r.height)
    full : width ≤ r.x → r'.height + 1 ≡ r.height

  next_line-Lined : 0 < width → (r : Run) → Fits width area r → Ends ⊥ (Lined r) (next_line width r)
  unfolding next_line
  next_line-Lined positive r f =
      Ends-if ⊥ (Lined r) (leb width r.x) _ (value r)
        (λ e.
          Ends-if ⊥ (Lined r) (r.height == 0) failed _ (λ z. tt)
            λ z.
              let some_left : r.height ≢ 0 = not_eqb→ne r.height 0 z in
              let (owned, tall) = line_fits r.height width area f.tall some_left in
              let less : r.height - 1 + 1 ≡ r.height = ground (arith, some_left) in
              record {
                fits = record {
                  within = omega arith;
                  tall = tall;
                  here = owned;
                  before = f.here;
                  started = λ nothing. cc;
                };
                space = positive;
                i = refl;
                lines = inr less;
                full = λ h. less;
              })
        (λ e. record {
          fits = f;
          space = not_leb→lt width r.x e;
          i = refl;
          lines = inl refl;
          full = λ h. absurd (omega (arith, not_leb→lt width r.x e));
        })

  -- The fuel that is enough: a draw_pixel when nothing is left, or one for each line to come and one more.
  abbrev Enough : ℕ → Run → Type 0
  Enough fuel r =
      ((r.count ≡ 0) × (0 < fuel)) ⊎ (((width ≤ r.x) × (r.height < fuel)) ⊎ (r.height + 1 < fuel))

  abbrev Later : Run → Run → Type 0
  Later r r' = Fits width area r' × (r.i ≤ r'.i)

  Enough-Lined :
      (fuel : ℕ) (r s t : Run)
      → Lined r s
      → Onward s t
      → Ended t
      → Enough (suc fuel) r
      → r.count ≢ 0
      → Enough fuel t
  Enough-Lined fuel r s t l k (inl none_left) enough n = elim enough [
    | inl (z, h) ↦ absurd (n z)
    | inr (inl (w, h)) ↦ inl (none_left, omega (arith, l.full w))
    | inr (inr h) ↦ inl (none_left, omega arith)
  ]
  Enough-Lined fuel r s t l k (inr full) enough n = elim enough [
    | inl (z, h) ↦ absurd (n z)
    | inr (inl (w, h)) ↦ inr (inl (full, omega (arith, l.full w, k.height)))
    | inr (inr h) ↦ inr (inl (full, omega (arith, l.lines, k.height)))
  ]

  module _ (input : List ℕ) (bpp : ℕ) (positive : 0 < width) where
    output_body-Later :
        (fuel opcode : ℕ) (r : Run)
        → Fits width area r
        → Enough fuel r
        → Ends ⊥ (Later r) (output_body input bpp width area fuel opcode r)
    unfolding output_body
    output_body-Later zero opcode r f enough = absurd (omega arith)
    output_body-Later (suc fuel) opcode r f enough =
        Ends-if ⊥ (Later r) (r.count == 0) (value r) _ (λ e. (f, omega arith))
          λ e.
            Ends-bind ⊥ (λ t. Later r t × Enough fuel t) (Later r)
              (next_line width r >>= strokes input bpp width area opcode) _
              (Ends-bind ⊥ (Lined r) (λ t. Later r t × Enough fuel t) (next_line width r) _
                (next_line-Lined positive r f)
                λ s l.
                  Ends-weaken ⊥ (λ t. Onward s t × Ended t) (λ t. Later r t × Enough fuel t)
                    (strokes input bpp width area opcode s)
                    (strokes-Onward input bpp opcode s l.fits l.space)
                    λ t k. (
                      (k.0.fits, omega (arith, l.i, k.0.i)),
                      Enough-Lined fuel r s t l k.0 k.1 enough (not_eqb→ne r.count 0 e),
                    ))
              λ t k.
                Ends-weaken ⊥ (Later t) (Later r) (output_body input bpp width area fuel opcode t)
                  (output_body-Later fuel opcode t k.0.0 k.1)
                  λ u l. (l.0, omega (arith, k.0.1, l.1))

    draw_order-Later :
        (r : Run)
        → Fits width area r
        → Ends ⊥ (λ t. Fits width area t × (r.i < t.i)) (draw_order input bpp width area r)
    unfolding draw_order
    draw_order-Later r f =
        Ends-bind ⊥ (λ o. r.i < o.i) (λ t. Fits width area t × (r.i < t.i)) (read_order input r.i) _
          (read_order-Ends input r.i)
          λ o h.
            let begun : Run = record r {
              i = o.i;
              count = o.count;
              inks = record r.inks { fom_mask = 0 };
            } in
            Ends-bind ⊥ (λ u. Kept begun u.1) (λ t. Fits width area t × (r.i < t.i))
              (preliminary input bpp width o begun) _ (preliminary-Ends input bpp width o begun)
              λ u k.
                let inks = record u.1.inks { lastopcode = some u.0; mixmask = 0 } in
                let drawn : Run = reinked u.1 inks in
                let f' : Fits width area begun = record {
                  within = f.within;
                  tall = f.tall;
                  here = f.here;
                  before = f.before;
                  started = f.started;
                } in
                let f'' = Fits-Kept u.1 drawn (Kept-reinked u.1 inks) (Fits-Kept begun u.1 k f') in
                Ends-weaken ⊥ (Later drawn) (λ t. Fits width area t × (r.i < t.i))
                  (output_body input bpp width area (suc (suc drawn.height)) u.0 drawn)
                  (output_body-Later (suc (suc drawn.height)) u.0 drawn f''
                    (inr (inr (omega arith))))
                  λ t l. (l.0, omega (arith, h, k.i, l.1))

    draw_orders-Ends :
        (size fuel : ℕ) (r : Run)
        → Fits width area r
        → size - r.i < fuel
        → Ends ⊥ (λ out. Unit {0}) (draw_orders input bpp width area size fuel r)
    unfolding draw_orders
    draw_orders-Ends size zero r f h = absurd (omega arith)
    draw_orders-Ends size (suc fuel) r f h =
        Ends-if ⊥ (λ out. Unit {0}) (ltb r.i size) _ (value r.out)
          (λ e.
            Ends-bind ⊥ (λ t. Fits width area t × (r.i < t.i)) (λ out. Unit {0})
              (draw_order input bpp width area r) _ (draw_order-Later r f)
              λ t k. draw_orders-Ends size fuel t k.0 (omega (arith, k.1, ltb→lt r.i size e)))
          (λ e. tt)

-- A bitmap of at least a pixel in width, decompressed into memory of width * height pixels: whatever the
-- input is and wherever its memory ends, the decompression ends, and it never reads or writes a pixel
-- outside that memory. It returns True with a picture, returns False, or reads behind its input.
pub bitmap_decompress_pixels-Ends :
    (bpp width height size : ℕ) (output : ℕ → ℕ) (input : List ℕ)
    → 0 < width
    → Ends ⊥ (λ out. Unit {0}) (bitmap_decompress_pixels bpp output width height input size)
unfolding bitmap_decompress_pixels
bitmap_decompress_pixels-Ends bpp width height size output input positive =
    draw_orders-Ends width (width * height) input bpp positive size (suc size)
      (opening bpp width height output)
      (record {
        within = omega arith;
        tall = grind arith;
        here = tt;
        before = tt;
        started = λ e. omega arith;
      })
      (omega arith)
