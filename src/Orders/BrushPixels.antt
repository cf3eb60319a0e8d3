-- ===== src/Orders/BrushPixels.antt =====
-- The pixels of a compressed brush.
use app_network_rdesktop.Base.{
  ℕ, zero, suc, ◌+◌, ◌-◌, ◌*◌, ◌/◌, ◌%◌, ◌^◌, ◌≤◌, ◌<◌, ◌≡◌, refl, sym, ap, ◌∙◌, ◌⊎◌, inl, inr,
  true, false, ◌==◌, [], ◌++◌, Option, ◌>>=◌, leb-true, length-take, length-drop, length-append,
  take-append, drop-append_add, get_elem?-lt, if◌then◌else◌, List, some, arith, length, get_elem?,
  take, drop, >>=-eq-some, Bool-cases, ltb, ltb→lt, not_ltb→le, eqb→eq, not_eqb→ne,
}
use app_network_rdesktop.Orders.Brushes.{
  in_palette, brush_pixels, brush_rows, flatten, process_compressed_8x8_brush_data,
}

-- The entry of the palette, behind the 16 bytes of pixels.
abbrev pub palette_entry : ℕ → List ℕ → ℕ → List ℕ
palette_entry bpp input k = take bpp (drop (16 + k * bpp) input)

-- The pixels as they are when the palette is there.
painted : ℕ → List ℕ → ℕ → ℕ → ℕ → (ℕ → List ℕ) → ℕ → List ℕ
painted bpp input byte at zero pixels = pixels
painted bpp input byte at (suc n) pixels =
    let entry = palette_entry bpp input (byte / 4 ^ n % 4) in
    painted bpp input byte (at + 1) n (λ j. if j == at then entry else pixels j)

painted_rows : ℕ → List ℕ → ℕ → ℕ → (ℕ → List ℕ) → Option (ℕ → List ℕ)
painted_rows bpp input zero in_index pixels = some pixels
painted_rows bpp input (suc y) in_index pixels = do
  left ← get_elem? input in_index
  right ← get_elem? input (in_index + 1)
  painted_rows bpp input y (in_index + 2)
      (painted bpp input right (y * 8 + 4) 4 (painted bpp input left (y * 8) 4 pixels))

module _ (bpp : ℕ) (input : List ℕ) where
  painted_below :
      (byte at n : ℕ) (pixels : ℕ → List ℕ) (j : ℕ)
      → (j < at) ⊎ (at + n ≤ j)
      → painted bpp input byte at n pixels j ≡ pixels j
  unfolding painted
  painted_below byte at zero pixels j h = refl
  painted_below byte at (suc n) pixels j h =
      let apart : (j < at) ⊎ (at + suc n ≤ j) → (j < at + 1) ⊎ (at + 1 + n ≤ j) =
        λ p. elim p [ inl l ↦ inl (omega arith) | inr l ↦ inr (omega arith) ] in
      let other : (j == at) ≡ false = ground (arith, h) in
      painted_below byte (at + 1) n _ j (apart h) ∙ rw other refl

  -- Pixel `k` of `n` from `at`.
  painted_at :
      (byte at n : ℕ) (pixels : ℕ → List ℕ) (k : ℕ)
      → k < n
      → painted bpp input byte at n pixels (at + k)
        ≡ palette_entry bpp input (byte / 4 ^ (n - 1 - k) % 4)
  unfolding painted
  painted_at byte at zero pixels k h = absurd (omega arith)
  painted_at byte at (suc n) pixels zero h =
      let place : at + 0 ≡ at = omega arith in
      let shift : suc n - 1 - 0 ≡ n = omega arith in
      let self : (at == at) ≡ true = ground arith in
      rw (place, shift) (painted_below byte (at + 1) n _ at (inl (omega arith)) ∙ rw self refl)
  painted_at byte at (suc n) pixels (suc k) h =
      let place : at + suc k ≡ at + 1 + k = omega arith in
      let shift : suc n - 1 - suc k ≡ n - 1 - k = omega arith in
      rw (place, shift) (painted_at byte (at + 1) n _ k (omega arith))

  -- The two halves of a row.
  halves :
      (left right y x byte : ℕ) (pixels : ℕ → List ℕ)
      → x < 8
      → byte ≡ (if ltb x 4 then left else right)
      → painted bpp input right (y * 8 + 4) 4 (painted bpp input left (y * 8) 4 pixels) (y * 8 + x)
        ≡ palette_entry bpp input (byte / 4 ^ (3 - x % 4) % 4)
  halves left right y x byte pixels h e = elim (Bool-cases (ltb x 4)) [
    | inl t ↦
        let is : byte ≡ left = rw t at e in
        let low = ltb→lt x 4 t in
        let k : 3 - x % 4 ≡ 4 - 1 - x = omega (arith, low) in
        rw (is, k)
          (painted_below right (y * 8 + 4) 4 _ (y * 8 + x) (inl (omega (arith, low)))
            ∙ painted_at left (y * 8) 4 pixels x low)
    | inr t ↦
        let is : byte ≡ right = rw t at e in
        let high = not_ltb→le x 4 t in
        let k : 3 - x % 4 ≡ 4 - 1 - (x - 4) = omega (arith, high) in
        let place : y * 8 + x ≡ y * 8 + 4 + (x - 4) = omega (arith, high) in
        rw (is, k, place) (painted_at right (y * 8 + 4) 4 _ (x - 4) (omega (arith, high)))
  ]

  -- The rows below leave the ones above.
  painted_rows_above :
      (rows in_index : ℕ) (pixels pixels' : ℕ → List ℕ) (j : ℕ)
      → painted_rows bpp input rows in_index pixels ≡ some pixels'
      → rows * 8 ≤ j
      → pixels' j ≡ pixels j
  unfolding painted_rows
  painted_rows_above zero in_index pixels pixels' j e h =
      let is : pixels ≡ pixels' = cc in ap (λ (f : ℕ → List ℕ). f j) (sym is)
  painted_rows_above (suc y) in_index pixels pixels' j e h =
      let (left, got, e') = >>=-eq-some (get_elem? input in_index) _ e in
      let (right, got', e'') = >>=-eq-some (get_elem? input (in_index + 1)) _ e' in
      painted_rows_above y (in_index + 2) _ pixels' j e'' (omega arith)
      ∙ painted_below right (y * 8 + 4) 4 (painted bpp input left (y * 8) 4 pixels) j
          (inr (omega arith))
      ∙ painted_below left (y * 8) 4 pixels j (inr (omega arith))

  -- Which of the row's bytes has the pixel.
  row_byte :
      (r in_index x y byte left right : ℕ)
      → y ≡ r
      → get_elem? input in_index ≡ some left
      → get_elem? input (in_index + 1) ≡ some right
      → get_elem? input (in_index + (suc r - 1 - y) * 2 + x / 4) ≡ some byte
      → x < 8
      → byte ≡ (if ltb x 4 then left else right)
  row_byte r in_index x y byte left right e l m got h = elim (Bool-cases (ltb x 4)) [
    | inl t ↦
        let place : in_index + (suc r - 1 - y) * 2 + x / 4 ≡ in_index =
          omega (arith, ltb→lt x 4 t) in
        let same : some byte ≡ some left = sym got ∙ ap (get_elem? input) place ∙ l in rw t (cc)
    | inr t ↦
        let place : in_index + (suc r - 1 - y) * 2 + x / 4 ≡ in_index + 1 =
          omega (arith, not_ltb→le x 4 t) in
        let same : some byte ≡ some right = sym got ∙ ap (get_elem? input) place ∙ m in rw t (cc)
  ]

  painted_rows_pixel :
      (rows in_index : ℕ) (pixels pixels' : ℕ → List ℕ) (x y byte : ℕ)
      → painted_rows bpp input rows in_index pixels ≡ some pixels'
      → x < 8
      → y < rows
      → get_elem? input (in_index + (rows - 1 - y) * 2 + x / 4) ≡ some byte
      → pixels' (y * 8 + x) ≡ palette_entry bpp input (byte / 4 ^ (3 - x % 4) % 4)
  unfolding painted_rows
  painted_rows_pixel zero in_index pixels pixels' x y byte e h k got = absurd (omega arith)
  painted_rows_pixel (suc r) in_index pixels pixels' x y byte e h k got =
      let (left, left_got, e') = >>=-eq-some (get_elem? input in_index) _ e in
      let (right, right_got, e'') = >>=-eq-some (get_elem? input (in_index + 1)) _ e' in
      elim (Bool-cases (y == r)) [
        | inl t ↦
            let is : y ≡ r = eqb→eq y r t in
            painted_rows_above r (in_index + 2) _ pixels' (y * 8 + x) e'' (omega (arith, is))
            ∙ rw is (
                halves left right r x byte pixels h
                  (row_byte r in_index x y byte left right is left_got right_got got h))
        | inr t ↦
            let lower : y < r = omega (arith, not_eqb→ne y r t) in
            let place : in_index + (suc r - 1 - y) * 2 + x / 4
                ≡ in_index + 2 + (r - 1 - y) * 2 + x / 4 =
              omega (arith, lower) in
            painted_rows_pixel r (in_index + 2) _ pixels' x y byte e'' h lower (rw (← place) got)
      ]

  painted_rows_total :
      (rows in_index : ℕ) (pixels : ℕ → List ℕ)
      → in_index + rows * 2 ≤ length input
      → (pixels' : ℕ → List ℕ) × (painted_rows bpp input rows in_index pixels ≡ some pixels')
  unfolding painted_rows
  painted_rows_total zero in_index pixels h = (pixels, refl)
  painted_rows_total (suc y) in_index pixels h =
      let (left, got) = get_elem?-lt input in_index (omega arith) in
      let (right, got') = get_elem?-lt input (in_index + 1) (omega arith) in
      let (pixels', done) =
        painted_rows_total y (in_index + 2)
          (painted bpp input right (y * 8 + 4) 4 (painted bpp input left (y * 8) 4 pixels))
          (omega arith) in
      (pixels', rw (got, got') done)

entry_inside : (k bpp : ℕ) → k < 4 → k * bpp + bpp ≤ 4 * bpp
entry_inside zero bpp h = omega arith
entry_inside (suc zero) bpp h = omega arith
entry_inside (suc (suc zero)) bpp h = omega arith
entry_inside (suc (suc (suc zero))) bpp h = omega arith
entry_inside (suc (suc (suc (suc k)))) bpp h = absurd (omega arith)

length-palette_entry :
    (bpp : ℕ) (input : List ℕ) (k : ℕ)
    → 16 + 4 * bpp ≤ length input
    → k < 4
    → length (palette_entry bpp input k) ≡ bpp
length-palette_entry bpp input k long h = omega (
  arith,
  length-take bpp (drop (16 + k * bpp) input),
  length-drop (16 + k * bpp) input,
  entry_inside k bpp h,
  long,
)

module _ (bpp : ℕ) (input : List ℕ) (long : 16 + 4 * bpp ≤ length input) where
  in_palette-entry : (k : ℕ) → k < 4 → in_palette bpp input k ≡ some (palette_entry bpp input k)
  unfolding in_palette
  in_palette-entry k h =
      let fits : 16 + k * bpp + bpp ≤ length input = omega (arith, entry_inside k bpp h, long) in
      rw (leb-true (16 + k * bpp + bpp) (length input) fits) refl

  brush_pixels-painted :
      (byte at n : ℕ) (pixels : ℕ → List ℕ)
      → brush_pixels bpp input byte at n pixels ≡ some (painted bpp input byte at n pixels)
  unfolding brush_pixels painted
  brush_pixels-painted byte at zero pixels = refl
  brush_pixels-painted byte at (suc n) pixels =
      let two_bits : byte / 4 ^ n % 4 < 4 = omega arith in
      rw (in_palette-entry (byte / 4 ^ n % 4) two_bits) (brush_pixels-painted byte (at + 1) n _)

  brush_rows-painted :
      (rows in_index : ℕ) (pixels pixels' : ℕ → List ℕ)
      → painted_rows bpp input rows in_index pixels ≡ some pixels'
      → brush_rows bpp input rows in_index pixels ≡ some pixels'
  unfolding brush_rows painted_rows
  brush_rows-painted zero in_index pixels pixels' e = e
  brush_rows-painted (suc y) in_index pixels pixels' e =
      let (left, got, e') = >>=-eq-some (get_elem? input in_index) _ e in
      let (right, got', e'') = >>=-eq-some (get_elem? input (in_index + 1)) _ e' in
      rw
        (
          got,
          brush_pixels-painted left (y * 8) 4 pixels,
          got',
          brush_pixels-painted right (y * 8 + 4) 4 (painted bpp input left (y * 8) 4 pixels),
        )
        (brush_rows-painted y (in_index + 2) _ pixels' e'')

  -- Every pixel has the size of an entry.
  pixel-length :
      (pixels' : ℕ → List ℕ)
      → painted_rows bpp input 8 0 (λ j. []) ≡ some pixels'
      → (j : ℕ) → j < 64
      → length (pixels' j) ≡ bpp
  pixel-length pixels' e j h =
      let x = j % 8 in
      let y = j / 8 in
      let (byte, got) = get_elem?-lt input (0 + (8 - 1 - y) * 2 + x / 4) (omega (arith, long, h)) in
      let is =
        painted_rows_pixel bpp input 8 0 (λ j. []) pixels' x y byte e (omega arith)
          (omega (arith, h)) got in
      let place : j ≡ y * 8 + x = omega arith in
      let two_bits : byte / 4 ^ (3 - x % 4) % 4 < 4 = omega arith in
      ap (λ i. length (pixels' i)) place
      ∙ ap (λ (xs : List ℕ). length xs) is
      ∙ length-palette_entry bpp input (byte / 4 ^ (3 - x % 4) % 4) long two_bits

-- Pixels of the same size in a row.
module _ (pixels : ℕ → List ℕ) (bpp : ℕ) where
  length-flatten :
      (from n : ℕ)
      → ((j : ℕ) → j < from + n → length (pixels j) ≡ bpp)
      → length (flatten pixels from n) ≡ n * bpp
  length-flatten from zero h = omega arith
  length-flatten from (suc n) h =
      let more : suc n * bpp ≡ bpp + n * bpp = grind arith in
      length-append (pixels from) (flatten pixels (from + 1) n)
      ∙ ap (λ k. k + length (flatten pixels (from + 1) n)) (h from (omega arith))
      ∙ ap (λ k. bpp + k) (length-flatten (from + 1) n (λ j k. h j (omega (arith, k))))
      ∙ sym more

  flatten-pixel :
      (from n k : ℕ)
      → ((j : ℕ) → j < from + n → length (pixels j) ≡ bpp)
      → k < n
      → take bpp (drop (k * bpp) (flatten pixels from n)) ≡ pixels (from + k)
  flatten-pixel from zero k h lt = absurd (omega arith)
  flatten-pixel from (suc n) zero h lt =
      let nothing : 0 * bpp ≡ 0 = omega arith in
      let here : from + 0 ≡ from = omega arith in
      ap (λ i. take bpp (drop i (flatten pixels from (suc n)))) nothing
      ∙ ap (λ i. take i (pixels from ++ flatten pixels (from + 1) n)) (sym (h from (omega arith)))
      ∙ take-append (pixels from) (flatten pixels (from + 1) n)
      ∙ ap pixels (sym here)
  flatten-pixel from (suc n) (suc k) h lt =
      let more : suc k * bpp ≡ bpp + k * bpp = grind arith in
      let place : from + 1 + k ≡ from + suc k = omega arith in
      ap (λ i. take bpp (drop i (flatten pixels from (suc n)))) more
      ∙ ap (λ i. take bpp (drop (i + k * bpp) (pixels from ++ flatten pixels (from + 1) n)))
          (sym (h from (omega arith)))
      ∙ ap (take bpp) (drop-append_add (pixels from) (flatten pixels (from + 1) n) (k * bpp))
      ∙ flatten-pixel (from + 1) n k (λ j q. h j (omega (arith, q))) (omega (arith, lt))
      ∙ ap pixels place

-- A compressed brush of which the 16 bytes of pixels and the palette of four entries are there: whatever
-- the size of a pixel, the result is 64 pixels in a row, and the pixel at `x` and `y`, which stands behind
-- y * 8 + x others of its size, is the entry of the palette that its two bits number: a row takes two
-- bytes, the last row first, and a byte four pixels, the highest bits first.
pub process_compressed_8x8_brush_data-entry :
    (bpp : ℕ) (input : List ℕ) (x y byte : ℕ)
    → 16 + 4 * bpp ≤ length input
    → x < 8
    → y < 8
    → get_elem? input ((7 - y) * 2 + x / 4) ≡ some byte
    → (out : List ℕ) × (process_compressed_8x8_brush_data bpp input ≡ some out)
      × (length out ≡ 64 * bpp)
      × (take bpp (drop ((y * 8 + x) * bpp) out)
          ≡ palette_entry bpp input (byte / 4 ^ (3 - x % 4) % 4))
unfolding process_compressed_8x8_brush_data
process_compressed_8x8_brush_data-entry bpp input x y byte long h k got =
    let (pixels, done) = painted_rows_total bpp input 8 0 (λ j. []) (omega (arith, long)) in
    let place : 0 + (8 - 1 - y) * 2 + x / 4 ≡ (7 - y) * 2 + x / 4 = omega (arith, k) in
    let sizes = pixel-length bpp input long pixels done in
    let at : 0 + (y * 8 + x) ≡ y * 8 + x = omega arith in
    (
      flatten pixels 0 64,
      rw (brush_rows-painted bpp input long 8 0 (λ j. []) pixels done) refl,
      length-flatten pixels bpp 0 64 (λ j q. sizes j (omega (arith, q))),
      flatten-pixel pixels bpp 0 64 (y * 8 + x) (λ j q. sizes j (omega (arith, q)))
            (omega (arith, h, k))
          ∙ ap pixels at
          ∙ painted_rows_pixel bpp input 8 0 (λ j. []) pixels x y byte done h k (rw place got),
    )
