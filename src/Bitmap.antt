-- ===== src/Bitmap.antt =====
-- bitmap.c: decompression of bitmaps of 1, 2 and 3 bytes per pixel.
-- The three functions are one text for pixels of different sizes ("when modifing one function make the
-- change in the others"), and the model has the size
-- `Bpp` as a parameter. The program owns `area` pixels of the picture. Widths and heights are 16-bit
-- numbers of the wire, so never negative, and so is `count`.
pub mod Endings
pub mod Reading
pub mod Statements
pub mod Keeping
pub mod Unrolling
pub mod Heads
pub mod Safety
pub mod Planes
pub mod Overrun
pub mod Runs
use app_network_rdesktop.Base.{
  ℕ, zero, suc, ◌+◌, ◌-◌, ◌*◌, ◌/◌, ◌%◌, ◌^◌, Bool, true, false, not, ltb, leb, ◌==◌, has, ◌||◌,
  ◌&&◌, if◌then◌else◌, List, Option, none, some, get_elem?,
}
use Endings.{Outcome, value, failed, over_read, outside, stuck, ◌>>=◌}
use Reading.{Inks, Run, white, read_order, preliminary}
use Statements.{mix_pixel, statement}

-- `statement; count--; x++`.
unfoldable pub draw_pixel : (Run → Outcome Run) → Run → Outcome Run
draw_pixel act r = do r ← act r; value (record r { count = r.count - 1; x = r.x + 1 })

unfoldable pub unroll8 : (Run → Outcome Run) → Run → Outcome Run
unroll8 act r = do
  r ← draw_pixel act r
  r ← draw_pixel act r
  r ← draw_pixel act r
  r ← draw_pixel act r
  r ← draw_pixel act r
  r ← draw_pixel act r
  r ← draw_pixel act r
  draw_pixel act r

module _ (width : ℕ) where
  -- The second loop of REPEAT, one pixel at a time; each turn is one pixel further.
  unfoldable pub repeat_ones : ℕ → (Run → Outcome Run) → Run → Outcome Run
  repeat_ones zero act r = stuck
  repeat_ones (suc fuel) act r =
      let rest = draw_pixel act r >>= repeat_ones fuel act in
      if ltb 0 r.count && ltb r.x width then rest else value r

  -- The first loop, eight at a time, and the second behind it.
  unfoldable pub repeat_eights : ℕ → (Run → Outcome Run) → Run → Outcome Run
  repeat_eights zero act r = stuck
  repeat_eights (suc fuel) act r =
      let rest = unroll8 act r >>= repeat_eights fuel act in
      let ones = repeat_ones (suc (width - r.x)) act r in
      if leb 8 r.count && ltb (r.x + 8) width then rest else ones

  -- REPEAT.
  unfoldable pub repeat : (Run → Outcome Run) → Run → Outcome Run
  repeat act r = repeat_eights (suc (width - r.x)) act r

  -- The next line, when `x` is at the end of one.
  unfoldable pub next_line : Run → Outcome Run
  next_line r =
      if leb width r.x
      then (if r.height == 0
          then failed
          else value (record r {
            x = 0;
            height = r.height - 1;
            prevline = r.line;
            line = some ((r.height - 1) * width);
          }))
      else value r

-- The first pixel of a fill behind a fill.
unfoldable pub insert_mix : ℕ → Run → Outcome Run
unfolding mix_pixel
insert_mix area r =
    if r.inks.insertmix
    then (do
      r ← mix_pixel area r
      let k = r.inks
      value (record r { count = r.count - 1; x = r.x + 1; inks = record k { insertmix = false } }))
    else value r

module _ (input : List ℕ) (bpp width area : ℕ) where
  -- The switch of the body.
  unfoldable pub strokes : ℕ → Run → Outcome Run
  strokes opcode r = elim (statement input area bpp opcode) [
    | none ↦ failed
    | some act ↦
        if opcode == 0 then (do r ← insert_mix area r; repeat width act r) else repeat width act r
  ]

  -- `while (count > 0)`: each turn but the first takes a line.
  unfoldable pub output_body : ℕ → ℕ → Run → Outcome Run
  output_body zero opcode r = stuck
  output_body (suc fuel) opcode r =
      let rest = next_line width r >>= strokes opcode >>= output_body fuel opcode in
      if r.count == 0 then value r else rest

  -- One order.
  unfoldable pub draw_order : Run → Outcome Run
  draw_order r = do
    o ← read_order input r.i
    let k = r.inks
    (opcode, r) ←
        preliminary input bpp width o
          (record r { i = o.i; count = o.count; inks = record k { fom_mask = 0 } })
    let k = r.inks
    output_body (suc (suc r.height)) opcode
        (record r { inks = record k { lastopcode = some opcode; mixmask = 0 } })

  -- `while (input < end)`: each order takes a byte of input at least.
  unfoldable pub draw_orders : ℕ → ℕ → Run → Outcome (ℕ → ℕ)
  draw_orders size zero r = stuck
  draw_orders size (suc fuel) r =
      let rest = draw_order r >>= draw_orders size fuel in
      if ltb r.i size then rest else value r.out

-- The variables at the start.
abbrev pub opening : ℕ → ℕ → ℕ → (ℕ → ℕ) → Run
opening bpp width height out = record {
  out = out;
  line = none;
  prevline = none;
  x = width;
  height = height;
  i = 0;
  count = 0;
  inks = record {
    colour1 = 0;
    colour2 = 0;
    mix = white bpp;
    mask = 0;
    mixmask = 0;
    fom_mask = 0;
    bicolour = false;
    insertmix = false;
    lastopcode = none;
  };
}

-- The picture, or `failed` for False.
unfoldable pub bitmap_decompress_pixels : ℕ → (ℕ → ℕ) → ℕ → ℕ → List ℕ → ℕ → Outcome (ℕ → ℕ)
bitmap_decompress_pixels bpp output width height input size =
    draw_orders input bpp width (width * height) size (suc size) (opening bpp width height output)

abbrev pub bitmap_decompress1 : (ℕ → ℕ) → ℕ → ℕ → List ℕ → ℕ → Outcome (ℕ → ℕ)
bitmap_decompress1 = bitmap_decompress_pixels 1

abbrev pub bitmap_decompress2 : (ℕ → ℕ) → ℕ → ℕ → List ℕ → ℕ → Outcome (ℕ → ℕ)
bitmap_decompress2 = bitmap_decompress_pixels 2

abbrev pub bitmap_decompress3 : (ℕ → ℕ) → ℕ → ℕ → List ℕ → ℕ → Outcome (ℕ → ℕ)
bitmap_decompress3 = bitmap_decompress_pixels 3
