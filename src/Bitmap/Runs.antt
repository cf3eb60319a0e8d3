-- ===== src/Bitmap/Runs.antt =====
-- Runs of the decompression of bitmaps on concrete data.
use app_network_rdesktop.Base.{ℕ, ◌≡◌, refl, List, [], ◌∷◌, some, replicate, arith}
use app_network_rdesktop.Bitmap.Endings.{Ends, over_read, outside}
use app_network_rdesktop.Bitmap.Reading.{Run, read_order, preliminary}
use app_network_rdesktop.Bitmap.Statements.{statement, bicolour_pixel}
use app_network_rdesktop.Bitmap.{
  opening, repeat, repeat_ones, draw_orders, draw_order, output_body, next_line, strokes,
  repeat_eights, draw_pixel, bitmap_decompress1, bitmap_decompress_pixels,
}
use app_network_rdesktop.Bitmap.Planes.{bitmap_decompress}
use app_network_rdesktop.Bitmap.Unrolling.{repeat_lem}
use app_network_rdesktop.Bitmap.Safety.{bitmap_decompress_pixels-Ends}
use app_network_rdesktop.Bitmap.Overrun.{bitmap_decompress4-outside}

abbrev blank : ℕ → ℕ
blank j = 0

-- Four pixels of colour 7, then four copied.
abbrev two_lines : List ℕ
two_lines = 0x64 ∷ 7 ∷ 0x84 ∷ 1 ∷ 2 ∷ 3 ∷ 4 ∷ []

-- A run of a line of 20 pixels, 12 of which are to be drawn.
abbrev at_line : Run
at_line = record (opening 1 20 1 blank) { line = some 0; x = 0; count = 12 }

repeat_lem_example :
    repeat 20 (bicolour_pixel 20) at_line ≡ repeat_ones 20 21 (bicolour_pixel 20) at_line
unfolding statement
repeat_lem_example = repeat_lem two_lines 20 1 20 8 (bicolour_pixel 20) at_line refl

bitmap_decompress_pixels-Ends_example :
    Ends ⊥ (λ out. Unit {0}) (bitmap_decompress_pixels 1 blank 4 2 two_lines 7)
bitmap_decompress_pixels-Ends_example =
    bitmap_decompress_pixels-Ends 1 4 2 7 blank two_lines (omega arith)

bitmap_decompress4-outside_example :
    bitmap_decompress blank 2 3 (0x10 ∷ 0xf0 ∷ replicate 15 9) 17 4 ≡ outside
bitmap_decompress4-outside_example =
    bitmap_decompress4-outside 2 3 17 blank (replicate 15 9) (omega arith) (omega arith)
      (omega arith) (omega arith)

-- A copy of four pixels of which the input has one: it is read over its end.
copy_over_read : bitmap_decompress1 blank 4 1 (0x84 ∷ 1 ∷ []) 2 ≡ over_read
unfolding bitmap_decompress_pixels draw_orders draw_order read_order preliminary output_body
    next_line strokes statement repeat repeat_eights repeat_ones draw_pixel
copy_over_read = refl
