-- ===== src/Bitmap/Overrun.antt =====
-- process_plane does not compare what it writes with the width of the line or the end of the picture.
use app_network_rdesktop.Base.{
  get_elem?-lt, ℕ, zero, suc, ◌+◌, ◌*◌, ◌≤◌, ◌<◌, ◌≡◌, refl, inl, inr, ltb, List, ◌∷◌, none, arith,
  length, Bool-cases, lt→ltb, ltb→lt,
}
use app_network_rdesktop.Bitmap.Endings.{outside}
use app_network_rdesktop.Bitmap.Reading.{cval}
use app_network_rdesktop.Bitmap.Planes.{
  Plane, put_colours, put_runs, plane_line, plane_lines, process_plane, planes, bitmap_decompress4,
  bitmap_decompress, run_lengths,
}

-- Bytes of the first line run over the end of the picture, whatever they are.
put_colours-outside :
    (input : List ℕ) (area collen : ℕ) (p : Plane)
    → 0 < collen
    → p.i + collen ≤ length input
    → area + 4 ≤ p.out + 4 * collen
    → put_colours input area none collen p ≡ outside
unfolding put_colours
put_colours-outside input area zero p pos held over = absurd (omega arith)
put_colours-outside input area (suc collen) p pos held over =
    let (b, got) = get_elem?-lt input p.i (omega arith) in
    rw (got, cval)
      (elim (Bool-cases (ltb p.out area)) [
        | inl e ↦ rw e (
            put_colours-outside input area collen _ (omega (arith, ltb→lt p.out area e))
              (omega arith) (omega arith))
        | inr e ↦ rw e refl
      ])

-- A code of 15 bytes at the last line of the picture.
code_outside :
    (area width fuel out : ℕ) (bytes : ℕ → ℕ) (more : List ℕ)
    → 0 < width
    → 15 ≤ length more
    → area + 4 ≤ out + 60
    → plane_line
        (0x10 ∷ 0xf0 ∷ more)
        area
        (suc fuel)
        width
        none
        (record { bytes = bytes; i = 1; out = out; indexw = 0; color = 0 })
      ≡ outside
unfolding plane_line put_runs run_lengths cval
code_outside area width fuel out bytes more wide held over =
    let first =
      put_colours-outside (0x10 ∷ 0xf0 ∷ more) area 15
        (record { bytes = bytes; i = 2; out = out; indexw = 0; color = 0 }) (omega arith)
        (omega arith) (omega arith) in
    rw (lt→ltb 0 width wide, first) refl

-- A bitmap of 4 bytes per pixel and less than 15 pixels in width whose first code is for 15 bytes: when
-- the input holds them, whatever they are and whatever follows, bitmap_decompress writes behind the end
-- of the picture. Neither the width nor the size stops it.
pub bitmap_decompress4-outside :
    (width height size : ℕ) (output : ℕ → ℕ) (more : List ℕ)
    → 0 < width
    → width < 15
    → 0 < height
    → 15 ≤ length more
    → bitmap_decompress output width height (0x10 ∷ 0xf0 ∷ more) size 4 ≡ outside
unfolding bitmap_decompress bitmap_decompress4 planes process_plane plane_lines cval
bitmap_decompress4-outside width zero size output more wide narrow tall held = absurd (omega arith)
bitmap_decompress4-outside width (suc rows) size output more wide narrow tall held =
    let over : width * suc rows * 4 + 4 ≤ 3 + rows * width * 4 + 60 = grind arith in
    rw
      (code_outside (width * suc rows * 4) width (length (0x10 ∷ 0xf0 ∷ more))
        (3 + rows * width * 4) output more wide held over)
      refl
