-- ===== src/Cache/DesktopRows.antt =====
-- The desktop cache keeps the rows that it is given, one behind the other.
use native.Mathlib.Nat.{suc-mul, mul_comm, mul_assoc}
use app_network_rdesktop.Base.{
  ℕ, zero, suc, ◌+◌, ◌*◌, ◌≤◌, ◌<◌, ◌≡◌, refl, ap, sym, ◌∙◌, true, false, ltb, List, [], ◌++◌, some,
  length, take, drop, length-take, length-drop, arith, paste, paste_below, window, window_agree,
  window-add, window-paste,
}
use app_network_rdesktop.Cache.Desktop.{
  deskcache_size, desk_offset, desk_fits, cache_get_desktop, put_rows, cache_put_desktop,
}

-- `cy` rows of `cx` bytes, of which each begins `scanline` bytes behind the one before.
abbrev pub rows : ℕ → ℕ → ℕ → List ℕ → List ℕ
rows zero cx scanline data' = []
rows (suc cy) cx scanline data' = take cx data' ++ rows cy cx scanline (drop scanline data')

record Kept (cy cx scanline : ℕ) (data' : List ℕ) (desk : ℕ → ℕ) (offset : ℕ) : Type 0 where
  after : ℕ → ℕ
  returns : put_rows cy cx scanline data' desk offset ≡ some after
  holds : window after offset (cy * cx) ≡ rows cy cx scanline data'
  below : (j : ℕ) → j < offset → after j ≡ desk j

put_rows_lem :
    (cy cx scanline : ℕ) (data' : List ℕ) (desk : ℕ → ℕ) (offset : ℕ)
    → cx ≤ scanline
    → cy * scanline ≤ length data'
    → offset + cy * cx ≤ deskcache_size
    → Kept cy cx scanline data' desk offset
unfolding put_rows
put_rows_lem zero cx scanline data' desk offset h l room = record {
  after = desk;
  returns = refl;
  holds = ap (window desk offset) (let e : 0 * cx ≡ 0 = omega arith in e);
  below = λ j k. refl;
}
put_rows_lem (suc cy) cx scanline data' desk offset h l room =
    let m1 = suc-mul cy cx in
    let m2 = suc-mul cy scanline in
    let long : ltb (length data') cx ≡ false = ground arith in
    let fits : ltb deskcache_size (offset + cx) ≡ false = ground arith in
    let rest =
      put_rows_lem cy cx scanline (drop scanline data') (paste desk offset (take cx data'))
        (offset + cx) h (omega (arith, length-drop scanline data')) (omega arith) in
    let n : length (take cx data') ≡ cx = omega (arith, length-take cx data') in
    let pasted = paste desk offset (take cx data') in
    let first : window rest.after offset cx ≡ take cx data' =
      window_agree rest.after pasted offset cx rest.below
      ∙ ap (window pasted offset) (sym n)
      ∙ window-paste desk offset (take cx data') in
    record {
      after = rest.after;
      returns = rw (put_rows, long, fits) rest.returns;
      holds =
          ap (window rest.after offset) (let e : suc cy * cx ≡ cx + cy * cx = omega arith in e)
          ∙ window-add rest.after offset cx (cy * cx)
          ∙ rw (first, rest.holds) refl;
      below = λ j k. rest.below j (omega arith) ∙ paste_below desk offset (take cx data') j k;
    }

-- A picture of `cy` rows of `cx` pixels that fits into the desktop cache is stored without an access
-- outside the cache or the data, and what cache_get_desktop then points to are its rows, each as it
-- was in the data and right behind the one before. The data has `cy` lines of `scanline` bytes.
pub cache_get_desktop-cache_put_desktop :
    (desk : ℕ → ℕ) (offset cx cy scanline bytes_per_pixel : ℕ) (data' : List ℕ)
    → cx * bytes_per_pixel ≤ scanline
    → cy * scanline ≤ length data'
    → offset + cy * (cx * bytes_per_pixel) ≤ deskcache_size
    → (after : ℕ → ℕ) × (cache_put_desktop desk offset cx cy scanline bytes_per_pixel data'
        ≡ some after)
      × (cache_get_desktop offset cx cy bytes_per_pixel ≡ some offset)
      × (window after offset (cy * (cx * bytes_per_pixel))
          ≡ rows cy (cx * bytes_per_pixel) scanline data')
unfolding cache_get_desktop cache_put_desktop
cache_get_desktop-cache_put_desktop desk offset cx cy scanline bpp data' h l room =
    let at : desk_offset offset ≡ offset = ground arith in
    let size : cx * cy * bpp ≡ cy * (cx * bpp) =
      ap (λ n. n * bpp) (mul_comm cx cy) ∙ mul_assoc cy cx bpp in
    let fits : desk_fits offset cx cy bpp ≡ true = rw (at, size) (ground arith) in
    let kept = put_rows_lem cy (cx * bpp) scanline data' desk offset h l room in
    rw (fits, at) (kept.after, kept.returns, refl, kept.holds)
