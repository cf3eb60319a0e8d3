-- ===== src/Cache/Desktop.antt =====
-- cache.c: the desktop cache. `cx * cy * bytes_per_pixel` is an int and the test on it is made in
-- uint32, both of 32 bits; the copy itself faults outside g_deskcache or the caller's data.
use app_network_rdesktop.Base.{
  ℕ, zero, suc, ◌+◌, ◌*◌, ◌%◌, ◌^◌, Bool, true, false, ltb, leb, if◌then◌else◌, List, Option, none,
  some, length, take, drop, paste,
}

abbrev pub deskcache_size : ℕ
deskcache_size = 0x38400 * 4

-- `if (offset > sizeof(g_deskcache)) offset = 0;`
abbrev pub desk_offset : ℕ → ℕ
desk_offset offset = if ltb deskcache_size offset then 0 else offset

abbrev pub desk_fits : ℕ → ℕ → ℕ → ℕ → Bool
desk_fits offset cx cy bytes_per_pixel =
    leb ((desk_offset offset + cx * cy * bytes_per_pixel % 2 ^ 32) % 2 ^ 32) deskcache_size

-- The index of g_deskcache that the result points to, or NULL.
unfoldable pub cache_get_desktop : ℕ → ℕ → ℕ → ℕ → Option ℕ
cache_get_desktop offset cx cy bytes_per_pixel =
    if desk_fits offset cx cy bytes_per_pixel then some (desk_offset offset) else none

-- `while (cy--)`: one row each round, `none` at a read or write outside the arrays.
unfoldable pub put_rows : ℕ → ℕ → ℕ → List ℕ → (ℕ → ℕ) → ℕ → Option (ℕ → ℕ)
put_rows zero cx scanline data' desk offset = some desk
put_rows (suc cy) cx scanline data' desk offset = elim (ltb (length data') cx) [
  | true ↦ none
  | false ↦ elim (ltb deskcache_size (offset + cx)) [
    | true ↦ none
    | false ↦
        put_rows cy cx scanline (drop scanline data') (paste desk offset (take cx data'))
          (offset + cx)
  ]
]

unfoldable pub cache_put_desktop : (ℕ → ℕ) → ℕ → ℕ → ℕ → ℕ → ℕ → List ℕ → Option (ℕ → ℕ)
cache_put_desktop desk offset cx cy scanline bytes_per_pixel data' =
    if desk_fits offset cx cy bytes_per_pixel
    then put_rows cy (cx * bytes_per_pixel) scanline data' desk (desk_offset offset)
    else some desk
