-- ===== src/Orders/Pictures.antt =====
-- orders.c: the secondary orders that put bitmaps into the caches.
-- A read outside the memory of the stream is a fault (`none`), in bitmap_decompress too. What the user
-- interface returns for a new bitmap is the parameter `create`, what fresh memory holds is `fresh`, and
-- `persistent` is IS_PERSISTENT.
use app_network_rdesktop.Base.{
  ℕ, zero, suc, ◌+◌, ◌-◌, ◌*◌, ◌/◌, ◌%◌, ◌^◌, Bool, has, ltb, leb, ◌==◌, if◌then◌else◌, List, [],
  ◌∷◌, ◌++◌, Option, none, some, ◌>>=◌, length, take, drop, window, paste,
}
use mathlib.Core.List.{map}
use app_network_rdesktop.Stream.{Stream, in_uint8, in_uint8s, in_uint16_le, in_uint16_be}
use app_network_rdesktop.Cache.Bitmaps.{cache_put_bitmap}
use app_network_rdesktop.Bitmap.Endings.{value, failed, over_read, outside, stuck}
use app_network_rdesktop.Bitmap.Planes.{bitmap_decompress}
use app_network_rdesktop.Orders.Draw.{
  Ui, World, ui_create_bitmap, cache_effect, pstcache_save_bitmap,
}
use app_network_rdesktop.Orders.Dispatch.{Session, Work}

-- `n` bytes from `p`, if the stream's memory has them.
unfoldable pub bytes_at : Stream → ℕ → ℕ → Option (List ℕ)
bytes_at s p n = if leb (p + n) (length s.buf) then some (take n (drop p s.buf)) else none

-- The rows from `y` on, `left` of `height`, each copied to its place from the bottom.
unfoldable pub invert_rows : Stream → ℕ → ℕ → ℕ → ℕ → ℕ → (ℕ → ℕ) → Option (ℕ → ℕ)
unfolding bytes_at
invert_rows s data' height row zero y inverted = some inverted
invert_rows s data' height row (suc left) y inverted = do
  line ← bytes_at s (data' + y * row) row
  invert_rows s data' height row left (y + 1) (paste inverted ((height - y - 1) * row) line)

-- The bytes of a pixel, the lowest first.
abbrev pub pixel_bytes : ℕ → ℕ → List ℕ
pixel_bytes zero v = []
pixel_bytes (suc bpp) v = v % 256 ∷ pixel_bytes bpp (v / 256)

-- The bytes of the first `n` pixels from `j`.
abbrev pub pixels_bytes : ℕ → (ℕ → ℕ) → ℕ → ℕ → List ℕ
pixels_bytes bpp out j zero = []
pixels_bytes bpp out j (suc n) = pixel_bytes bpp (out j) ++ pixels_bytes bpp out (j + 1) n

-- The memory that bitmap_decompress leaves.
abbrev pub picture : ℕ → ℕ → ℕ → (ℕ → ℕ) → List ℕ
picture bpp width height out =
    if bpp == 4 then window out 0 (width * height * 4) else pixels_bytes bpp out 0 (width * height)

-- bitmap_decompress of `size` bytes at `data'`: a fault, False (`some none`), or the picture.
unfoldable pub decompressed : (ℕ → ℕ) → Stream → ℕ → ℕ → ℕ → ℕ → ℕ → Option (Option (List ℕ))
decompressed fresh s data' width height size bpp =
    elim (bitmap_decompress fresh width height (drop data' s.buf) size bpp) [
      | value out ↦ some (some (picture bpp width height out))
      | failed ↦ some none
      | over_read ↦ none
      | outside ↦ none
      | stuck ↦ none
    ]

module _ (persistent : ℕ → Bool) where
  -- cache_put_bitmap, for every cache id.
  unfoldable pub store_bitmap : ℕ → ℕ → ℕ → World → Option (World × List Ui)
  store_bitmap id idx handle w =
      if ltb id 3
      then (do
        (c, effects) ← cache_put_bitmap (persistent id) idx handle (w.bitmaps id)
        some (
          record w { bitmaps = λ j. if j == id then c else w.bitmaps j },
          map cache_effect effects,
        ))
      else some (w, [])

  module _ (create : ℕ → ℕ → List ℕ → ℕ) (fresh : ℕ → ℕ) where
    -- ui_create_bitmap and cache_put_bitmap.
    unfoldable pub put_picture : ℕ → ℕ → ℕ → ℕ → List ℕ → Session → Option Work
    unfolding store_bitmap
    put_picture id idx width height bytes e = do
      (w, calls) ← store_bitmap id idx (create width height bytes) e.w
      some (record e { w = w }, ui_create_bitmap width height bytes ∷ calls)

    unfoldable pub process_raw_bmpcache : Session → Option Work
    unfolding put_picture invert_rows
    process_raw_bmpcache e = do
      (cache_id, s) ← in_uint8 e.s
      (width, s) ← in_uint8 (in_uint8s s 1)
      (height, s) ← in_uint8 s
      (bpp, s) ← in_uint8 s
      (bufsize, s) ← in_uint16_le s
      (cache_idx, s) ← in_uint16_le s
      let row = width * ((bpp + 7) / 8)
      inverted ← invert_rows s s.p height row height 0 fresh
      put_picture cache_id cache_idx width height (window inverted 0 (height * row))
          (record e { s = in_uint8s s bufsize })

    -- The size of the data: RDP 4 sends it behind the size of the order's data.
    unfoldable pub sent_size : Bool → ℕ → Stream → Option (ℕ × Stream)
    sent_size rdp_v5 bufsize s = if rdp_v5 then some (bufsize, s) else (do
      (pad2, s) ← in_uint16_le s
      (size, s) ← in_uint16_le s
      (row_size, s) ← in_uint16_le s
      (final_size, s) ← in_uint16_le s
      some (size, s))

    unfoldable pub process_bmpcache : Bool → Session → Option Work
    unfolding sent_size decompressed put_picture
    process_bmpcache rdp_v5 e = do
      (cache_id, s) ← in_uint8 e.s
      (pad1, s) ← in_uint8 s
      (width, s) ← in_uint8 s
      (height, s) ← in_uint8 s
      (bpp, s) ← in_uint8 s
      (bufsize, s) ← in_uint16_le s
      (cache_idx, s) ← in_uint16_le s
      (size, s) ← sent_size rdp_v5 bufsize s
      result ← decompressed fresh s s.p width height size ((bpp + 7) / 8)
      let e = record e { s = in_uint8s s size }
      elim result [
        | none ↦ some (e, [])
        | some bytes ↦ put_picture cache_id cache_idx width height bytes e
      ]

    -- The key of a persistent bitmap, if the order brings one.
    unfoldable pub bitmap_key : ℕ → Stream → Option (List ℕ × Stream)
    unfolding bytes_at
    bitmap_key flags s =
        if has flags 0x0100
        then (do key ← bytes_at s s.p 8; some (key, in_uint8s s 8))
        else some ([], s)

    unfoldable pub square_size : ℕ → Stream → Option (ℕ × ℕ × Stream)
    square_size flags s =
        if has flags 0x0080
        then (do (width, s) ← in_uint8 s; some (width, width, s))
        else (do (width, s) ← in_uint8 s; (height, s) ← in_uint8 s; some (width, height, s))

    -- An index of one byte, or of two where the first has LONG_FORMAT.
    unfoldable pub cache_index : Stream → Option (ℕ × Stream)
    cache_index s = do
      (cache_idx, s) ← in_uint8 s
      if has cache_idx 0x80
          then (do
            (cache_idx_low, s) ← in_uint8 s
            some ((cache_idx - 0x80) * 2 ^ 8 + cache_idx_low, s))
          else some (cache_idx, s)

    -- The memory of the picture: decompressed, or the rows from the bottom.
    unfoldable pub bmpdata : Bool → Stream → ℕ → ℕ → ℕ → ℕ → Option (Option (List ℕ))
    unfolding decompressed invert_rows
    bmpdata compressed s width height bufsize bpp =
        if compressed then decompressed fresh s s.p width height bufsize bpp else (do
          inverted ← invert_rows s s.p height (width * bpp) height 0 fresh
          some (some (window inverted 0 (height * (width * bpp)))))

    -- The bitmap in the caches, if there is one, and in the persistent cache's file.
    unfoldable pub keep_bitmap : ℕ → ℕ → List ℕ → ℕ → ℕ → ℕ → List ℕ → Session → Option Work
    unfolding store_bitmap
    keep_bitmap flags cache_idx key width height bpp bytes e =
        let bitmap = create width height bytes in
        let cache_id = flags % 8 in
        if bitmap == 0 then some (e, ui_create_bitmap width height bytes ∷ []) else (do
          (w, calls) ← store_bitmap cache_id cache_idx bitmap e.w
          let saved =
              if has flags 0x0100
              then pstcache_save_bitmap cache_id cache_idx key width height (width * height * bpp)
                  bytes
                ∷ []
              else []
          some (record e { w = w }, ui_create_bitmap width height bytes ∷ calls ++ saved))

    unfoldable pub process_bmpcache2 : ℕ → Bool → Session → Option Work
    unfolding bitmap_key square_size cache_index bmpdata keep_bitmap
    process_bmpcache2 flags compressed e = do
      let bpp = (flags / 8 % 8 + 254) % 256
      (key, s) ← bitmap_key flags e.s
      (width, height, s) ← square_size flags s
      (bufsize, s) ← in_uint16_be s
      let bufsize' = bufsize % 0x4000
      (cache_idx, s) ← cache_index s
      result ← bmpdata compressed s width height bufsize' bpp
      let e = record e { s = in_uint8s s bufsize' }
      elim result [
        | none ↦ some (e, [])
        | some bytes ↦ keep_bitmap flags cache_idx key width height bpp bytes e
      ]
