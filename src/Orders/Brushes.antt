-- ===== src/Orders/Brushes.antt =====
-- orders.c: the secondary orders that bring colours, glyphs and brushes.
-- What the user interface returns for a new colour map or glyph is a parameter; `fresh` is what fresh
-- memory holds.
use app_network_rdesktop.Base.{
  ℕ, zero, suc, ◌+◌, ◌-◌, ◌*◌, ◌/◌, ◌%◌, ◌^◌, leb, ◌==◌, ◌&&◌, if◌then◌else◌, List, [], ◌∷◌, ◌++◌,
  Option, some, ◌>>=◌, none, length, get_elem?, take, drop, window,
}
use mathlib.Core.List.{reverse}
use app_network_rdesktop.Stream.{Stream, in_uint8, in_uint8s, in_uint16_le, in_uint8a}
use app_network_rdesktop.Cache.{Fontglyph, cache_put_font, cache_put_brush_data}
use app_network_rdesktop.Orders.Draw.{ui_create_glyph, ui_create_colourmap, ui_set_colourmap}
use app_network_rdesktop.Orders.Dispatch.{Session, Work}
use app_network_rdesktop.Orders.Pictures.{bytes_at}

-- The entries of a colour map, each as red, green and blue.
unfoldable pub colour_entries : ℕ → Stream → Option (List (ℕ × ℕ × ℕ) × Stream)
colour_entries zero s = some ([], s)
colour_entries (suc n) s = do
  (blue, s) ← in_uint8 s
  (green, s) ← in_uint8 s
  (red, s) ← in_uint8 s
  (entries, s) ← colour_entries n (in_uint8s s 1)
  some ((red, green, blue) ∷ entries, s)

unfoldable pub process_colcache : (List (ℕ × ℕ × ℕ) → ℕ) → Session → Option Work
unfolding colour_entries
process_colcache create_colourmap e = do
  (cache_id, s) ← in_uint8 e.s
  (ncolours, s) ← in_uint16_le s
  (map, s) ← colour_entries ncolours s
  some (
    record e { s = s },
    ui_create_colourmap map
        ∷ (if cache_id == 0 then [] else ui_set_colourmap (create_colourmap map) ∷ []),
  )

-- `(height * ((width + 7) / 8) + 3) & ~3`.
abbrev pub glyph_size : ℕ → ℕ → ℕ
glyph_size width height = (height * ((width + 7) / 8) + 3) / 4 * 4

-- One glyph, its bits handed to the user interface.
unfoldable pub put_glyph : (ℕ → ℕ → List ℕ → ℕ) → ℕ → Session → Option Work
unfolding bytes_at
put_glyph create_glyph font e = do
  (character, s) ← in_uint16_le e.s
  (offset, s) ← in_uint16_le s
  (baseline, s) ← in_uint16_le s
  (width, s) ← in_uint16_le s
  (height, s) ← in_uint16_le s
  let datasize = glyph_size width height
  bits ← bytes_at s s.p datasize
  let glyph : Fontglyph = record {
    offset = offset;
    baseline = baseline;
    width = width;
    height = height;
    pixmap = create_glyph width height bits;
  }
  let caches = cache_put_font e.w.caches font character glyph
  some (
    record e { s = in_uint8s s datasize; w = record (e.w) { caches = caches } },
    ui_create_glyph width height bits ∷ [],
  )

unfoldable pub put_glyphs : (ℕ → ℕ → List ℕ → ℕ) → ℕ → ℕ → Session → Option Work
unfolding put_glyph
put_glyphs create_glyph font zero e = some (e, [])
put_glyphs create_glyph font (suc n) e = do
  (e, calls) ← put_glyph create_glyph font e
  (e, more) ← put_glyphs create_glyph font n e
  some (e, calls ++ more)

unfoldable pub process_fontcache : (ℕ → ℕ → List ℕ → ℕ) → Session → Option Work
unfolding put_glyphs
process_fontcache create_glyph e = do
  (font, s) ← in_uint8 e.s
  (nglyphs, s) ← in_uint8 s
  put_glyphs create_glyph font nglyphs (record e { s = s })

-- Entry `k` of the palette behind the 16 bytes of pixels; a read behind the input is a fault.
unfoldable pub in_palette : ℕ → List ℕ → ℕ → Option (List ℕ)
in_palette bpp input k =
    if leb (16 + k * bpp + bpp) (length input)
    then some (take bpp (drop (16 + k * bpp) input))
    else none

-- `n` pixels of a row from `at`, each two bits of `byte`, the highest first; `pixels` is `out` by pixels.
unfoldable pub brush_pixels : ℕ → List ℕ → ℕ → ℕ → ℕ → (ℕ → List ℕ) → Option (ℕ → List ℕ)
unfolding in_palette
brush_pixels bpp input byte at zero pixels = some pixels
brush_pixels bpp input byte at (suc n) pixels = do
  entry ← in_palette bpp input (byte / 4 ^ n % 4)
  brush_pixels bpp input byte (at + 1) n (λ j. if j == at then entry else pixels j)

-- The rows below `y`, the highest first, each of two bytes from `in_index`.
unfoldable pub brush_rows : ℕ → List ℕ → ℕ → ℕ → (ℕ → List ℕ) → Option (ℕ → List ℕ)
unfolding brush_pixels
brush_rows bpp input zero in_index pixels = some pixels
brush_rows bpp input (suc y) in_index pixels = do
  left ← get_elem? input in_index
  pixels ← brush_pixels bpp input left (y * 8) 4 pixels
  right ← get_elem? input (in_index + 1)
  pixels ← brush_pixels bpp input right (y * 8 + 4) 4 pixels
  brush_rows bpp input y (in_index + 2) pixels

-- What stands in memory, pixel by pixel.
abbrev pub flatten : (ℕ → List ℕ) → ℕ → ℕ → List ℕ
flatten pixels j zero = []
flatten pixels j (suc n) = pixels j ++ flatten pixels (j + 1) n

unfoldable pub process_compressed_8x8_brush_data : ℕ → List ℕ → Option (List ℕ)
unfolding brush_rows
process_compressed_8x8_brush_data bpp input = do
  pixels ← brush_rows bpp input 8 0 (λ j. [])
  some (flatten pixels 0 64)

module _ (fresh : ℕ → ℕ) where
  -- A brush of two colours: the rows come from the bottom.
  unfoldable pub mono_brush : ℕ → Stream → Option (List ℕ × Stream)
  mono_brush size s =
      if size == 8
      then (do (rows, s) ← in_uint8a s 8; some (reverse rows, s))
      else some (window fresh 0 8, s)

  -- A brush of colours, compressed or not.
  unfoldable pub colour_brush : ℕ → ℕ → Stream → Option (List ℕ × Stream)
  unfolding process_compressed_8x8_brush_data bytes_at
  colour_brush bpp size s =
      if size == 16 + 4 * bpp
      then (do
        comp_brush ← bytes_at s s.p (16 + 4 * bpp)
        bytes ← process_compressed_8x8_brush_data bpp comp_brush
        some (bytes, in_uint8s s (16 + 4 * bpp)))
      else in_uint8a s (64 * bpp)

  -- cache_put_brush_data of a new brush.
  abbrev pub put_brush : ℕ → ℕ → ℕ → List ℕ → Stream → Session → Work
  put_brush colour_code cache_idx size bytes s e = (
    record e {
      s = s;
      w = record (e.w) {
        caches =
            cache_put_brush_data e.w.caches colour_code cache_idx
              (record { colour_code = colour_code; data_size = size; data' = some bytes });
      };
    },
    [],
  )

  -- A brush of 8 by 8 pixels.
  unfoldable pub put_brush_of : ℕ → ℕ → ℕ → Stream → Session → Option Work
  unfolding mono_brush colour_brush
  put_brush_of colour_code cache_idx size s e =
      if colour_code == 1
      then (do (bytes, s) ← mono_brush size s; some (put_brush 1 cache_idx 8 bytes s e))
      else if leb 3 colour_code && leb colour_code 6
      then (do
        let bpp = colour_code - 2
        (bytes, s) ← colour_brush bpp size s
        some (put_brush colour_code cache_idx (64 * bpp) bytes s e))
      else some (record e { s = s }, [])

  unfoldable pub process_brushcache : Session → Option Work
  unfolding put_brush_of
  process_brushcache e = do
    (cache_idx, s) ← in_uint8 e.s
    (colour_code, s) ← in_uint8 s
    (width, s) ← in_uint8 s
    (height, s) ← in_uint8 s
    (type, s) ← in_uint8 s
    (size, s) ← in_uint8 s
    if width == 8 && height == 8
        then put_brush_of colour_code cache_idx size s e
        else some (record e { s = s }, [])
