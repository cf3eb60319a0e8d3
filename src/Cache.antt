-- ===== src/Cache.antt =====
-- cache.c: the font, text, desktop, cursor and brush caches. Handles are numbers, 0 is NULL. Data
-- that the caches hold is a list of bytes, `none` for a NULL pointer. The caches are arrays that the
-- model has as functions; an index outside an array is checked by the code or is a fault here.
pub mod Runs
pub mod Bitmaps
pub mod Desktop
pub mod Handles
pub mod DesktopRows
pub mod Lookups
pub mod Order
pub mod Recency
use app_network_rdesktop.Base.{
  ℕ, zero, suc, ◌+◌, ◌-◌, ◌*◌, ◌%◌, ◌^◌, Bool, true, false, ltb, leb, ◌==◌, ◌&&◌, if◌then◌else◌,
  List, [], ◌∷◌, Option, none, some, length, take, drop,
}

-- `a[i] = v` of a table that is a function.
abbrev pub put {ℓ} : {A : Type ℓ} → (ℕ → A) → ℕ → A → ℕ → A
put table i v j = if j == i then v else table j

-- `a[i][k] = v`.
abbrev pub put_at {ℓ} : {A : Type ℓ} → (ℕ → ℕ → A) → ℕ → ℕ → A → ℕ → ℕ → A
put_at table i k v = put table i (put (table i) k v)

-- FONTGLYPH.
pub record Fontglyph : Type 0 where
  pub offset : ℕ
  pub baseline : ℕ
  pub width : ℕ
  pub height : ℕ
  pub pixmap : ℕ

-- BRUSHDATA.
pub record Brushdata : Type 0 where
  pub colour_code : ℕ
  pub data_size : ℕ
  pub data' : Option (List ℕ)

-- The caches behind one process, and the handles given back to the user interface, newest first.
pub record Caches : Type 0 where
  pub g_fontcache : ℕ → ℕ → Fontglyph
  pub g_textcache : ℕ → Option (List ℕ)
  pub g_cursorcache : ℕ → ℕ
  pub g_brushcache : ℕ → ℕ → Brushdata
  pub destroyed_glyphs : List ℕ
  pub destroyed_cursors : List ℕ

abbrev pub fontcache_fonts : ℕ
fontcache_fonts = 12

abbrev pub fontcache_characters : ℕ
fontcache_characters = 256

abbrev pub cursorcache_cells : ℕ
cursorcache_cells = 0x20

abbrev pub brushcache_cells : ℕ
brushcache_cells = 64

-- `if (old != NULL) ui_destroy_...(old)`.
abbrev pub give_back : ℕ → List ℕ → List ℕ
give_back handle gone = if handle == 0 then gone else handle ∷ gone

unfoldable pub cache_get_font : Caches → ℕ → ℕ → Option Fontglyph
cache_get_font c font character =
    if ltb font fontcache_fonts && ltb character fontcache_characters
    then (let glyph = c.g_fontcache font character in
        if glyph.pixmap == 0 then none else some glyph)
    else none

unfoldable pub cache_put_font : Caches → ℕ → ℕ → Fontglyph → Caches
cache_put_font c font character glyph =
    if ltb font fontcache_fonts && ltb character fontcache_characters
    then record c {
      g_fontcache = put_at c.g_fontcache font character glyph;
      destroyed_glyphs = give_back (c.g_fontcache font character).pixmap c.destroyed_glyphs;
    }
    else c

-- A uint8 is always an index of the text cache.
unfoldable pub cache_get_text : Caches → ℕ → Option (List ℕ)
cache_get_text c cache_id = c.g_textcache cache_id

-- The caller has `length` bytes at `data`.
unfoldable pub cache_put_text : Caches → ℕ → List ℕ → Caches
cache_put_text c cache_id data' = record c { g_textcache = put c.g_textcache cache_id (some data') }

unfoldable pub cache_get_cursor : Caches → ℕ → Option ℕ
cache_get_cursor c cache_idx =
    if ltb cache_idx cursorcache_cells
    then (let cursor = c.g_cursorcache cache_idx in if cursor == 0 then none else some cursor)
    else none

unfoldable pub cache_put_cursor : Caches → ℕ → ℕ → Caches
cache_put_cursor c cache_idx cursor =
    if ltb cache_idx cursorcache_cells
    then record c {
      g_cursorcache = put c.g_cursorcache cache_idx cursor;
      destroyed_cursors = give_back (c.g_cursorcache cache_idx) c.destroyed_cursors;
    }
    else c

-- Table 0 is for the two colour brushes, table 1 for the others.
abbrev pub brush_table : ℕ → ℕ
brush_table colour_code = if colour_code == 1 then 0 else 1

unfoldable pub cache_get_brush_data : Caches → ℕ → ℕ → Option Brushdata
cache_get_brush_data c colour_code idx =
    if ltb idx brushcache_cells then some (c.g_brushcache (brush_table colour_code) idx) else none

unfoldable pub cache_put_brush_data : Caches → ℕ → ℕ → Brushdata → Caches
cache_put_brush_data c colour_code idx brush_data =
    if ltb idx brushcache_cells
    then record c { g_brushcache = put_at c.g_brushcache (brush_table colour_code) idx brush_data }
    else c
