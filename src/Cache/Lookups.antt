-- ===== src/Cache/Lookups.antt =====
-- What the lookups of cache.c find after a store.
use app_network_rdesktop.Base.{ℕ, ◌<◌, ◌≡◌, ◌==◌, ◌&&◌, if◌then◌else◌, Option, none, some, arith}
use app_network_rdesktop.Cache.{
  Caches, Fontglyph, cache_get_font, cache_put_font, cache_get_cursor, cache_put_cursor,
  fontcache_fonts, fontcache_characters, cursorcache_cells,
}

-- What cache_get_font answers for a glyph in its place.
abbrev pub glyph_answer : Fontglyph → Option Fontglyph
glyph_answer glyph = if glyph.pixmap == 0 then none else some glyph

-- For every font and character: after cache_put_font of a glyph for a place of the font cache,
-- cache_get_font finds that glyph there (unless its pixmap is NULL) and what it found before
-- everywhere else.
cache_get_font-cache_put_font :
    (c : Caches) (font character font' character' : ℕ) (glyph : Fontglyph)
    → font < fontcache_fonts
    → character < fontcache_characters
    → cache_get_font (cache_put_font c font character glyph) font' character' ≡ (
        if (font' == font) && (character' == character)
        then glyph_answer glyph
        else cache_get_font c font' character')
unfolding cache_get_font cache_put_font
cache_get_font-cache_put_font c font character font' character' glyph f h = ground arith

-- For every index: after cache_put_cursor of a cursor for a cell of the cursor cache,
-- cache_get_cursor finds that cursor there (unless it is NULL) and what it found before everywhere
-- else.
cache_get_cursor-cache_put_cursor :
    (c : Caches) (idx idx' cursor : ℕ)
    → idx < cursorcache_cells
    → cache_get_cursor (cache_put_cursor c idx cursor) idx' ≡ (
        if idx' == idx
        then (if cursor == 0 then none else some cursor)
        else cache_get_cursor c idx')
unfolding cache_get_cursor cache_put_cursor
cache_get_cursor-cache_put_cursor c idx idx' cursor h = ground arith
