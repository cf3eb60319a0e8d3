-- ===== src/Cache/Runs.antt =====
-- cache.c at single stores.
use app_network_rdesktop.Base.{
  refl, ℕ, ◌≡◌, ◌≢◌, false, true, List, [], ◌∷◌, none, some, arith, window, if◌then◌else◌, ◌==◌,
}
use app_network_rdesktop.Cache.{Caches, Fontglyph}
use app_network_rdesktop.Cache.Desktop.{cache_get_desktop, cache_put_desktop}
use app_network_rdesktop.Cache.DesktopRows.{cache_get_desktop-cache_put_desktop}
use app_network_rdesktop.Cache.Bitmaps.{Bmpcache, give_back, cache_get_bitmap, cache_put_bitmap}
use app_network_rdesktop.Cache.Order.{Listed}
use app_network_rdesktop.Cache.Recency.{holds, cache_put_bitmap-Listed}
use app_network_rdesktop.Cache.Handles.{cache_get_bitmap-held, cache_get_bitmap-cache_put_bitmap}

abbrev no_glyph : Fontglyph
no_glyph = record { offset = 0; baseline = 0; width = 0; height = 0; pixmap = 0 }

abbrev letter : Fontglyph
letter = record { offset = 0; baseline = 9; width = 8; height = 12; pixmap = 77 }

abbrev empty : Caches
empty = record {
  g_fontcache = λ font character. no_glyph;
  g_textcache = λ id. none;
  g_cursorcache = λ idx. 0;
  g_brushcache = λ code idx. record { colour_code = 0; data_size = 0; data' = none };
  destroyed_glyphs = [];
  destroyed_cursors = [];
}

-- Two rows of two bytes, in lines of three.
abbrev picture : List ℕ
picture = 1 ∷ 2 ∷ 0 ∷ 3 ∷ 4 ∷ 0 ∷ []

cache_get_desktop-cache_put_desktop_example :
    (after : ℕ → ℕ) × (cache_put_desktop (λ j. 0) 100 2 2 3 1 picture ≡ some after)
    × (cache_get_desktop 100 2 2 1 ≡ some 100)
    × (window after 100 4 ≡ 1 ∷ 2 ∷ 3 ∷ 4 ∷ [])
cache_get_desktop-cache_put_desktop_example =
    cache_get_desktop-cache_put_desktop (λ j. 0) 100 2 2 3 1 picture (omega arith) (omega arith)
      (omega arith)

-- One bitmap, at cell 5.
abbrev one_bitmap : Bmpcache
one_bitmap = record {
  bitmap = λ j. if j == 5 then 900 else 0;
  previous = λ j. none;
  next = λ j. none;
  lru = some 5;
  mru = some 5;
  count = 1;
  volatile_bc = 0;
}

cache_get_bitmap-held_example :
    ((cache_get_bitmap (λ idx c. none) true 5 one_bitmap).0 ≡ 900)
    × ((cache_get_bitmap (λ idx c. none) true 5 one_bitmap).1.bitmap ≡ one_bitmap.bitmap)
cache_get_bitmap-held_example =
    cache_get_bitmap-held (λ idx c. none) true 5 one_bitmap (omega arith) (omega arith)

cache_get_bitmap-cache_put_bitmap_example :
    (after : Bmpcache) × (cache_put_bitmap false 5 901 one_bitmap ≡ some (after, give_back 900))
    × ((cache_get_bitmap (λ idx c. none) false 5 after).0 ≡ 901)
    × ((j : ℕ) → j ≢ 5 → after.bitmap j ≡ one_bitmap.bitmap j)
cache_get_bitmap-cache_put_bitmap_example =
    cache_get_bitmap-cache_put_bitmap (λ idx c. none) 5 901 one_bitmap (omega arith) (omega arith)

one_bitmap-Listed : Listed one_bitmap (5 ∷ [])
one_bitmap-Listed = record {
  first = refl;
  last = refl;
  linked = (refl, refl, tt);
  distinct = (tt, tt);
  counted = refl;
}

cache_put_bitmap-Listed_example :
    (after : Bmpcache) × (cache_put_bitmap true 7 901 one_bitmap ≡ some (after, []))
    × Listed after (5 ∷ 7 ∷ [])
    × ((j : ℕ) → after.bitmap j ≡ holds one_bitmap 7 901 none j)
    × (after.bitmap 7 ≡ 901)
cache_put_bitmap-Listed_example =
    cache_put_bitmap-Listed one_bitmap 7 901 (5 ∷ []) one_bitmap-Listed (omega arith, tt)
      (omega arith) refl
