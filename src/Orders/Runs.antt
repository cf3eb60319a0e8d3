-- ===== src/Orders/Runs.antt =====
-- orders.c at single orders.
use app_network_rdesktop.Base.{
  ℕ, ◌≡◌, refl, false, true, List, [], ◌∷◌, ◌++◌, Option, none, some, arith, replicate, length,
  take, drop,
}
use app_network_rdesktop.Stream.{of_bytes, in_uint8s}
use app_network_rdesktop.Cache.{Caches}
use app_network_rdesktop.Cache.Bitmaps.{Bmpcache}
use app_network_rdesktop.Orders.State.{DestbltOrder, reset_order_state}
use app_network_rdesktop.Orders.Blits.{parse_destblt}
use app_network_rdesktop.Orders.Points.{
  order_points, read_points, point_flags, point_delta, parse_delta,
}
use app_network_rdesktop.Orders.Dispatch.{
  Session, Work, polyline, process_primary, process_secondary_order,
}
use app_network_rdesktop.Orders.Brushes.{process_compressed_8x8_brush_data}
use app_network_rdesktop.Orders.BrushPixels.{process_compressed_8x8_brush_data-entry}
use app_network_rdesktop.Orders.Pictures.{process_raw_bmpcache}
use app_network_rdesktop.Orders.BottomUp.{Put, process_raw_bmpcache_lem}
use app_network_rdesktop.Orders.Repeats.{Repeats, process_primary-Repeats}
use app_network_rdesktop.Orders.Secondary.{process_secondary_order_lem}
use app_network_rdesktop.Orders.PointBounds.{Within, Counted, order_points-Within}
use app_network_rdesktop.Orders.Coordinates.{on, back, parse_destblt-absolute, parse_destblt-delta}

abbrev no_bitmaps : Bmpcache
no_bitmaps = record {
  bitmap = λ j. 0;
  previous = λ j. none;
  next = λ j. none;
  lru = none;
  mru = none;
  count = 0;
  volatile_bc = 0;
}

abbrev no_caches : Caches
no_caches = record {
  g_fontcache =
      λ font character. record { offset = 0; baseline = 0; width = 0; height = 0; pixmap = 0 };
  g_textcache = λ id. none;
  g_cursorcache = λ idx. 0;
  g_brushcache = λ code idx. record { colour_code = 0; data_size = 0; data' = none };
  destroyed_glyphs = [];
  destroyed_cursors = [];
}

-- A session at the start, with the given bytes to read.
abbrev session : List ℕ → Session
session bytes = record {
  s = of_bytes bytes;
  os = reset_order_state;
  w = record { caches = no_caches; bitmaps = λ id. no_bitmaps };
}

abbrev no_handler : ℕ → ℕ → Session → Option Work
no_handler type flags e = some (e, [])

process_primary-Repeats_example :
    Repeats
      (λ id idx c. none)
      (λ id. false)
      no_handler
      polyline
      (session (7 ∷ []))
      (process_primary
        (λ id idx c. none)
        (λ id. false)
        no_handler
        polyline
        0
        false
        (session (7 ∷ [])))
process_primary-Repeats_example =
    process_primary-Repeats (λ id idx c. none) (λ id. false) no_handler polyline false
      (session (7 ∷ []))

-- A header of length 3 - 7, which a server sends for an order of 3 bytes behind the header.
abbrev secondary : Session
secondary = session (0xfc ∷ 0xff ∷ 0 ∷ 0 ∷ 9 ∷ 1 ∷ 2 ∷ 3 ∷ [])

process_secondary_order_lem_example :
    process_secondary_order (λ id idx c. none) (λ id. false) no_handler secondary
    ≡ some (
      record secondary {
        s = record (of_bytes (0xfc ∷ 0xff ∷ 0 ∷ 0 ∷ 9 ∷ 1 ∷ 2 ∷ 3 ∷ [])) { p = 8 };
      },
      [],
    )
process_secondary_order_lem_example =
    process_secondary_order_lem (λ id idx c. none) (λ id. false) no_handler secondary 3 0 0 9
      (1 ∷ 2 ∷ 3 ∷ []) (omega arith) refl

order_points-Within_example :
    Within (Counted 3) (order_points 10 20 2 (0 ∷ 1 ∷ 2 ∷ 3 ∷ 4 ∷ replicate 251 0) 5)
order_points-Within_example =
    order_points-Within (0 ∷ 1 ∷ 2 ∷ 3 ∷ 4 ∷ replicate 251 0) refl 10 20 2 5 (omega arith)
      (omega arith)

abbrev square : DestbltOrder
square = record { x = 10; y = 300; cx = 64; cy = 64; opcode = 0x0c }

parse_destblt-absolute_example :
    parse_destblt 0x1f false reset_order_state.destblt
      (of_bytes (10 ∷ 0 ∷ 44 ∷ 1 ∷ 64 ∷ 0 ∷ 64 ∷ 0 ∷ 0x0c ∷ []))
    ≡ some (square, in_uint8s (of_bytes (10 ∷ 0 ∷ 44 ∷ 1 ∷ 64 ∷ 0 ∷ 64 ∷ 0 ∷ 0x0c ∷ [])) 9)
parse_destblt-absolute_example =
    parse_destblt-absolute square reset_order_state.destblt
      (of_bytes (10 ∷ 0 ∷ 44 ∷ 1 ∷ 64 ∷ 0 ∷ 64 ∷ 0 ∷ 0x0c ∷ [])) [] refl

parse_destblt-delta_example :
    parse_destblt 0x1f true square (of_bytes (1 ∷ 255 ∷ 0 ∷ 0 ∷ 5 ∷ []))
    ≡ some (
      record { x = 11; y = 299; cx = 64; cy = 64; opcode = 5 },
      in_uint8s (of_bytes (1 ∷ 255 ∷ 0 ∷ 0 ∷ 5 ∷ [])) 5,
    )
parse_destblt-delta_example =
    parse_destblt-delta square (of_bytes (1 ∷ 255 ∷ 0 ∷ 0 ∷ 5 ∷ [])) (on 1) (back 1) (on 0) (on 0) 5
      [] (omega arith) (omega arith, omega arith) (omega arith) (omega arith) refl

-- 255 bytes of data, of which the last points are differences of two bytes: the last point is read
-- over the end of the array.
order_points_overrun : order_points 0 0 61 (replicate 18 0 ++ replicate 238 0x80) 255 ≡ none
unfolding order_points read_points point_flags point_delta parse_delta
order_points_overrun = refl

-- Sixteen bytes of pixels, all of the entry 1, and a palette of four bytes.
abbrev striped : List ℕ
striped = replicate 16 0x55 ++ (10 ∷ 20 ∷ 30 ∷ 40 ∷ [])

process_compressed_8x8_brush_data-entry_example :
    (out : List ℕ) × (process_compressed_8x8_brush_data 1 striped ≡ some out)
    × (length out ≡ 64)
    × (take 1 (drop 29 out) ≡ 20 ∷ [])
process_compressed_8x8_brush_data-entry_example =
    process_compressed_8x8_brush_data-entry 1 striped 5 3 0x55 (omega arith) (omega arith)
      (omega arith) refl

-- A raw bitmap of two rows of two pixels, for the cell 3 of the cache 1.
abbrev raw_bitmap : Session
raw_bitmap = record {
  s = of_bytes (1 ∷ 0 ∷ 2 ∷ 2 ∷ 8 ∷ 4 ∷ 0 ∷ 3 ∷ 0 ∷ 1 ∷ 2 ∷ 3 ∷ 4 ∷ []);
  os = reset_order_state;
  w = record { caches = no_caches; bitmaps = λ id. no_bitmaps };
}

process_raw_bmpcache_lem_example :
    Put raw_bitmap 1 3 2 2 13 77
      (3 ∷ 4 ∷ 1 ∷ 2 ∷ [])
      (process_raw_bmpcache (λ id. false) (λ w h bytes. 77) (λ j. 0) raw_bitmap)
process_raw_bmpcache_lem_example =
    process_raw_bmpcache_lem (λ id. false) (λ w h bytes. 77) (λ j. 0) raw_bitmap 1 0 2 2 8 4 0 3 0
      (1 ∷ 2 ∷ 3 ∷ 4 ∷ []) refl (omega arith) (omega arith) (omega arith) (omega arith) refl
