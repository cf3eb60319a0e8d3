-- ===== src/Updates.antt =====
-- rdp.c: the updates of the screen and of the pointer that the server sends.
-- The user interface's results and pstcache_load_bitmap are in Surroundings of Orders/Handlers.
pub mod Parts
pub mod Pdus
pub mod Machine
pub mod Loop
pub mod Endless
pub mod Framing
pub mod Runs
use app_network_rdesktop.Base.{
  ℕ, zero, suc, ◌+◌, ◌-◌, ◌*◌, ◌/◌, ◌%◌, ◌^◌, Bool, true, false, has, ◌==◌, min, if◌then◌else◌,
  List, [], ◌∷◌, ◌++◌, Option, none, some, ◌>>=◌, take, drop, window,
}
use app_network_rdesktop.Stream.{Stream, in_uint8, in_uint8s, in_uint16_le, s_check}
use app_network_rdesktop.Cache.{cache_get_cursor, cache_put_cursor}
use app_network_rdesktop.Orders.Draw.{
  Ui, World, ui_move_pointer, ui_create_cursor, ui_set_cursor, ui_set_null_cursor, ui_paint_bitmap,
  ui_create_colourmap, ui_set_colourmap, ui_begin_update, ui_end_update,
}
use app_network_rdesktop.Orders.Dispatch.{Session, Work, process_orders}
use app_network_rdesktop.Orders.Pictures.{invert_rows, decompressed, bytes_at}
use app_network_rdesktop.Orders.Handlers.{Surroundings, handle_secondary}

-- `x = MIN(x, width - 1)` of a uint16.
abbrev pub inside_box : ℕ → ℕ → ℕ
inside_box x width = if width == 0 then 2 ^ 16 - 1 else min x (width - 1)

-- The entries of a palette, each as red, green and blue.
unfoldable pub palette_entries : ℕ → Stream → Option (List (ℕ × ℕ × ℕ) × Stream)
palette_entries zero s = some ([], s)
palette_entries (suc n) s = do
  (red, s) ← in_uint8 s
  (green, s) ← in_uint8 s
  (blue, s) ← in_uint8 s
  (entries, s) ← palette_entries n s
  some ((red, green, blue) ∷ entries, s)

unfoldable pub process_cached_pointer_pdu : Session → Option Work
process_cached_pointer_pdu e = do
  (cache_idx, s) ← in_uint16_le e.s
  some (
    record e { s = s },
    ui_set_cursor (elim (cache_get_cursor e.w.caches cache_idx) [ none ↦ 0 | some cursor ↦ cursor ])
        ∷ [],
  )

unfoldable pub process_system_pointer_pdu : Session → Option Work
process_system_pointer_pdu e = do
  (system_pointer_type, s) ← in_uint16_le e.s
  some (record e { s = s }, if system_pointer_type == 0 then ui_set_null_cursor ∷ [] else [])

-- A position, if the packet was long enough for it.
unfoldable pub move_pointer : Session → Option Work
move_pointer e = do
  (x, s) ← in_uint16_le e.s
  (y, s) ← in_uint16_le s
  some (record e { s = s }, if s_check s then ui_move_pointer x y ∷ [] else [])

module _ (c : Surroundings) where
  unfoldable pub process_colour_pointer_common : ℕ → Session → Option Work
  unfolding bytes_at
  process_colour_pointer_common bpp e = do
    (cache_idx, s) ← in_uint16_le e.s
    (x, s) ← in_uint16_le s
    (y, s) ← in_uint16_le s
    (width, s) ← in_uint16_le s
    (height, s) ← in_uint16_le s
    (masklen, s) ← in_uint16_le s
    (datalen, s) ← in_uint16_le s
    data' ← bytes_at s s.p datalen
    mask ← bytes_at s (s.p + datalen) masklen
    let x' = inside_box x width
    let y' = inside_box y height
    let cursor = c.create_cursor x' y' width height mask data' bpp
    let caches = cache_put_cursor e.w.caches cache_idx cursor
    some (
      record e {
        s = in_uint8s (in_uint8s s datalen) masklen;
        w = record (e.w) { caches = caches };
      },
      ui_create_cursor x' y' width height mask data' bpp ∷ ui_set_cursor cursor ∷ [],
    )

  unfoldable pub process_new_pointer_pdu : Session → Option Work
  unfolding process_colour_pointer_common
  process_new_pointer_pdu e = do
    (xor_bpp, s) ← in_uint16_le e.s
    process_colour_pointer_common xor_bpp (record e { s = s })

  abbrev pub process_colour_pointer_pdu : Session → Option Work
  process_colour_pointer_pdu e = process_colour_pointer_common 24 e

  unfoldable pub pointer_message : ℕ → Session → Option Work
  unfolding process_new_pointer_pdu process_system_pointer_pdu process_cached_pointer_pdu
      move_pointer
  pointer_message message_type e =
      if message_type == 3
      then move_pointer e
      else if message_type == 6
      then process_colour_pointer_pdu e
      else if message_type == 7
      then process_cached_pointer_pdu e
      else if message_type == 1
      then process_system_pointer_pdu e
      else if message_type == 8
      then process_new_pointer_pdu e
      else some (e, [])

  unfoldable pub process_pointer_pdu : Session → Option Work
  unfolding pointer_message
  process_pointer_pdu e = do
    (message_type, s) ← in_uint16_le e.s
    pointer_message message_type (record e { s = in_uint8s s 2 })

  unfoldable pub process_palette : Session → Option Work
  unfolding palette_entries
  process_palette e = do
    (ncolours, s) ← in_uint16_le (in_uint8s (e.s) 2)
    (map, s) ← palette_entries ncolours (in_uint8s s 2)
    some (
      record e { s = s },
      ui_create_colourmap map ∷ ui_set_colourmap (c.create_colourmap map) ∷ [],
    )

  -- The data of a bitmap update that is compressed: its size stands in front of it, or is `bufsize`.
  unfoldable pub update_size : ℕ → ℕ → Stream → Option (ℕ × Stream)
  update_size compress bufsize s =
      if has compress 0x400
      then some (bufsize, s)
      else (do (size, s) ← in_uint16_le (in_uint8s s 2); some (size, in_uint8s s 4))

  -- What is painted, if anything, and the stream behind it.
  unfoldable pub update_data : ℕ → ℕ → ℕ → ℕ → ℕ → Stream → Option (Option (List ℕ) × Stream)
  unfolding update_size
  update_data compress bufsize width height bpp s =
      if compress == 0
      then (do
        inverted ← invert_rows s s.p height (width * bpp) height 0 c.fresh
        some (
          some (window inverted 0 (height * (width * bpp))),
          in_uint8s s (height * (width * bpp)),
        ))
      else (do
        (size, s) ← update_size compress bufsize s
        bytes ← decompressed c.fresh s s.p width height size bpp
        some (bytes, in_uint8s s size))

  unfoldable pub process_bitmap_update : Session → Option Work
  unfolding update_data
  process_bitmap_update e = do
    (left, s) ← in_uint16_le e.s
    (top, s) ← in_uint16_le s
    (right, s) ← in_uint16_le s
    (bottom, s) ← in_uint16_le s
    (width, s) ← in_uint16_le s
    (height, s) ← in_uint16_le s
    (bpp, s) ← in_uint16_le s
    (compress, s) ← in_uint16_le s
    (bufsize, s) ← in_uint16_le s
    let cx = (right + 2 ^ 16 - left + 1) % 2 ^ 16
    let cy = (bottom + 2 ^ 16 - top + 1) % 2 ^ 16
    (painted, s) ← update_data compress bufsize width height ((bpp + 7) / 8) s
    some (
      record e { s = s },
      elim painted [
        | none ↦ []
        | some bytes ↦ ui_paint_bitmap left top cx cy width height bytes ∷ []
      ],
    )

  unfoldable pub bitmap_updates : ℕ → Session → Option Work
  unfolding process_bitmap_update
  bitmap_updates zero e = some (e, [])
  bitmap_updates (suc n) e = do
    (e, calls) ← process_bitmap_update e
    (e, more) ← bitmap_updates n e
    some (e, calls ++ more)

  unfoldable pub process_bitmap_updates : Session → Option Work
  unfolding bitmap_updates
  process_bitmap_updates e = do
    (num_updates, s) ← in_uint16_le e.s
    bitmap_updates num_updates (record e { s = s })

  -- process_orders with the handlers of secondary orders.
  abbrev pub orders_of : ℕ → Session → Option Work
  orders_of count e = process_orders c.load c.persistent (handle_secondary c) count e

  -- The switch over the types of update.
  unfoldable pub update_message : ℕ → Session → Option Work
  unfolding process_bitmap_updates process_palette
  update_message update_type e =
      if update_type == 0
      then (do
        (count, s) ← in_uint16_le (in_uint8s (e.s) 2)
        orders_of count (record e { s = in_uint8s s 2 }))
      else if update_type == 1
      then process_bitmap_updates e
      else if update_type == 2
      then process_palette e
      else some (e, [])

  unfoldable pub process_update_pdu : Session → Option Work
  unfolding update_message
  process_update_pdu e = do
    (update_type, s) ← in_uint16_le e.s
    (e, calls) ← update_message update_type (record e { s = s })
    some (e, ui_begin_update ∷ calls ++ ui_end_update ∷ [])
