-- ===== src/Orders/Blits.antt =====
-- orders.c: how the orders for blits, lines and rectangles are read. Each field keeps its old
-- value unless its bit of `present` is set.
use app_network_rdesktop.Base.{ℕ, ◌/◌, ◌^◌, Bool, has, Option, some, ◌>>=◌}
use app_network_rdesktop.Stream.{Stream, in_uint8, in_uint16_le, in_uint32_le}
use app_network_rdesktop.Orders.Fields.{
  given, rdp_in_coord, rdp_in_colour, rdp_parse_brush, rdp_parse_pen, in_colour_byte,
}
use app_network_rdesktop.Orders.State.{
  DestbltOrder, PatbltOrder, ScreenbltOrder, LineOrder, RectOrder, DesksaveOrder, MembltOrder,
  TribltOrder,
}

unfoldable pub parse_destblt : ℕ → Bool → DestbltOrder → Stream → Option (DestbltOrder × Stream)
parse_destblt present delta os s = do
  (x, s) ← given (has present 0x01) (rdp_in_coord delta os.x) os.x s
  (y, s) ← given (has present 0x02) (rdp_in_coord delta os.y) os.y s
  (cx, s) ← given (has present 0x04) (rdp_in_coord delta os.cx) os.cx s
  (cy, s) ← given (has present 0x08) (rdp_in_coord delta os.cy) os.cy s
  (opcode, s) ← given (has present 0x10) in_uint8 os.opcode s
  some (record { x = x; y = y; cx = cx; cy = cy; opcode = opcode }, s)

unfoldable pub parse_patblt : ℕ → Bool → PatbltOrder → Stream → Option (PatbltOrder × Stream)
parse_patblt present delta os s = do
  (x, s) ← given (has present 0x01) (rdp_in_coord delta os.x) os.x s
  (y, s) ← given (has present 0x02) (rdp_in_coord delta os.y) os.y s
  (cx, s) ← given (has present 0x04) (rdp_in_coord delta os.cx) os.cx s
  (cy, s) ← given (has present 0x08) (rdp_in_coord delta os.cy) os.cy s
  (opcode, s) ← given (has present 0x10) in_uint8 os.opcode s
  (bgcolour, s) ← given (has present 0x20) rdp_in_colour os.bgcolour s
  (fgcolour, s) ← given (has present 0x40) rdp_in_colour os.fgcolour s
  (brush, s) ← rdp_parse_brush (present / 2 ^ 7) os.brush s
  some (
    record {
      x = x;
      y = y;
      cx = cx;
      cy = cy;
      opcode = opcode;
      bgcolour = bgcolour;
      fgcolour = fgcolour;
      brush = brush;
    },
    s,
  )

unfoldable pub parse_screenblt :
    ℕ → Bool → ScreenbltOrder → Stream → Option (ScreenbltOrder × Stream)
parse_screenblt present delta os s = do
  (x, s) ← given (has present 0x01) (rdp_in_coord delta os.x) os.x s
  (y, s) ← given (has present 0x02) (rdp_in_coord delta os.y) os.y s
  (cx, s) ← given (has present 0x04) (rdp_in_coord delta os.cx) os.cx s
  (cy, s) ← given (has present 0x08) (rdp_in_coord delta os.cy) os.cy s
  (opcode, s) ← given (has present 0x10) in_uint8 os.opcode s
  (srcx, s) ← given (has present 0x20) (rdp_in_coord delta os.srcx) os.srcx s
  (srcy, s) ← given (has present 0x40) (rdp_in_coord delta os.srcy) os.srcy s
  some (record { x = x; y = y; cx = cx; cy = cy; opcode = opcode; srcx = srcx; srcy = srcy }, s)

unfoldable pub parse_line : ℕ → Bool → LineOrder → Stream → Option (LineOrder × Stream)
parse_line present delta os s = do
  (mixmode, s) ← given (has present 0x01) in_uint16_le os.mixmode s
  (startx, s) ← given (has present 0x02) (rdp_in_coord delta os.startx) os.startx s
  (starty, s) ← given (has present 0x04) (rdp_in_coord delta os.starty) os.starty s
  (endx, s) ← given (has present 0x08) (rdp_in_coord delta os.endx) os.endx s
  (endy, s) ← given (has present 0x10) (rdp_in_coord delta os.endy) os.endy s
  (bgcolour, s) ← given (has present 0x20) rdp_in_colour os.bgcolour s
  (opcode, s) ← given (has present 0x40) in_uint8 os.opcode s
  (pen, s) ← rdp_parse_pen (present / 2 ^ 7) os.pen s
  some (
    record {
      mixmode = mixmode;
      startx = startx;
      starty = starty;
      endx = endx;
      endy = endy;
      bgcolour = bgcolour;
      opcode = opcode;
      pen = pen;
    },
    s,
  )

unfoldable pub parse_rect : ℕ → Bool → RectOrder → Stream → Option (RectOrder × Stream)
parse_rect present delta os s = do
  (x, s) ← given (has present 0x01) (rdp_in_coord delta os.x) os.x s
  (y, s) ← given (has present 0x02) (rdp_in_coord delta os.y) os.y s
  (cx, s) ← given (has present 0x04) (rdp_in_coord delta os.cx) os.cx s
  (cy, s) ← given (has present 0x08) (rdp_in_coord delta os.cy) os.cy s
  (colour, s) ← given (has present 0x10) (in_colour_byte 0 os.colour) os.colour s
  (colour, s) ← given (has present 0x20) (in_colour_byte 8 colour) colour s
  (colour, s) ← given (has present 0x40) (in_colour_byte 16 colour) colour s
  some (record { x = x; y = y; cx = cx; cy = cy; colour = colour }, s)

unfoldable pub parse_desksave : ℕ → Bool → DesksaveOrder → Stream → Option (DesksaveOrder × Stream)
parse_desksave present delta os s = do
  (offset, s) ← given (has present 0x01) in_uint32_le os.offset s
  (left, s) ← given (has present 0x02) (rdp_in_coord delta os.left) os.left s
  (top, s) ← given (has present 0x04) (rdp_in_coord delta os.top) os.top s
  (right, s) ← given (has present 0x08) (rdp_in_coord delta os.right) os.right s
  (bottom, s) ← given (has present 0x10) (rdp_in_coord delta os.bottom) os.bottom s
  (action, s) ← given (has present 0x20) in_uint8 os.action s
  some (
    record {
      offset = offset;
      left = left;
      top = top;
      right = right;
      bottom = bottom;
      action = action;
    },
    s,
  )

unfoldable pub parse_memblt : ℕ → Bool → MembltOrder → Stream → Option (MembltOrder × Stream)
parse_memblt present delta os s = do
  (cache_id, s) ← given (has present 0x01) in_uint8 os.cache_id s
  (colour_table, s) ← given (has present 0x01) in_uint8 os.colour_table s
  (x, s) ← given (has present 0x02) (rdp_in_coord delta os.x) os.x s
  (y, s) ← given (has present 0x04) (rdp_in_coord delta os.y) os.y s
  (cx, s) ← given (has present 0x08) (rdp_in_coord delta os.cx) os.cx s
  (cy, s) ← given (has present 0x10) (rdp_in_coord delta os.cy) os.cy s
  (opcode, s) ← given (has present 0x20) in_uint8 os.opcode s
  (srcx, s) ← given (has present 0x40) (rdp_in_coord delta os.srcx) os.srcx s
  (srcy, s) ← given (has present 0x80) (rdp_in_coord delta os.srcy) os.srcy s
  (cache_idx, s) ← given (has present 0x100) in_uint16_le os.cache_idx s
  some (
    record {
      cache_id = cache_id;
      colour_table = colour_table;
      x = x;
      y = y;
      cx = cx;
      cy = cy;
      opcode = opcode;
      srcx = srcx;
      srcy = srcy;
      cache_idx = cache_idx;
    },
    s,
  )

unfoldable pub parse_triblt : ℕ → Bool → TribltOrder → Stream → Option (TribltOrder × Stream)
parse_triblt present delta os s = do
  (cache_id, s) ← given (has present 0x01) in_uint8 os.cache_id s
  (colour_table, s) ← given (has present 0x01) in_uint8 os.colour_table s
  (x, s) ← given (has present 0x02) (rdp_in_coord delta os.x) os.x s
  (y, s) ← given (has present 0x04) (rdp_in_coord delta os.y) os.y s
  (cx, s) ← given (has present 0x08) (rdp_in_coord delta os.cx) os.cx s
  (cy, s) ← given (has present 0x10) (rdp_in_coord delta os.cy) os.cy s
  (opcode, s) ← given (has present 0x20) in_uint8 os.opcode s
  (srcx, s) ← given (has present 0x40) (rdp_in_coord delta os.srcx) os.srcx s
  (srcy, s) ← given (has present 0x80) (rdp_in_coord delta os.srcy) os.srcy s
  (bgcolour, s) ← given (has present 0x100) rdp_in_colour os.bgcolour s
  (fgcolour, s) ← given (has present 0x200) rdp_in_colour os.fgcolour s
  (brush, s) ← rdp_parse_brush (present / 2 ^ 10) os.brush s
  (cache_idx, s) ← given (has present 0x8000) in_uint16_le os.cache_idx s
  (unknown, s) ← given (has present 0x10000) in_uint16_le os.unknown s
  some (
    record {
      cache_id = cache_id;
      colour_table = colour_table;
      x = x;
      y = y;
      cx = cx;
      cy = cy;
      opcode = opcode;
      srcx = srcx;
      srcy = srcy;
      bgcolour = bgcolour;
      fgcolour = fgcolour;
      brush = brush;
      cache_idx = cache_idx;
      unknown = unknown;
    },
    s,
  )
