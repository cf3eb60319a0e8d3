-- ===== src/Orders/Shapes.antt =====
-- orders.c: how the orders for polygons, ellipses and text are read.
use app_network_rdesktop.Base.{ℕ, ◌/◌, ◌^◌, Bool, has, Option, some, ◌>>=◌}
use app_network_rdesktop.Stream.{Stream, in_uint8, in_uint16_le}
use app_network_rdesktop.Orders.Fields.{
  given, rdp_in_coord, rdp_in_colour, rdp_parse_brush, in_array,
}
use app_network_rdesktop.Orders.State.{
  PolygonOrder, Polygon2Order, PolylineOrder, EllipseOrder, Ellipse2Order, Text2Order,
}

unfoldable pub parse_polygon : ℕ → Bool → PolygonOrder → Stream → Option (PolygonOrder × Stream)
parse_polygon present delta os s = do
  (x, s) ← given (has present 0x01) (rdp_in_coord delta os.x) os.x s
  (y, s) ← given (has present 0x02) (rdp_in_coord delta os.y) os.y s
  (opcode, s) ← given (has present 0x04) in_uint8 os.opcode s
  (fillmode, s) ← given (has present 0x08) in_uint8 os.fillmode s
  (fgcolour, s) ← given (has present 0x10) rdp_in_colour os.fgcolour s
  (npoints, s) ← given (has present 0x20) in_uint8 os.npoints s
  ((datasize, data'), s) ← given (has present 0x40) (in_array os.data') (os.datasize, os.data') s
  some (
    record {
      x = x;
      y = y;
      opcode = opcode;
      fillmode = fillmode;
      fgcolour = fgcolour;
      npoints = npoints;
      datasize = datasize;
      data' = data';
    },
    s,
  )

unfoldable pub parse_polygon2 : ℕ → Bool → Polygon2Order → Stream → Option (Polygon2Order × Stream)
parse_polygon2 present delta os s = do
  (x, s) ← given (has present 0x01) (rdp_in_coord delta os.x) os.x s
  (y, s) ← given (has present 0x02) (rdp_in_coord delta os.y) os.y s
  (opcode, s) ← given (has present 0x04) in_uint8 os.opcode s
  (fillmode, s) ← given (has present 0x08) in_uint8 os.fillmode s
  (bgcolour, s) ← given (has present 0x10) rdp_in_colour os.bgcolour s
  (fgcolour, s) ← given (has present 0x20) rdp_in_colour os.fgcolour s
  (brush, s) ← rdp_parse_brush (present / 2 ^ 6) os.brush s
  (npoints, s) ← given (has present 0x800) in_uint8 os.npoints s
  ((datasize, data'), s) ← given (has present 0x1000) (in_array os.data') (os.datasize, os.data') s
  some (
    record {
      x = x;
      y = y;
      opcode = opcode;
      fillmode = fillmode;
      bgcolour = bgcolour;
      fgcolour = fgcolour;
      brush = brush;
      npoints = npoints;
      datasize = datasize;
      data' = data';
    },
    s,
  )

unfoldable pub parse_polyline : ℕ → Bool → PolylineOrder → Stream → Option (PolylineOrder × Stream)
parse_polyline present delta os s = do
  (x, s) ← given (has present 0x01) (rdp_in_coord delta os.x) os.x s
  (y, s) ← given (has present 0x02) (rdp_in_coord delta os.y) os.y s
  (opcode, s) ← given (has present 0x04) in_uint8 os.opcode s
  (fgcolour, s) ← given (has present 0x10) rdp_in_colour os.fgcolour s
  (lines, s) ← given (has present 0x20) in_uint8 os.lines s
  ((datasize, data'), s) ← given (has present 0x40) (in_array os.data') (os.datasize, os.data') s
  some (
    record {
      x = x;
      y = y;
      opcode = opcode;
      fgcolour = fgcolour;
      lines = lines;
      datasize = datasize;
      data' = data';
    },
    s,
  )

unfoldable pub parse_ellipse : ℕ → Bool → EllipseOrder → Stream → Option (EllipseOrder × Stream)
parse_ellipse present delta os s = do
  (left, s) ← given (has present 0x01) (rdp_in_coord delta os.left) os.left s
  (top, s) ← given (has present 0x02) (rdp_in_coord delta os.top) os.top s
  (right, s) ← given (has present 0x04) (rdp_in_coord delta os.right) os.right s
  (bottom, s) ← given (has present 0x08) (rdp_in_coord delta os.bottom) os.bottom s
  (opcode, s) ← given (has present 0x10) in_uint8 os.opcode s
  (fillmode, s) ← given (has present 0x20) in_uint8 os.fillmode s
  (fgcolour, s) ← given (has present 0x40) rdp_in_colour os.fgcolour s
  some (
    record {
      left = left;
      top = top;
      right = right;
      bottom = bottom;
      opcode = opcode;
      fillmode = fillmode;
      fgcolour = fgcolour;
    },
    s,
  )

unfoldable pub parse_ellipse2 : ℕ → Bool → Ellipse2Order → Stream → Option (Ellipse2Order × Stream)
parse_ellipse2 present delta os s = do
  (left, s) ← given (has present 0x01) (rdp_in_coord delta os.left) os.left s
  (top, s) ← given (has present 0x02) (rdp_in_coord delta os.top) os.top s
  (right, s) ← given (has present 0x04) (rdp_in_coord delta os.right) os.right s
  (bottom, s) ← given (has present 0x08) (rdp_in_coord delta os.bottom) os.bottom s
  (opcode, s) ← given (has present 0x10) in_uint8 os.opcode s
  (fillmode, s) ← given (has present 0x20) in_uint8 os.fillmode s
  (bgcolour, s) ← given (has present 0x40) rdp_in_colour os.bgcolour s
  (fgcolour, s) ← given (has present 0x80) rdp_in_colour os.fgcolour s
  (brush, s) ← rdp_parse_brush (present / 2 ^ 8) os.brush s
  some (
    record {
      left = left;
      top = top;
      right = right;
      bottom = bottom;
      opcode = opcode;
      fillmode = fillmode;
      bgcolour = bgcolour;
      fgcolour = fgcolour;
      brush = brush;
    },
    s,
  )

unfoldable pub parse_text2 : ℕ → Bool → Text2Order → Stream → Option (Text2Order × Stream)
parse_text2 present delta os s = do
  (font, s) ← given (has present 0x01) in_uint8 os.font s
  (flags, s) ← given (has present 0x02) in_uint8 os.flags s
  (opcode, s) ← given (has present 0x04) in_uint8 os.opcode s
  (mixmode, s) ← given (has present 0x08) in_uint8 os.mixmode s
  (fgcolour, s) ← given (has present 0x10) rdp_in_colour os.fgcolour s
  (bgcolour, s) ← given (has present 0x20) rdp_in_colour os.bgcolour s
  (clipleft, s) ← given (has present 0x40) in_uint16_le os.clipleft s
  (cliptop, s) ← given (has present 0x80) in_uint16_le os.cliptop s
  (clipright, s) ← given (has present 0x100) in_uint16_le os.clipright s
  (clipbottom, s) ← given (has present 0x200) in_uint16_le os.clipbottom s
  (boxleft, s) ← given (has present 0x400) in_uint16_le os.boxleft s
  (boxtop, s) ← given (has present 0x800) in_uint16_le os.boxtop s
  (boxright, s) ← given (has present 0x1000) in_uint16_le os.boxright s
  (boxbottom, s) ← given (has present 0x2000) in_uint16_le os.boxbottom s
  (brush, s) ← rdp_parse_brush (present / 2 ^ 14) os.brush s
  (x, s) ← given (has present 0x80000) in_uint16_le os.x s
  (y, s) ← given (has present 0x100000) in_uint16_le os.y s
  ((length, text), s) ← given (has present 0x200000) (in_array os.text) (os.length, os.text) s
  some (
    record {
      font = font;
      flags = flags;
      opcode = opcode;
      mixmode = mixmode;
      fgcolour = fgcolour;
      bgcolour = bgcolour;
      clipleft = clipleft;
      cliptop = cliptop;
      clipright = clipright;
      clipbottom = clipbottom;
      boxleft = boxleft;
      boxtop = boxtop;
      boxright = boxright;
      boxbottom = boxbottom;
      brush = brush;
      x = x;
      y = y;
      length = length;
      text = text;
    },
    s,
  )
