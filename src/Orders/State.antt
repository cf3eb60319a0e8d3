-- ===== src/Orders/State.antt =====
-- orders.h: what the server draws with, as it was sent last. A sint16 is kept as its bit pattern, a
-- number below 2^16; the other fields are unsigned as in the program.
use app_network_rdesktop.Base.{ℕ, List, Option, none, replicate}
use app_network_rdesktop.Cache.{Brushdata}

-- BOUNDS.
pub record Bounds : Type 0 where
  pub left : ℕ
  pub top : ℕ
  pub right : ℕ
  pub bottom : ℕ

-- PEN.
pub record Pen : Type 0 where
  pub style : ℕ
  pub width : ℕ
  pub colour : ℕ

-- BRUSH; `pattern0` is pattern[0], `pattern1` holds the seven bytes from pattern[1].
pub record Brush : Type 0 where
  pub xorigin : ℕ
  pub yorigin : ℕ
  pub style : ℕ
  pub pattern0 : ℕ
  pub pattern1 : List ℕ
  pub bd : Option Brushdata

-- DESTBLT_ORDER.
pub record DestbltOrder : Type 0 where
  pub x : ℕ
  pub y : ℕ
  pub cx : ℕ
  pub cy : ℕ
  pub opcode : ℕ

-- PATBLT_ORDER.
pub record PatbltOrder : Type 0 where
  pub x : ℕ
  pub y : ℕ
  pub cx : ℕ
  pub cy : ℕ
  pub opcode : ℕ
  pub bgcolour : ℕ
  pub fgcolour : ℕ
  pub brush : Brush

-- SCREENBLT_ORDER.
pub record ScreenbltOrder : Type 0 where
  pub x : ℕ
  pub y : ℕ
  pub cx : ℕ
  pub cy : ℕ
  pub opcode : ℕ
  pub srcx : ℕ
  pub srcy : ℕ

-- LINE_ORDER.
pub record LineOrder : Type 0 where
  pub mixmode : ℕ
  pub startx : ℕ
  pub starty : ℕ
  pub endx : ℕ
  pub endy : ℕ
  pub bgcolour : ℕ
  pub opcode : ℕ
  pub pen : Pen

-- RECT_ORDER.
pub record RectOrder : Type 0 where
  pub x : ℕ
  pub y : ℕ
  pub cx : ℕ
  pub cy : ℕ
  pub colour : ℕ

-- DESKSAVE_ORDER.
pub record DesksaveOrder : Type 0 where
  pub offset : ℕ
  pub left : ℕ
  pub top : ℕ
  pub right : ℕ
  pub bottom : ℕ
  pub action : ℕ

-- MEMBLT_ORDER.
pub record MembltOrder : Type 0 where
  pub cache_id : ℕ
  pub colour_table : ℕ
  pub x : ℕ
  pub y : ℕ
  pub cx : ℕ
  pub cy : ℕ
  pub opcode : ℕ
  pub srcx : ℕ
  pub srcy : ℕ
  pub cache_idx : ℕ

-- TRIBLT_ORDER.
pub record TribltOrder : Type 0 where
  pub cache_id : ℕ
  pub colour_table : ℕ
  pub x : ℕ
  pub y : ℕ
  pub cx : ℕ
  pub cy : ℕ
  pub opcode : ℕ
  pub srcx : ℕ
  pub srcy : ℕ
  pub bgcolour : ℕ
  pub fgcolour : ℕ
  pub brush : Brush
  pub cache_idx : ℕ
  pub unknown : ℕ

-- POLYGON_ORDER.
pub record PolygonOrder : Type 0 where
  pub x : ℕ
  pub y : ℕ
  pub opcode : ℕ
  pub fillmode : ℕ
  pub fgcolour : ℕ
  pub npoints : ℕ
  pub datasize : ℕ
  pub data' : List ℕ

-- POLYGON2_ORDER.
pub record Polygon2Order : Type 0 where
  pub x : ℕ
  pub y : ℕ
  pub opcode : ℕ
  pub fillmode : ℕ
  pub bgcolour : ℕ
  pub fgcolour : ℕ
  pub brush : Brush
  pub npoints : ℕ
  pub datasize : ℕ
  pub data' : List ℕ

-- POLYLINE_ORDER.
pub record PolylineOrder : Type 0 where
  pub x : ℕ
  pub y : ℕ
  pub opcode : ℕ
  pub fgcolour : ℕ
  pub lines : ℕ
  pub datasize : ℕ
  pub data' : List ℕ

-- ELLIPSE_ORDER.
pub record EllipseOrder : Type 0 where
  pub left : ℕ
  pub top : ℕ
  pub right : ℕ
  pub bottom : ℕ
  pub opcode : ℕ
  pub fillmode : ℕ
  pub fgcolour : ℕ

-- ELLIPSE2_ORDER.
pub record Ellipse2Order : Type 0 where
  pub left : ℕ
  pub top : ℕ
  pub right : ℕ
  pub bottom : ℕ
  pub opcode : ℕ
  pub fillmode : ℕ
  pub bgcolour : ℕ
  pub fgcolour : ℕ
  pub brush : Brush

-- TEXT2_ORDER.
pub record Text2Order : Type 0 where
  pub font : ℕ
  pub flags : ℕ
  pub opcode : ℕ
  pub mixmode : ℕ
  pub fgcolour : ℕ
  pub bgcolour : ℕ
  pub clipleft : ℕ
  pub cliptop : ℕ
  pub clipright : ℕ
  pub clipbottom : ℕ
  pub boxleft : ℕ
  pub boxtop : ℕ
  pub boxright : ℕ
  pub boxbottom : ℕ
  pub brush : Brush
  pub x : ℕ
  pub y : ℕ
  pub length : ℕ
  pub text : List ℕ

-- RDP_ORDER_STATE.
pub record RdpOrderState : Type 0 where
  pub order_type : ℕ
  pub bounds : Bounds
  pub destblt : DestbltOrder
  pub patblt : PatbltOrder
  pub screenblt : ScreenbltOrder
  pub line : LineOrder
  pub rect : RectOrder
  pub desksave : DesksaveOrder
  pub memblt : MembltOrder
  pub triblt : TribltOrder
  pub polygon : PolygonOrder
  pub polygon2 : Polygon2Order
  pub polyline : PolylineOrder
  pub ellipse : EllipseOrder
  pub ellipse2 : Ellipse2Order
  pub text2 : Text2Order

abbrev pub no_brush : Brush
no_brush = record {
  xorigin = 0;
  yorigin = 0;
  style = 0;
  pattern0 = 0;
  pattern1 = replicate 7 0;
  bd = none;
}

-- What reset_order_state leaves in g_order_state: zeros, and RDP_ORDER_PATBLT.
abbrev pub reset_order_state : RdpOrderState
reset_order_state = record {
  order_type = 1;
  bounds = record { left = 0; top = 0; right = 0; bottom = 0 };
  destblt = record { x = 0; y = 0; cx = 0; cy = 0; opcode = 0 };
  patblt = record {
    x = 0;
    y = 0;
    cx = 0;
    cy = 0;
    opcode = 0;
    bgcolour = 0;
    fgcolour = 0;
    brush = no_brush;
  };
  screenblt = record { x = 0; y = 0; cx = 0; cy = 0; opcode = 0; srcx = 0; srcy = 0 };
  line = record {
    mixmode = 0;
    startx = 0;
    starty = 0;
    endx = 0;
    endy = 0;
    bgcolour = 0;
    opcode = 0;
    pen = record { style = 0; width = 0; colour = 0 };
  };
  rect = record { x = 0; y = 0; cx = 0; cy = 0; colour = 0 };
  desksave = record { offset = 0; left = 0; top = 0; right = 0; bottom = 0; action = 0 };
  memblt = record {
    cache_id = 0;
    colour_table = 0;
    x = 0;
    y = 0;
    cx = 0;
    cy = 0;
    opcode = 0;
    srcx = 0;
    srcy = 0;
    cache_idx = 0;
  };
  triblt = record {
    cache_id = 0;
    colour_table = 0;
    x = 0;
    y = 0;
    cx = 0;
    cy = 0;
    opcode = 0;
    srcx = 0;
    srcy = 0;
    bgcolour = 0;
    fgcolour = 0;
    brush = no_brush;
    cache_idx = 0;
    unknown = 0;
  };
  polygon = record {
    x = 0;
    y = 0;
    opcode = 0;
    fillmode = 0;
    fgcolour = 0;
    npoints = 0;
    datasize = 0;
    data' = replicate 256 0;
  };
  polygon2 = record {
    x = 0;
    y = 0;
    opcode = 0;
    fillmode = 0;
    bgcolour = 0;
    fgcolour = 0;
    brush = no_brush;
    npoints = 0;
    datasize = 0;
    data' = replicate 256 0;
  };
  polyline = record {
    x = 0;
    y = 0;
    opcode = 0;
    fgcolour = 0;
    lines = 0;
    datasize = 0;
    data' = replicate 256 0;
  };
  ellipse = record {
    left = 0;
    top = 0;
    right = 0;
    bottom = 0;
    opcode = 0;
    fillmode = 0;
    fgcolour = 0;
  };
  ellipse2 = record {
    left = 0;
    top = 0;
    right = 0;
    bottom = 0;
    opcode = 0;
    fillmode = 0;
    bgcolour = 0;
    fgcolour = 0;
    brush = no_brush;
  };
  text2 = record {
    font = 0;
    flags = 0;
    opcode = 0;
    mixmode = 0;
    fgcolour = 0;
    bgcolour = 0;
    clipleft = 0;
    cliptop = 0;
    clipright = 0;
    clipbottom = 0;
    boxleft = 0;
    boxtop = 0;
    boxright = 0;
    boxbottom = 0;
    brush = no_brush;
    x = 0;
    y = 0;
    length = 0;
    text = replicate 256 0;
  };
}
