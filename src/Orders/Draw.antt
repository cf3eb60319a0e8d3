-- ===== src/Orders/Draw.antt =====
-- orders.c: what an order draws. The calls of the user interface and of pstcache.c are values; an int is kept as its
-- 32-bit pattern.
use app_network_rdesktop.Base.{
  ℕ, ◌+◌, ◌-◌, ◌*◌, ◌/◌, ◌%◌, ◌^◌, Bool, true, false, ltb, leb, ◌==◌, ◌||◌, if◌then◌else◌, List, [],
  ◌∷◌, Option, none, some, ◌>>=◌, take,
}
use app_network_rdesktop.Cache.{Caches}
use app_network_rdesktop.Cache.Bitmaps.{Bmpcache, Effect, cache_get_bitmap}
use app_network_rdesktop.Orders.Fields.{setup_brush}
use app_network_rdesktop.Orders.Points.{order_points}
use app_network_rdesktop.Orders.State.{
  Pen, Brush, DestbltOrder, PatbltOrder, ScreenbltOrder, LineOrder, RectOrder, DesksaveOrder,
  MembltOrder, TribltOrder, PolygonOrder, Polygon2Order, PolylineOrder, EllipseOrder, Ellipse2Order,
  Text2Order,
}

pub data Ui : Type 0 where
  ui_set_clip : ℕ → ℕ → ℕ → ℕ → Ui
  ui_reset_clip : Ui
  ui_destblt : ℕ → ℕ → ℕ → ℕ → ℕ → Ui
  ui_patblt : ℕ → ℕ → ℕ → ℕ → ℕ → Brush → ℕ → ℕ → Ui
  ui_screenblt : ℕ → ℕ → ℕ → ℕ → ℕ → ℕ → ℕ → Ui
  ui_line : ℕ → ℕ → ℕ → ℕ → ℕ → Pen → Ui
  ui_rect : ℕ → ℕ → ℕ → ℕ → ℕ → Ui
  ui_desktop_save ui_desktop_restore : ℕ → ℕ → ℕ → ℕ → ℕ → Ui
  ui_memblt : ℕ → ℕ → ℕ → ℕ → ℕ → ℕ → ℕ → ℕ → Ui
  ui_triblt : ℕ → ℕ → ℕ → ℕ → ℕ → ℕ → ℕ → ℕ → Brush → ℕ → ℕ → Ui
  ui_polygon : ℕ → ℕ → List (ℕ × ℕ) → Option (Brush × ℕ) → ℕ → Ui
  ui_polyline : ℕ → List (ℕ × ℕ) → Pen → Ui
  ui_ellipse : ℕ → ℕ → ℕ → ℕ → ℕ → ℕ → Option (Brush × ℕ) → ℕ → Ui
  ui_draw_text : Text2Order → ℕ → ℕ → ℕ → ℕ → ℕ → Brush → List ℕ → Ui
  ui_create_bitmap ui_create_glyph : ℕ → ℕ → List ℕ → Ui
  ui_create_colourmap : List (ℕ × ℕ × ℕ) → Ui
  ui_set_colourmap : ℕ → Ui
  cache_effect : Effect → Ui
  ui_begin_update ui_end_update ui_bell ui_set_null_cursor ui_resize_window : Ui
  ui_move_pointer : ℕ → ℕ → Ui
  ui_create_cursor : ℕ → ℕ → ℕ → ℕ → List ℕ → List ℕ → ℕ → Ui
  ui_set_cursor : ℕ → Ui
  ui_paint_bitmap : ℕ → ℕ → ℕ → ℕ → ℕ → ℕ → List ℕ → Ui
  pstcache_save_bitmap : ℕ → ℕ → List ℕ → ℕ → ℕ → ℕ → List ℕ → Ui

-- What drawing reads and changes: the caches of cache.c.
pub record World : Type 0 where
  pub caches : Caches
  pub bitmaps : ℕ → Bmpcache

abbrev pub rop2_s : ℕ → ℕ
rop2_s rop3 = rop3 % 16

abbrev pub rop2_p : ℕ → ℕ
rop2_p rop3 = rop3 % 4 + rop3 / 16 % 4 * 4

-- A sint16 as an int.
abbrev pub as_int : ℕ → ℕ
as_int v = if leb (2 ^ 15) v then v + (2 ^ 32 - 2 ^ 16) else v

-- `a - b` of two sint16.
abbrev pub minus : ℕ → ℕ → ℕ
minus a b = (as_int a + 2 ^ 32 - as_int b) % 2 ^ 32

-- `a - b + 1` of two sint16.
abbrev pub extent : ℕ → ℕ → ℕ
extent a b = (as_int a + 2 ^ 32 - as_int b + 1) % 2 ^ 32

abbrev pub bad_rop2 : ℕ → Bool
bad_rop2 opcode = ltb opcode 0x01 || ltb 0x10 opcode

-- `opcode - 1` where the code does not check the opcode.
abbrev pub rop2_unchecked : ℕ → ℕ
rop2_unchecked opcode = (opcode + 2 ^ 32 - 1) % 2 ^ 32

abbrev pub draw_destblt : DestbltOrder → List Ui
draw_destblt os = ui_destblt (rop2_s os.opcode) os.x os.y os.cx os.cy ∷ []

abbrev pub draw_patblt : Caches → PatbltOrder → List Ui
draw_patblt c os =
    ui_patblt (rop2_p os.opcode) os.x os.y os.cx os.cy (setup_brush c os.brush) os.bgcolour
      os.fgcolour
    ∷ []

abbrev pub draw_screenblt : ScreenbltOrder → List Ui
draw_screenblt os = ui_screenblt (rop2_s os.opcode) os.x os.y os.cx os.cy os.srcx os.srcy ∷ []

abbrev pub draw_line : LineOrder → List Ui
draw_line os =
    if bad_rop2 os.opcode
    then []
    else ui_line (os.opcode - 1) os.startx os.starty os.endx os.endy os.pen ∷ []

abbrev pub draw_rect : RectOrder → List Ui
draw_rect os = ui_rect os.x os.y os.cx os.cy os.colour ∷ []

abbrev pub draw_desksave : DesksaveOrder → List Ui
draw_desksave os =
    let width = extent os.right os.left in
    let height = extent os.bottom os.top in
    if os.action == 0
    then ui_desktop_save os.offset os.left os.top width height ∷ []
    else ui_desktop_restore os.offset os.left os.top width height ∷ []

-- `load` is pstcache_load_bitmap, `persistent` is IS_PERSISTENT.
module _ (load : ℕ → ℕ → Bmpcache → Option Bmpcache) (persistent : ℕ → Bool) where
  -- cache_get_bitmap, for every cache id.
  unfoldable pub find_bitmap : ℕ → ℕ → World → ℕ × World
  find_bitmap id idx w = elim (ltb id 3) [
    | false ↦ (0, w)
    | true ↦
        let (handle, c) = cache_get_bitmap (load id) (persistent id) idx (w.bitmaps id) in
        (handle, record w { bitmaps = λ j. if j == id then c else w.bitmaps j })
  ]

  abbrev pub draw_memblt : MembltOrder → World → List Ui × World
  draw_memblt os w =
      let found = find_bitmap os.cache_id os.cache_idx w in
      if found.0 == 0 then ([], found.1) else (
        ui_memblt (rop2_s os.opcode) os.x os.y os.cx os.cy found.0 os.srcx os.srcy ∷ [],
        found.1,
      )

  abbrev pub draw_triblt : TribltOrder → World → List Ui × World
  draw_triblt os w =
      let found = find_bitmap os.cache_id os.cache_idx w in
      if found.0 == 0 then ([], found.1) else (
        ui_triblt os.opcode os.x os.y os.cx os.cy found.0 os.srcx os.srcy
              (setup_brush w.caches os.brush) os.bgcolour os.fgcolour
            ∷ [],
        found.1,
      )

-- Points that do not parse are reported and not drawn.
abbrev pub draw_points : (List (ℕ × ℕ) → Ui) → Option (List (ℕ × ℕ)) → List Ui
draw_points call none = []
draw_points call (some points) = call points ∷ []

unfoldable pub draw_polygon : PolygonOrder → Option (List Ui)
draw_polygon os = if bad_rop2 os.opcode then some [] else (do
  points ← order_points os.x os.y os.npoints os.data' os.datasize
  some (
      draw_points (λ points. ui_polygon (os.opcode - 1) os.fillmode points none os.fgcolour)
        points))

unfoldable pub draw_polygon2 : Caches → Polygon2Order → Option (List Ui)
draw_polygon2 c os = if bad_rop2 os.opcode then some [] else (do
  points ← order_points os.x os.y os.npoints os.data' os.datasize
  some (
      draw_points
        (λ points.
          ui_polygon (os.opcode - 1) os.fillmode points (some (setup_brush c os.brush, os.bgcolour))
            os.fgcolour)
        points))

unfoldable pub draw_polyline : PolylineOrder → Option (List Ui)
draw_polyline os = if bad_rop2 os.opcode then some [] else (do
  points ← order_points os.x os.y os.lines os.data' os.datasize
  some (
      draw_points
        (λ points.
          ui_polyline (os.opcode - 1) points
            (record { style = 0; width = 0; colour = os.fgcolour }))
        points))

abbrev pub draw_ellipse : EllipseOrder → List Ui
draw_ellipse os =
    ui_ellipse (rop2_unchecked os.opcode) os.fillmode os.left os.top (minus os.right os.left)
      (minus os.bottom os.top) none os.fgcolour
    ∷ []

abbrev pub draw_ellipse2 : Caches → Ellipse2Order → List Ui
draw_ellipse2 c os =
    ui_ellipse (rop2_unchecked os.opcode) os.fillmode os.left os.top (minus os.right os.left)
      (minus os.bottom os.top) (some (setup_brush c os.brush, os.bgcolour)) os.fgcolour
    ∷ []

-- ui_draw_text takes the order's own fields, the opcode less 1, and the sizes of its two boxes.
abbrev pub draw_text2 : Caches → Text2Order → List Ui
draw_text2 c os =
    ui_draw_text os (rop2_unchecked os.opcode) (minus os.clipright os.clipleft)
      (minus os.clipbottom os.cliptop) (minus os.boxright os.boxleft) (minus os.boxbottom os.boxtop)
      (setup_brush c os.brush) (take os.length os.text)
    ∷ []
