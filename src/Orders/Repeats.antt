-- ===== src/Orders/Repeats.antt =====
-- An order that brings no field repeats the last one of its kind.
use app_network_rdesktop.Base.{
  ℕ, ◌+◌, ◌-◌, ◌*◌, ◌/◌, ◌%◌, ◌==◌, ◌≡◌, refl, Bool, true, false, if◌then◌else◌, List, [], ◌∷◌,
  Option, none, some, ◌>>=◌, Option-cases, Bool-cases, inl, inr, take, arith,
}
use app_network_rdesktop.Cache.{Caches}
use app_network_rdesktop.Cache.Bitmaps.{Bmpcache}
use app_network_rdesktop.Orders.State.{RdpOrderState, PolygonOrder, Polygon2Order, PolylineOrder}
use app_network_rdesktop.Orders.Points.{order_points}
use app_network_rdesktop.Orders.Fields.{rdp_parse_brush, rdp_parse_pen, setup_brush}
use app_network_rdesktop.Orders.Blits.{
  parse_destblt, parse_patblt, parse_screenblt, parse_line, parse_rect, parse_desksave,
  parse_memblt, parse_triblt,
}
use app_network_rdesktop.Orders.Shapes.{
  parse_polygon, parse_polygon2, parse_polyline, parse_ellipse, parse_ellipse2, parse_text2,
}
use app_network_rdesktop.Orders.Draw.{
  Ui, World, ui_destblt, ui_patblt, ui_screenblt, ui_line, ui_rect, ui_desktop_save,
  ui_desktop_restore, ui_memblt, ui_triblt, ui_polygon, ui_polyline, ui_ellipse, ui_draw_text,
  bad_rop2, rop2_unchecked, minus, extent, find_bitmap, draw_points, draw_memblt, draw_triblt,
  draw_polygon, draw_polygon2, draw_polyline,
}
use app_network_rdesktop.Orders.Dispatch.{
  OrderType, destblt, patblt, screenblt, line, rect, desksave, memblt, triblt, polygon, polygon2,
  polyline, ellipse, ellipse2, text2, Session, Work, process_primary,
}

-- The orders whose points come as data.
abbrev pub has_points : OrderType → Bool
has_points polygon = true
has_points polygon2 = true
has_points polyline = true
has_points _ = false

-- A figure from points: none with an opcode out of range, or when the points do not parse.
abbrev pub figure : Bool → Option (Option (List (ℕ × ℕ))) → (List (ℕ × ℕ) → Ui) → List Ui
figure true points call = []
figure false none call = []
figure false (some none) call = []
figure false (some (some points)) call = call points ∷ []

figure_lem :
    (bad : Bool) (o : Option (Option (List (ℕ × ℕ)))) (call : List (ℕ × ℕ) → Ui) (calls : List Ui)
    → (if bad then some [] else (o >>= λ points. some (draw_points call points))) ≡ some calls
    → calls ≡ figure bad o call
figure_lem true o call calls e = cc
figure_lem false none call calls e = absurd (grind arith)
figure_lem false (some none) call calls e = cc
figure_lem false (some (some points)) call calls e = cc

polygon_figure :
    (o : PolygonOrder) (calls : List Ui)
    → draw_polygon o ≡ some calls
    → calls
      ≡ figure
          (bad_rop2 o.opcode)
          (order_points o.x o.y o.npoints o.data' o.datasize)
          (λ points. ui_polygon (o.opcode - 1) o.fillmode points none o.fgcolour)
unfolding draw_polygon
polygon_figure o calls e = figure_lem (bad_rop2 o.opcode) _ _ calls e

polygon2_figure :
    (c : Caches) (o : Polygon2Order) (calls : List Ui)
    → draw_polygon2 c o ≡ some calls
    → calls
      ≡ figure (bad_rop2 o.opcode) (order_points o.x o.y o.npoints o.data' o.datasize) (λ points.
        ui_polygon
          (o.opcode - 1)
          o.fillmode
          points
          (some (setup_brush c o.brush, o.bgcolour))
          o.fgcolour)
unfolding draw_polygon2
polygon2_figure c o calls e = figure_lem (bad_rop2 o.opcode) _ _ calls e

polyline_figure :
    (o : PolylineOrder) (calls : List Ui)
    → draw_polyline o ≡ some calls
    → calls
      ≡ figure (bad_rop2 o.opcode) (order_points o.x o.y o.lines o.data' o.datasize) (λ points.
        ui_polyline (o.opcode - 1) points (record { style = 0; width = 0; colour = o.fgcolour }))
unfolding draw_polyline
polyline_figure o calls e = figure_lem (bad_rop2 o.opcode) _ _ calls e

module _ (load : ℕ → ℕ → Bmpcache → Option Bmpcache) (persistent : ℕ → Bool)
    (handle : ℕ → ℕ → Session → Option Work) where
  -- The bitmap that an order of a bitmap draws with, 0 if there is none.
  abbrev pub picture_of : ℕ → ℕ → World → ℕ
  picture_of id idx w = (find_bitmap load persistent id idx w).0

  -- What the last order of a type draws, by the fields that are kept of it.
  abbrev pub last_drawn : OrderType → RdpOrderState → World → List Ui
  last_drawn destblt k w = let o = k.destblt in ui_destblt (o.opcode % 16) o.x o.y o.cx o.cy ∷ []
  last_drawn patblt k w =
      let o = k.patblt in
      ui_patblt (o.opcode % 4 + o.opcode / 16 % 4 * 4) o.x o.y o.cx o.cy
        (setup_brush w.caches o.brush) o.bgcolour o.fgcolour
      ∷ []
  last_drawn screenblt k w =
      let o = k.screenblt in ui_screenblt (o.opcode % 16) o.x o.y o.cx o.cy o.srcx o.srcy ∷ []
  last_drawn line k w =
      let o = k.line in
      if bad_rop2 o.opcode
      then []
      else ui_line (o.opcode - 1) o.startx o.starty o.endx o.endy o.pen ∷ []
  last_drawn rect k w = let o = k.rect in ui_rect o.x o.y o.cx o.cy o.colour ∷ []
  last_drawn desksave k w =
      let o = k.desksave in
      if o.action == 0
      then ui_desktop_save o.offset o.left o.top (extent o.right o.left) (extent o.bottom o.top)
        ∷ []
      else ui_desktop_restore o.offset o.left o.top (extent o.right o.left) (extent o.bottom o.top)
        ∷ []
  last_drawn memblt k w =
      let o = k.memblt in
      let h = picture_of o.cache_id o.cache_idx w in
      if h == 0 then [] else ui_memblt (o.opcode % 16) o.x o.y o.cx o.cy h o.srcx o.srcy ∷ []
  last_drawn triblt k w =
      let o = k.triblt in
      let h = picture_of o.cache_id o.cache_idx w in
      if h == 0
      then []
      else ui_triblt o.opcode o.x o.y o.cx o.cy h o.srcx o.srcy (setup_brush w.caches o.brush)
          o.bgcolour o.fgcolour
        ∷ []
  last_drawn polygon k w =
      let o = k.polygon in
      figure (bad_rop2 o.opcode) (order_points o.x o.y o.npoints o.data' o.datasize)
        λ points. ui_polygon (o.opcode - 1) o.fillmode points none o.fgcolour
  last_drawn polygon2 k w =
      let o = k.polygon2 in
      figure (bad_rop2 o.opcode) (order_points o.x o.y o.npoints o.data' o.datasize) λ points.
        ui_polygon (o.opcode - 1) o.fillmode points
          (some (setup_brush w.caches o.brush, o.bgcolour)) o.fgcolour
  last_drawn polyline k w =
      let o = k.polyline in
      figure (bad_rop2 o.opcode) (order_points o.x o.y o.lines o.data' o.datasize) λ points.
        ui_polyline (o.opcode - 1) points (record { style = 0; width = 0; colour = o.fgcolour })
  last_drawn ellipse k w =
      let o = k.ellipse in
      ui_ellipse (rop2_unchecked o.opcode) o.fillmode o.left o.top (minus o.right o.left)
        (minus o.bottom o.top) none o.fgcolour
      ∷ []
  last_drawn ellipse2 k w =
      let o = k.ellipse2 in
      ui_ellipse (rop2_unchecked o.opcode) o.fillmode o.left o.top (minus o.right o.left)
        (minus o.bottom o.top) (some (setup_brush w.caches o.brush, o.bgcolour)) o.fgcolour
      ∷ []
  last_drawn text2 k w =
      let o = k.text2 in
      ui_draw_text o (rop2_unchecked o.opcode) (minus o.clipright o.clipleft)
        (minus o.clipbottom o.cliptop) (minus o.boxright o.boxleft) (minus o.boxbottom o.boxtop)
        (setup_brush w.caches o.brush) (take o.length o.text)
      ∷ []

  memblt_drawn :
      (k : RdpOrderState) (w : World)
      → (draw_memblt load persistent k.memblt w).0 ≡ last_drawn memblt k w
  memblt_drawn k w = elim (Bool-cases (picture_of k.memblt.cache_id k.memblt.cache_idx w == 0)) [
    | inl f ↦ rw f refl
    | inr f ↦ rw f refl
  ]

  triblt_drawn :
      (k : RdpOrderState) (w : World)
      → (draw_triblt load persistent k.triblt w).0 ≡ last_drawn triblt k w
  triblt_drawn k w = elim (Bool-cases (picture_of k.triblt.cache_id k.triblt.cache_idx w == 0)) [
    | inl f ↦ rw f refl
    | inr f ↦ rw f refl
  ]

  -- The input and the orders kept are as before, and the last order is drawn; only an order with points
  -- may fault.
  abbrev pub Repeats : OrderType → Session → Option Work → Type 0
  Repeats t e (some done) = (done.0.s ≡ e.s) × (done.0.os ≡ e.os) × (done.1 ≡ last_drawn t e.os e.w)
  Repeats t e none = has_points t ≡ true

  -- For every type of primary order, absolute or relative: an order that brings no field reads nothing,
  -- leaves the orders kept for every type as they are, and makes just the call of the user interface, if
  -- any, that the fields kept of the last order of its type say, with the brushes and bitmaps that the
  -- caches have now; only an order whose points come as data may fault.
  pub process_primary-Repeats :
      (t : OrderType) (delta : Bool) (e : Session)
      → Repeats t e (process_primary load persistent handle t 0 delta e)
  unfolding process_primary parse_destblt parse_patblt parse_screenblt parse_line parse_rect
      parse_desksave parse_memblt parse_triblt parse_polygon parse_polygon2 parse_polyline
      parse_ellipse parse_ellipse2 parse_text2 rdp_parse_brush rdp_parse_pen
  process_primary-Repeats destblt delta e = (refl, refl, refl)
  process_primary-Repeats patblt delta e = (refl, refl, refl)
  process_primary-Repeats screenblt delta e = (refl, refl, refl)
  process_primary-Repeats line delta e = (refl, refl, refl)
  process_primary-Repeats rect delta e = (refl, refl, refl)
  process_primary-Repeats desksave delta e = (refl, refl, refl)
  process_primary-Repeats memblt delta e = (refl, refl, memblt_drawn e.os e.w)
  process_primary-Repeats triblt delta e = (refl, refl, triblt_drawn e.os e.w)
  process_primary-Repeats polygon delta e = elim (Option-cases (draw_polygon e.os.polygon)) [
    | inl f ↦ rw f refl
    | inr (calls, f) ↦ rw f (refl, refl, polygon_figure e.os.polygon calls f)
  ]
  process_primary-Repeats polygon2 delta e =
      elim (Option-cases (draw_polygon2 e.w.caches e.os.polygon2)) [
        | inl f ↦ rw f refl
        | inr (calls, f) ↦ rw f (refl, refl, polygon2_figure e.w.caches e.os.polygon2 calls f)
      ]
  process_primary-Repeats polyline delta e = elim (Option-cases (draw_polyline e.os.polyline)) [
    | inl f ↦ rw f refl
    | inr (calls, f) ↦ rw f (refl, refl, polyline_figure e.os.polyline calls f)
  ]
  process_primary-Repeats ellipse delta e = (refl, refl, refl)
  process_primary-Repeats ellipse2 delta e = (refl, refl, refl)
  process_primary-Repeats text2 delta e = (refl, refl, refl)
