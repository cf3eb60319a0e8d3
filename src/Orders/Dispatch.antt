-- ===== src/Orders/Dispatch.antt =====
-- orders.c: process_orders, which reads orders one after the other and sends each to its handler.
use app_network_rdesktop.Base.{
  ℕ, zero, suc, ◌+◌, ◌-◌, ◌^◌, Bool, true, false, has, ltb, leb, ◌==◌, if◌then◌else◌, List, [], ◌∷◌,
  ◌++◌, Option, none, some, ◌>>=◌,
}
use app_network_rdesktop.Stream.{Stream, in_uint8, in_uint16_le}
use app_network_rdesktop.Cache.Bitmaps.{Bmpcache}
use app_network_rdesktop.Orders.State.{RdpOrderState, Bounds}
use app_network_rdesktop.Orders.Fields.{
  rdp_in_present, rdp_parse_bounds, rdp_order_standard, rdp_order_secondary, rdp_order_bounds,
  rdp_order_change, rdp_order_delta, rdp_order_lastbounds,
}
use app_network_rdesktop.Orders.Blits.{
  parse_destblt, parse_patblt, parse_screenblt, parse_line, parse_rect, parse_desksave,
  parse_memblt, parse_triblt,
}
use app_network_rdesktop.Orders.Shapes.{
  parse_polygon, parse_polygon2, parse_polyline, parse_ellipse, parse_ellipse2, parse_text2,
}
use app_network_rdesktop.Orders.Draw.{
  Ui, ui_set_clip, ui_reset_clip, World, extent, draw_destblt, draw_patblt, draw_screenblt,
  draw_line, draw_rect, draw_desksave, draw_memblt, draw_triblt, draw_polygon, draw_polygon2,
  draw_polyline, draw_ellipse, draw_ellipse2, draw_text2,
}

-- RDP_ORDER_TYPE.
pub data OrderType : Type 0 where
  destblt patblt screenblt line rect desksave memblt triblt polygon polygon2 polyline ellipse
        ellipse2 text2 :
      OrderType

-- The cases of the switch; `none` is its default.
abbrev pub order_type_of : ℕ → Option OrderType
order_type_of v =
    if v == 0
    then some destblt
    else if v == 1
    then some patblt
    else if v == 2
    then some screenblt
    else if v == 9
    then some line
    else if v == 10
    then some rect
    else if v == 11
    then some desksave
    else if v == 13
    then some memblt
    else if v == 14
    then some triblt
    else if v == 20
    then some polygon
    else if v == 21
    then some polygon2
    else if v == 22
    then some polyline
    else if v == 25
    then some ellipse
    else if v == 26
    then some ellipse2
    else if v == 27
    then some text2
    else none

-- The size of the field of flags, by type.
abbrev pub flags_size : Option OrderType → ℕ
flags_size (some triblt) = 3
flags_size (some text2) = 3
flags_size (some patblt) = 2
flags_size (some memblt) = 2
flags_size (some line) = 2
flags_size (some polygon2) = 2
flags_size (some ellipse2) = 2
flags_size _ = 1

-- The state behind process_orders: the input, g_order_state, the caches.
pub record Session : Type 0 where
  pub s : Stream
  pub os : RdpOrderState
  pub w : World

-- A handler's or an order's work: the state after it and the calls of the user interface.
abbrev pub Work : Type 0
Work = Session × List Ui

-- `s->p + (sint16) length + 7`; a pointer before the data is a fault.
unfoldable pub next_order : ℕ → ℕ → Option ℕ
next_order p length =
    if leb (2 ^ 15) length
    then (if ltb (p + 7) (2 ^ 16 - length) then none else some (p + 7 - (2 ^ 16 - length)))
    else some (p + 7 + length)

-- `load` and `persistent` as in Orders/Draw; `handle` is the handler of a secondary order, by its
-- type and flags, whatever it reads and changes.
module _ (load : ℕ → ℕ → Bmpcache → Option Bmpcache) (persistent : ℕ → Bool)
    (handle : ℕ → ℕ → Session → Option Work) where
  unfoldable pub process_secondary_order : Session → Option Work
  process_secondary_order e = do
    (length, s) ← in_uint16_le e.s
    (flags, s) ← in_uint16_le s
    (type, s) ← in_uint8 s
    next ← next_order s.p length
    (e', calls) ← handle type flags (record e { s = s })
    some (record e' { s = record (e'.s) { p = next } }, calls)

  -- The handler of a primary order.
  unfoldable pub process_primary : OrderType → ℕ → Bool → Session → Option Work
  process_primary destblt present delta e = do
    (os, s) ← parse_destblt present delta e.os.destblt e.s
    some (record e { s = s; os = record (e.os) { destblt = os } }, draw_destblt os)
  process_primary patblt present delta e = do
    (os, s) ← parse_patblt present delta e.os.patblt e.s
    some (record e { s = s; os = record (e.os) { patblt = os } }, draw_patblt e.w.caches os)
  process_primary screenblt present delta e = do
    (os, s) ← parse_screenblt present delta e.os.screenblt e.s
    some (record e { s = s; os = record (e.os) { screenblt = os } }, draw_screenblt os)
  process_primary line present delta e = do
    (os, s) ← parse_line present delta e.os.line e.s
    some (record e { s = s; os = record (e.os) { line = os } }, draw_line os)
  process_primary rect present delta e = do
    (os, s) ← parse_rect present delta e.os.rect e.s
    some (record e { s = s; os = record (e.os) { rect = os } }, draw_rect os)
  process_primary desksave present delta e = do
    (os, s) ← parse_desksave present delta e.os.desksave e.s
    some (record e { s = s; os = record (e.os) { desksave = os } }, draw_desksave os)
  process_primary memblt present delta e = do
    (os, s) ← parse_memblt present delta e.os.memblt e.s
    let drawn = draw_memblt load persistent os e.w
    some (record { s = s; os = record (e.os) { memblt = os }; w = drawn.1 }, drawn.0)
  process_primary triblt present delta e = do
    (os, s) ← parse_triblt present delta e.os.triblt e.s
    let drawn = draw_triblt load persistent os e.w
    some (record { s = s; os = record (e.os) { triblt = os }; w = drawn.1 }, drawn.0)
  process_primary polygon present delta e = do
    (os, s) ← parse_polygon present delta e.os.polygon e.s
    calls ← draw_polygon os
    some (record e { s = s; os = record (e.os) { polygon = os } }, calls)
  process_primary polygon2 present delta e = do
    (os, s) ← parse_polygon2 present delta e.os.polygon2 e.s
    calls ← draw_polygon2 e.w.caches os
    some (record e { s = s; os = record (e.os) { polygon2 = os } }, calls)
  process_primary polyline present delta e = do
    (os, s) ← parse_polyline present delta e.os.polyline e.s
    calls ← draw_polyline os
    some (record e { s = s; os = record (e.os) { polyline = os } }, calls)
  process_primary ellipse present delta e = do
    (os, s) ← parse_ellipse present delta e.os.ellipse e.s
    some (record e { s = s; os = record (e.os) { ellipse = os } }, draw_ellipse os)
  process_primary ellipse2 present delta e = do
    (os, s) ← parse_ellipse2 present delta e.os.ellipse2 e.s
    some (record e { s = s; os = record (e.os) { ellipse2 = os } }, draw_ellipse2 e.w.caches os)
  process_primary text2 present delta e = do
    (os, s) ← parse_text2 present delta e.os.text2 e.s
    some (record e { s = s; os = record (e.os) { text2 = os } }, draw_text2 e.w.caches os)

  -- `if (order_flags & RDP_ORDER_CHANGE) in_uint8(s, os->order_type);`
  unfoldable pub change_type : ℕ → Session → Option Session
  change_type order_flags e = elim (has order_flags rdp_order_change) [
    | false ↦ some e
    | true ↦ (do
      (type, s) ← in_uint8 e.s
      some (record e { s = s; os = record (e.os) { order_type = type } }))
  ]

  abbrev pub clip_of : Bounds → Ui
  clip_of b = ui_set_clip b.left b.top (extent b.right b.left) (extent b.bottom b.top)

  -- The bounds that come with an order.
  unfoldable pub set_bounds : ℕ → Session → Option Work
  set_bounds order_flags e = elim (has order_flags rdp_order_bounds) [
    | false ↦ some (e, [])
    | true ↦ elim (has order_flags rdp_order_lastbounds) [
      | true ↦ some (e, clip_of e.os.bounds ∷ [])
      | false ↦ (do
        (bounds, s) ← rdp_parse_bounds e.os.bounds e.s
        some (record e { s = s; os = record (e.os) { bounds = bounds } }, clip_of bounds ∷ []))
    ]
  ]

  -- A primary order, and whether process_orders goes on: an unknown type ends it, with the clip set.
  unfoldable pub process_order : ℕ → Session → Option (Bool × Work)
  process_order order_flags e = do
    e ← change_type order_flags e
    let type = order_type_of e.os.order_type
    (present, s) ← rdp_in_present order_flags (flags_size type) e.s
    (e, clip) ← set_bounds order_flags (record e { s = s })
    elim type [
      | none ↦ some (false, (e, clip))
      | some type ↦ (do
        (e, calls) ← process_primary type present (has order_flags rdp_order_delta) e
        some (
          true,
          (
            e,
            clip ++ calls ++ (if has order_flags rdp_order_bounds then ui_reset_clip ∷ [] else []),
          ),
        ))
    ]

  -- One order of either kind; one without RDP_ORDER_STANDARD ends process_orders.
  unfoldable pub process_next : Session → Option (Bool × Work)
  process_next e = do
    (order_flags, s) ← in_uint8 e.s
    let e : Session = record e { s = s }
    elim (has order_flags rdp_order_standard) [
      | false ↦ some (false, (e, []))
      | true ↦ elim (has order_flags rdp_order_secondary) [
        | true ↦ (do (e, calls) ← process_secondary_order e; some (true, (e, calls)))
        | false ↦ process_order order_flags e
      ]
    ]

  unfoldable pub process_orders : ℕ → Session → Option Work
  process_orders zero e = some (e, [])
  process_orders (suc num_orders) e = do
    (go_on, (e, calls)) ← process_next e
    elim go_on [
      | false ↦ some (e, calls)
      | true ↦ (do (e, more) ← process_orders num_orders e; some (e, calls ++ more))
    ]
