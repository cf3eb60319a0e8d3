-- ===== src/Orders/Fields.antt =====
-- orders.c: the fields of an order. A field that the order leaves out keeps its value.
use Prim.Native.Nat.{bit_or}
use app_network_rdesktop.Base.{
  ℕ, zero, suc, ◌+◌, ◌-◌, ◌*◌, ◌/◌, ◌%◌, ◌^◌, Bool, true, false, has, ltb, leb, if◌then◌else◌, List,
  ◌++◌, Option, none, some, ◌>>=◌, drop, replicate,
}
use app_network_rdesktop.Stream.{Stream, in_uint8, in_uint16_le, in_uint8a}
use app_network_rdesktop.Cache.{Caches, cache_get_brush_data, Brushdata}
use app_network_rdesktop.Orders.State.{Bounds, Pen, Brush}

abbrev pub rdp_order_standard : ℕ
rdp_order_standard = 0x01

abbrev pub rdp_order_secondary : ℕ
rdp_order_secondary = 0x02

abbrev pub rdp_order_bounds : ℕ
rdp_order_bounds = 0x04

abbrev pub rdp_order_change : ℕ
rdp_order_change = 0x08

abbrev pub rdp_order_delta : ℕ
rdp_order_delta = 0x10

abbrev pub rdp_order_lastbounds : ℕ
rdp_order_lastbounds = 0x20

abbrev pub rdp_order_small : ℕ
rdp_order_small = 0x40

abbrev pub rdp_order_tiny : ℕ
rdp_order_tiny = 0x80

-- `if (b) read(s, &old)`.
abbrev pub given {ℓ} :
    {A : Type ℓ} → Bool → (Stream → Option (A × Stream)) → A → Stream → Option (A × Stream)
given true read old s = read s
given false read old s = some (old, s)

-- The bytes of the field of flags that the order has.
unfoldable pub present_size : ℕ → ℕ → ℕ
present_size flags size =
    let size = if has flags rdp_order_small then size - 1 else size in
    if has flags rdp_order_tiny then (if ltb size 2 then 0 else size - 2) else size

-- `for (i = 0; i < size; i++) *present |= bits << (i * 8)`, from `i` on.
unfoldable pub in_present_bytes : ℕ → ℕ → ℕ → Stream → Option (ℕ × Stream)
in_present_bytes zero i present s = some (present, s)
in_present_bytes (suc size) i present s = do
  (bits, s) ← in_uint8 s
  in_present_bytes size (i + 1) (bit_or present (bits * 2 ^ (i * 8))) s

unfoldable pub rdp_in_present : ℕ → ℕ → Stream → Option (ℕ × Stream)
rdp_in_present flags size s = in_present_bytes (present_size flags size) 0 0 s

-- A sint8 widened to the 16 bits it is added to.
abbrev pub widen : ℕ → ℕ
widen change = if leb 128 change then change + (2 ^ 16 - 2 ^ 8) else change

unfoldable pub rdp_in_coord : Bool → ℕ → Stream → Option (ℕ × Stream)
rdp_in_coord true coord s = do (change, s) ← in_uint8 s; some ((coord + widen change) % 2 ^ 16, s)
rdp_in_coord false coord s = in_uint16_le s

unfoldable pub rdp_in_colour : Stream → Option (ℕ × Stream)
rdp_in_colour s = do
  (a, s) ← in_uint8 s
  (b, s) ← in_uint8 s
  (c, s) ← in_uint8 s
  some (a + b * 2 ^ 8 + c * 2 ^ 16, s)

-- One byte of a 32-bit colour, at bit `shift`, is replaced.
unfoldable pub in_colour_byte : ℕ → ℕ → Stream → Option (ℕ × Stream)
in_colour_byte shift colour s = do
  (i, s) ← in_uint8 s
  some (colour / 2 ^ (shift + 8) * 2 ^ (shift + 8) + i * 2 ^ shift + colour % 2 ^ shift, s)

-- A length byte, and as many bytes into an array of the order state.
unfoldable pub in_array : List ℕ → Stream → Option ((ℕ × List ℕ) × Stream)
in_array old s = do
  (size, s) ← in_uint8 s
  (bytes, s) ← in_uint8a s size
  some ((size, bytes ++ drop size old), s)

-- One side of the bounds: absolute, or relative, or as it was.
unfoldable pub in_bound : Bool → Bool → ℕ → Stream → Option (ℕ × Stream)
in_bound true relative old s = rdp_in_coord false old s
in_bound false true old s = rdp_in_coord true old s
in_bound false false old s = some (old, s)

unfoldable pub rdp_parse_bounds : Bounds → Stream → Option (Bounds × Stream)
rdp_parse_bounds bounds s = do
  (present, s) ← in_uint8 s
  (left, s) ← in_bound (has present 1) (has present 16) bounds.left s
  (top, s) ← in_bound (has present 2) (has present 32) bounds.top s
  (right, s) ← in_bound (has present 4) (has present 64) bounds.right s
  (bottom, s) ← in_bound (has present 8) (has present 128) bounds.bottom s
  some (record { left = left; top = top; right = right; bottom = bottom }, s)

unfoldable pub rdp_parse_pen : ℕ → Pen → Stream → Option (Pen × Stream)
rdp_parse_pen present pen s = do
  (style, s) ← given (has present 1) in_uint8 pen.style s
  (width, s) ← given (has present 2) in_uint8 pen.width s
  (colour, s) ← given (has present 4) rdp_in_colour pen.colour s
  some (record { style = style; width = width; colour = colour }, s)

unfoldable pub rdp_parse_brush : ℕ → Brush → Stream → Option (Brush × Stream)
rdp_parse_brush present brush s = do
  (xorigin, s) ← given (has present 1) in_uint8 brush.xorigin s
  (yorigin, s) ← given (has present 2) in_uint8 brush.yorigin s
  (style, s) ← given (has present 4) in_uint8 brush.style s
  (pattern0, s) ← given (has present 8) in_uint8 brush.pattern0 s
  (pattern1, s) ← given (has present 16) (λ s. in_uint8a s 7) brush.pattern1 s
  some (
    record {
      xorigin = xorigin;
      yorigin = yorigin;
      style = style;
      pattern0 = pattern0;
      pattern1 = pattern1;
      bd = brush.bd;
    },
    s,
  )

-- The brush that is drawn with: one of the cache, if the style says so.
unfoldable pub setup_brush : Caches → Brush → Brush
setup_brush c brush =
    if has brush.style 0x80
    then elim (cached brush) [
      | some data' ↦ record brush { style = 3; bd = some data' }
      | none ↦ record brush { style = 3; bd = none; pattern0 = 0; pattern1 = replicate 7 0 }
    ]
    else brush
  where
    cached : Brush → Option Brushdata
    cached brush = do
      found ← cache_get_brush_data c (brush.style % 16) brush.pattern0
      elim found.data' [ none ↦ none | some _ ↦ some found ]
