-- ===== src/Rdp/Capabilities.antt =====
-- rdp.c: the capability sets of the confirm active PDU.
-- The settings of the client are a record; pstcache_init is a call of pstcache.c, whose answer is one of
-- them.
use app_network_rdesktop.Base.{
  ℕ, ◌+◌, ◌-◌, ◌*◌, ◌/◌, ◌^◌, Bool, if◌then◌else◌, ltb, length, take, List, [], ◌∷◌, Option, none,
  ◌>>=◌,
}
use app_network_rdesktop.Stream.{
  Stream, out_uint16_le, out_uint16_be, out_uint32_le, out_uint8p, out_uint8s,
}

-- g_rdp_version >= RDP_V5, g_server_depth and the other globals that the capability sets show.
pub record Settings : Type 0 where
  pub rdp_v5 : Bool
  pub server_depth : ℕ
  pub bitmap_compression : Bool
  pub bitmap_cache : Bool
  pub desktop_save : Bool
  pub polygon_ellipse_orders : Bool
  pub bitmap_cache_persist_enable : Bool
  pub pstcache_init : Bool

-- `b ? 1 : 0`.
abbrev pub bit : Bool → ℕ
bit b = if b then 1 else 0

-- Bpp.
abbrev pub bytes_per_pixel : Settings → ℕ
bytes_per_pixel c = (c.server_depth + 7) / 8

-- The array order_caps.
abbrev pub order_caps : Settings → List ℕ
order_caps c =
    1
    ∷ 1
    ∷ 1
    ∷ bit c.bitmap_cache
    ∷ 0
    ∷ 0
    ∷ 0
    ∷ 0
    ∷ 1
    ∷ 1
    ∷ 1
    ∷ bit c.desktop_save
    ∷ 0
    ∷ 1
    ∷ 1
    ∷ 0
    ∷ 0
    ∷ 0
    ∷ 0
    ∷ 0
    ∷ bit c.polygon_ellipse_orders
    ∷ bit c.polygon_ellipse_orders
    ∷ 1
    ∷ 0
    ∷ 0
    ∷ bit c.polygon_ellipse_orders
    ∷ bit c.polygon_ellipse_orders
    ∷ 1
    ∷ 0
    ∷ 0
    ∷ 0
    ∷ 0
    ∷ []

unfoldable pub rdp_out_general_caps : Settings → Stream → Option Stream
rdp_out_general_caps c s = do
  s ← out_uint16_le s 1
  s ← out_uint16_le s 0x18
  s ← out_uint16_le s 1
  s ← out_uint16_le s 3
  s ← out_uint16_le s 0x200
  s ← out_uint16_le s 0
  s ← out_uint16_le s 0
  s ← out_uint16_le s (if c.rdp_v5 then 0x40d else 0)
  s ← out_uint16_le s 0
  s ← out_uint16_le s 0
  s ← out_uint16_le s 0
  out_uint16_le s 0

unfoldable pub rdp_out_bitmap_caps : Settings → Stream → Option Stream
rdp_out_bitmap_caps c s = do
  s ← out_uint16_le s 2
  s ← out_uint16_le s 0x1C
  s ← out_uint16_le s c.server_depth
  s ← out_uint16_le s 1
  s ← out_uint16_le s 1
  s ← out_uint16_le s 1
  s ← out_uint16_le s 800
  s ← out_uint16_le s 600
  s ← out_uint16_le s 0
  s ← out_uint16_le s 1
  s ← out_uint16_le s (bit c.bitmap_compression)
  s ← out_uint16_le s 0
  s ← out_uint16_le s 1
  out_uint16_le s 0

unfoldable pub rdp_out_order_caps : Settings → Stream → Option Stream
rdp_out_order_caps c s = do
  s ← out_uint16_le s 3
  s ← out_uint16_le s 0x58
  s ← out_uint8s s 20
  s ← out_uint16_le s 1
  s ← out_uint16_le s 20
  s ← out_uint16_le s 0
  s ← out_uint16_le s 1
  s ← out_uint16_le s 0x147
  s ← out_uint16_le s 0x2a
  s ← out_uint8p s (order_caps c)
  s ← out_uint16_le s 0x6a1
  s ← out_uint8s s 6
  s ← out_uint32_le s (if c.desktop_save then 0x38400 else 0)
  s ← out_uint32_le s 0
  out_uint32_le s 0x4e4

unfoldable pub rdp_out_bmpcache_caps : Settings → Stream → Option Stream
rdp_out_bmpcache_caps c s = do
  s ← out_uint16_le s 4
  s ← out_uint16_le s 0x28
  s ← out_uint8s s 24
  s ← out_uint16_le s 0x258
  s ← out_uint16_le s (0x100 * bytes_per_pixel c)
  s ← out_uint16_le s 0x12c
  s ← out_uint16_le s (0x400 * bytes_per_pixel c)
  s ← out_uint16_le s 0x106
  out_uint16_le s (0x1000 * bytes_per_pixel c)

unfoldable pub rdp_out_bmpcache2_caps : Settings → Stream → Option Stream
rdp_out_bmpcache2_caps c s = do
  s ← out_uint16_le s 19
  s ← out_uint16_le s 0x28
  s ← out_uint16_le s (if c.bitmap_cache_persist_enable then 2 else 0)
  s ← out_uint16_be s 3
  s ← out_uint32_le s 0x78
  s ← out_uint32_le s 0x78
  s ← out_uint32_le s (if c.pstcache_init then 0x9f6 + 2 ^ 31 else 0x150)
  out_uint8s s 20

unfoldable pub rdp_out_control_caps : Settings → Stream → Option Stream
rdp_out_control_caps c s = do
  s ← out_uint16_le s 5
  s ← out_uint16_le s 0x0C
  s ← out_uint16_le s 0
  s ← out_uint16_le s 0
  s ← out_uint16_le s 2
  out_uint16_le s 2

unfoldable pub rdp_out_activate_caps : Settings → Stream → Option Stream
rdp_out_activate_caps c s = do
  s ← out_uint16_le s 7
  s ← out_uint16_le s 0x0C
  s ← out_uint16_le s 0
  s ← out_uint16_le s 0
  s ← out_uint16_le s 0
  out_uint16_le s 0

unfoldable pub rdp_out_pointer_caps : Settings → Stream → Option Stream
rdp_out_pointer_caps c s = do
  s ← out_uint16_le s 8
  s ← out_uint16_le s 0x08
  s ← out_uint16_le s 0
  out_uint16_le s 20

unfoldable pub rdp_out_newpointer_caps : Settings → Stream → Option Stream
rdp_out_newpointer_caps c s = do
  s ← out_uint16_le s 8
  s ← out_uint16_le s 0x0a
  s ← out_uint16_le s 1
  s ← out_uint16_le s 20
  out_uint16_le s 20

unfoldable pub rdp_out_share_caps : Settings → Stream → Option Stream
rdp_out_share_caps c s = do
  s ← out_uint16_le s 9
  s ← out_uint16_le s 0x08
  s ← out_uint16_le s 0
  out_uint16_le s 0

unfoldable pub rdp_out_colcache_caps : Settings → Stream → Option Stream
rdp_out_colcache_caps c s = do
  s ← out_uint16_le s 10
  s ← out_uint16_le s 0x08
  s ← out_uint16_le s 6
  out_uint16_le s 0

unfoldable pub rdp_out_brushcache_caps : Settings → Stream → Option Stream
rdp_out_brushcache_caps c s = do s ← out_uint16_le s 15; s ← out_uint16_le s 0x08; out_uint32_le s 1

abbrev pub caps_0x0d : List ℕ
caps_0x0d =
    1 ∷ 0 ∷ 0 ∷ 0 ∷ 9 ∷ 4 ∷ 0 ∷ 0 ∷ 4 ∷ 0 ∷ 0 ∷ 0 ∷ 0 ∷ 0 ∷ 0 ∷ 0 ∷ 12 ∷ 0 ∷ 0 ∷ 0 ∷ 0 ∷ 0 ∷ 0 ∷ 0
    ∷ 0 ∷ 0 ∷ 0 ∷ 0 ∷ 0 ∷ 0 ∷ 0 ∷ 0 ∷ 0 ∷ 0 ∷ 0 ∷ 0 ∷ 0 ∷ 0 ∷ 0 ∷ 0 ∷ 0 ∷ 0 ∷ 0 ∷ 0 ∷ 0 ∷ 0 ∷ 0 ∷ 0
    ∷ 0 ∷ 0 ∷ 0 ∷ 0 ∷ 0 ∷ 0 ∷ 0 ∷ 0 ∷ 0 ∷ 0 ∷ 0 ∷ 0 ∷ 0 ∷ 0 ∷ 0 ∷ 0 ∷ 0 ∷ 0 ∷ 0 ∷ 0 ∷ 0 ∷ 0 ∷ 0 ∷ 0
    ∷ 0 ∷ 0 ∷ 0 ∷ 0 ∷ 0 ∷ 0 ∷ 0 ∷ 0 ∷ 0 ∷ 0 ∷ 0 ∷ 0 ∷ []

abbrev pub caps_0x0c : List ℕ
caps_0x0c = 1 ∷ 0 ∷ 0 ∷ 0 ∷ []

abbrev pub caps_0x0e : List ℕ
caps_0x0e = 1 ∷ 0 ∷ 0 ∷ 0 ∷ []

abbrev pub caps_0x10 : List ℕ
caps_0x10 =
    254 ∷ 0 ∷ 4 ∷ 0 ∷ 254 ∷ 0 ∷ 4 ∷ 0 ∷ 254 ∷ 0 ∷ 8 ∷ 0 ∷ 254 ∷ 0 ∷ 8 ∷ 0 ∷ 254 ∷ 0 ∷ 16 ∷ 0 ∷ 254
    ∷ 0 ∷ 32 ∷ 0 ∷ 254 ∷ 0 ∷ 64 ∷ 0 ∷ 254 ∷ 0 ∷ 128 ∷ 0 ∷ 254 ∷ 0 ∷ 0 ∷ 1 ∷ 64 ∷ 0 ∷ 0 ∷ 8 ∷ 0 ∷ 1
    ∷ 0 ∷ 1 ∷ 2 ∷ 0 ∷ 0 ∷ 0 ∷ []

-- `memcpy` of `length' - 4` bytes of a table.
unfoldable pub rdp_out_unknown_caps : ℕ → ℕ → List ℕ → Stream → Option Stream
rdp_out_unknown_caps id length' caps s = do
  s ← out_uint16_le s id
  s ← out_uint16_le s length'
  if ltb (length caps) (length' - 4) then none else out_uint8p s (take (length' - 4) caps)
