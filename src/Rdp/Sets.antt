-- ===== src/Rdp/Sets.antt =====
-- The capability sets as T.128 lays them out: a type, the length of the whole, and the content.
use app_network_rdesktop.Base.{
  ℕ, ◌+◌, ◌*◌, ◌^◌, ◌≡◌, if◌then◌else◌, List, [], ◌∷◌, ◌++◌, length, replicate,
}
use app_network_rdesktop.Stream.{Stream, out_bytes, bytes16_le, bytes16_be, bytes32_le}
use app_network_rdesktop.Stream.Writing.{out_all_lem}
use app_network_rdesktop.Rdp.Capabilities.{
  Settings, bit, bytes_per_pixel, order_caps, rdp_out_general_caps, rdp_out_bitmap_caps,
  rdp_out_order_caps, rdp_out_bmpcache_caps, rdp_out_bmpcache2_caps, rdp_out_control_caps,
  rdp_out_activate_caps, rdp_out_pointer_caps, rdp_out_newpointer_caps, rdp_out_share_caps,
  rdp_out_colcache_caps, rdp_out_brushcache_caps,
}

abbrev pub words : List ℕ → List ℕ
words [] = []
words (v ∷ vs) = bytes16_le v ++ words vs

abbrev pub set : ℕ → List ℕ → List ℕ
set type content = bytes16_le type ++ (bytes16_le (length content + 4) ++ content)

abbrev pub general : Settings → List ℕ
general c =
    set 1 (words (1 ∷ 3 ∷ 0x200 ∷ 0 ∷ 0 ∷ (if c.rdp_v5 then 0x40d else 0) ∷ 0 ∷ 0 ∷ 0 ∷ 0 ∷ []))

abbrev pub bitmap : Settings → List ℕ
bitmap c = set 2 (
    words (
      c.server_depth ∷ 1 ∷ 1 ∷ 1 ∷ 800 ∷ 600 ∷ 0 ∷ 1 ∷ (bit c.bitmap_compression) ∷ 0 ∷ 1 ∷ 0 ∷ []))

abbrev pub order : Settings → List ℕ
order c = set 3 (
    replicate 20 0
    ++ (words (1 ∷ 20 ∷ 0 ∷ 1 ∷ 0x147 ∷ 0x2a ∷ [])
        ++ (order_caps c
            ++ (words (0x6a1 ∷ [])
                ++ (replicate 6 0
                    ++ (bytes32_le (if c.desktop_save then 0x38400 else 0)
                        ++ (bytes32_le 0 ++ (bytes32_le 0x4e4))))))))

abbrev pub bmpcache : Settings → List ℕ
bmpcache c = set 4 (
    replicate 24 0
    ++ (words (
        0x258
        ∷ (0x100 * bytes_per_pixel c)
        ∷ 0x12c
        ∷ (0x400 * bytes_per_pixel c)
        ∷ 0x106
        ∷ (0x1000 * bytes_per_pixel c)
        ∷ [])))

abbrev pub bmpcache2 : Settings → List ℕ
bmpcache2 c = set 19 (
    words ((if c.bitmap_cache_persist_enable then 2 else 0) ∷ [])
    ++ (bytes16_be 3
        ++ (bytes32_le 0x78
            ++ (bytes32_le 0x78
                ++ (bytes32_le (if c.pstcache_init then 0x9f6 + 2 ^ 31 else 0x150)
                    ++ (replicate 20 0))))))

abbrev pub control : Settings → List ℕ
control c = set 5 (words (0 ∷ 0 ∷ 2 ∷ 2 ∷ []))

abbrev pub activate : Settings → List ℕ
activate c = set 7 (words (0 ∷ 0 ∷ 0 ∷ 0 ∷ []))

abbrev pub pointer : Settings → List ℕ
pointer c = set 8 (words (0 ∷ 20 ∷ []))

abbrev pub newpointer : Settings → List ℕ
newpointer c = set 8 (words (1 ∷ 20 ∷ 20 ∷ []))

abbrev pub share : Settings → List ℕ
share c = set 9 (words (0 ∷ 0 ∷ []))

abbrev pub colcache : Settings → List ℕ
colcache c = set 10 (words (6 ∷ 0 ∷ []))

abbrev pub brushcache : Settings → List ℕ
brushcache c = set 15 (bytes32_le 1)

pub general_written :
    (c : Settings) (s : Stream) → rdp_out_general_caps c s ≡ out_bytes s (general c)
unfolding rdp_out_general_caps
general_written c s =
    out_all_lem
      ((bytes16_le 0x18)
        ∷ (bytes16_le 1)
        ∷ (bytes16_le 3)
        ∷ (bytes16_le 0x200)
        ∷ (bytes16_le 0)
        ∷ (bytes16_le 0)
        ∷ (bytes16_le (if c.rdp_v5 then 0x40d else 0))
        ∷ (bytes16_le 0)
        ∷ (bytes16_le 0)
        ∷ (bytes16_le 0)
        ∷ (bytes16_le 0)
        ∷ [])
      s (bytes16_le 1)

pub bitmap_written : (c : Settings) (s : Stream) → rdp_out_bitmap_caps c s ≡ out_bytes s (bitmap c)
unfolding rdp_out_bitmap_caps
bitmap_written c s =
    out_all_lem
      ((bytes16_le 0x1C)
        ∷ (bytes16_le c.server_depth)
        ∷ (bytes16_le 1)
        ∷ (bytes16_le 1)
        ∷ (bytes16_le 1)
        ∷ (bytes16_le 800)
        ∷ (bytes16_le 600)
        ∷ (bytes16_le 0)
        ∷ (bytes16_le 1)
        ∷ (bytes16_le (bit c.bitmap_compression))
        ∷ (bytes16_le 0)
        ∷ (bytes16_le 1)
        ∷ (bytes16_le 0)
        ∷ [])
      s (bytes16_le 2)

pub order_written : (c : Settings) (s : Stream) → rdp_out_order_caps c s ≡ out_bytes s (order c)
unfolding rdp_out_order_caps
order_written c s =
    out_all_lem
      ((bytes16_le 0x58)
        ∷ (replicate 20 0)
        ∷ (bytes16_le 1)
        ∷ (bytes16_le 20)
        ∷ (bytes16_le 0)
        ∷ (bytes16_le 1)
        ∷ (bytes16_le 0x147)
        ∷ (bytes16_le 0x2a)
        ∷ (order_caps c)
        ∷ (bytes16_le 0x6a1)
        ∷ (replicate 6 0)
        ∷ (bytes32_le (if c.desktop_save then 0x38400 else 0))
        ∷ (bytes32_le 0)
        ∷ (bytes32_le 0x4e4)
        ∷ [])
      s (bytes16_le 3)

pub bmpcache_written :
    (c : Settings) (s : Stream) → rdp_out_bmpcache_caps c s ≡ out_bytes s (bmpcache c)
unfolding rdp_out_bmpcache_caps
bmpcache_written c s =
    out_all_lem
      ((bytes16_le 0x28)
        ∷ (replicate 24 0)
        ∷ (bytes16_le 0x258)
        ∷ (bytes16_le (0x100 * bytes_per_pixel c))
        ∷ (bytes16_le 0x12c)
        ∷ (bytes16_le (0x400 * bytes_per_pixel c))
        ∷ (bytes16_le 0x106)
        ∷ (bytes16_le (0x1000 * bytes_per_pixel c))
        ∷ [])
      s (bytes16_le 4)

pub bmpcache2_written :
    (c : Settings) (s : Stream) → rdp_out_bmpcache2_caps c s ≡ out_bytes s (bmpcache2 c)
unfolding rdp_out_bmpcache2_caps
bmpcache2_written c s =
    out_all_lem
      ((bytes16_le 0x28)
        ∷ (bytes16_le (if c.bitmap_cache_persist_enable then 2 else 0))
        ∷ (bytes16_be 3)
        ∷ (bytes32_le 0x78)
        ∷ (bytes32_le 0x78)
        ∷ (bytes32_le (if c.pstcache_init then 0x9f6 + 2 ^ 31 else 0x150))
        ∷ (replicate 20 0)
        ∷ [])
      s (bytes16_le 19)

pub control_written :
    (c : Settings) (s : Stream) → rdp_out_control_caps c s ≡ out_bytes s (control c)
unfolding rdp_out_control_caps
control_written c s =
    out_all_lem
      ((bytes16_le 0x0C) ∷ (bytes16_le 0) ∷ (bytes16_le 0) ∷ (bytes16_le 2) ∷ (bytes16_le 2) ∷ []) s
      (bytes16_le 5)

pub activate_written :
    (c : Settings) (s : Stream) → rdp_out_activate_caps c s ≡ out_bytes s (activate c)
unfolding rdp_out_activate_caps
activate_written c s =
    out_all_lem
      ((bytes16_le 0x0C) ∷ (bytes16_le 0) ∷ (bytes16_le 0) ∷ (bytes16_le 0) ∷ (bytes16_le 0) ∷ []) s
      (bytes16_le 7)

pub pointer_written :
    (c : Settings) (s : Stream) → rdp_out_pointer_caps c s ≡ out_bytes s (pointer c)
unfolding rdp_out_pointer_caps
pointer_written c s =
    out_all_lem ((bytes16_le 0x08) ∷ (bytes16_le 0) ∷ (bytes16_le 20) ∷ []) s (bytes16_le 8)

pub newpointer_written :
    (c : Settings) (s : Stream) → rdp_out_newpointer_caps c s ≡ out_bytes s (newpointer c)
unfolding rdp_out_newpointer_caps
newpointer_written c s =
    out_all_lem ((bytes16_le 0x0a) ∷ (bytes16_le 1) ∷ (bytes16_le 20) ∷ (bytes16_le 20) ∷ []) s
      (bytes16_le 8)

pub share_written : (c : Settings) (s : Stream) → rdp_out_share_caps c s ≡ out_bytes s (share c)
unfolding rdp_out_share_caps
share_written c s =
    out_all_lem ((bytes16_le 0x08) ∷ (bytes16_le 0) ∷ (bytes16_le 0) ∷ []) s (bytes16_le 9)

pub colcache_written :
    (c : Settings) (s : Stream) → rdp_out_colcache_caps c s ≡ out_bytes s (colcache c)
unfolding rdp_out_colcache_caps
colcache_written c s =
    out_all_lem ((bytes16_le 0x08) ∷ (bytes16_le 6) ∷ (bytes16_le 0) ∷ []) s (bytes16_le 10)

pub brushcache_written :
    (c : Settings) (s : Stream) → rdp_out_brushcache_caps c s ≡ out_bytes s (brushcache c)
unfolding rdp_out_brushcache_caps
brushcache_written c s = out_all_lem ((bytes16_le 0x08) ∷ (bytes32_le 1) ∷ []) s (bytes16_le 15)
