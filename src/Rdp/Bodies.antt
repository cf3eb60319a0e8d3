-- ===== src/Rdp/Bodies.antt =====
-- The bodies of the PDUs of rdp.c, as it writes them at the pointer of a stream.
use app_network_rdesktop.Base.{
  ℕ, ◌+◌, ◌-◌, ◌==◌, leb, if◌then◌else◌, List, [], ◌∷◌, ◌++◌, Option, some, ◌>>=◌,
}
use app_network_rdesktop.Stream.{Stream, out_uint16_le, out_uint32_le, out_uint8p, out_uint8s}
use app_network_rdesktop.Rdp.Capabilities.{
  Settings, rdp_out_general_caps, rdp_out_bitmap_caps, rdp_out_order_caps, rdp_out_bmpcache_caps,
  rdp_out_bmpcache2_caps, rdp_out_control_caps, rdp_out_activate_caps, rdp_out_pointer_caps,
  rdp_out_newpointer_caps, rdp_out_share_caps, rdp_out_colcache_caps, rdp_out_brushcache_caps,
  rdp_out_unknown_caps, caps_0x0d, caps_0x0c, caps_0x0e, caps_0x10,
}

unfoldable pub control_pdu : ℕ → Stream → Option Stream
control_pdu action s = do s ← out_uint16_le s action; s ← out_uint16_le s 0; out_uint32_le s 0

unfoldable pub synchronise_pdu : Stream → Option Stream
synchronise_pdu s = do s ← out_uint16_le s 1; out_uint16_le s 1002

unfoldable pub input_pdu : ℕ → ℕ → ℕ → ℕ → ℕ → Stream → Option Stream
input_pdu time message_type device_flags param1 param2 s = do
  s ← out_uint16_le s 1
  s ← out_uint16_le s 0
  s ← out_uint32_le s time
  s ← out_uint16_le s message_type
  s ← out_uint16_le s device_flags
  s ← out_uint16_le s param1
  out_uint16_le s param2

-- A status of 1 is followed by the size of the window.
unfoldable pub window_status_pdu : ℕ → ℕ → ℕ → Stream → Option Stream
window_status_pdu status width height s = do
  s ← out_uint32_le s status
  if status == 1
      then (do s ← out_uint32_le s 0; s ← out_uint16_le s width; out_uint16_le s height)
      else some s

unfoldable pub fonts_pdu : ℕ → Stream → Option Stream
fonts_pdu seq s = do
  s ← out_uint16_le s 0
  s ← out_uint16_le s 0
  s ← out_uint16_le s seq
  out_uint16_le s 0x32

abbrev pub concat : List (List ℕ) → List ℕ
concat [] = []
concat (xs ∷ xss) = xs ++ concat xss

-- PDU_FLAG_FIRST is 1 and PDU_FLAG_LAST is 2.
abbrev pub keys_flags : ℕ → ℕ → ℕ
keys_flags num_keys offset =
    (if offset == 0 then 1 else 0) + (if leb (num_keys - offset) 169 then 2 else 0)

-- A round of rdp_enum_bmpcache2, with the keys of the round.
unfoldable pub keys_pdu : ℕ → ℕ → ℕ → List (List ℕ) → Stream → Option Stream
keys_pdu num_keys offset count keys s = do
  s ← out_uint32_le s 0
  s ← out_uint16_le s count
  s ← out_uint16_le s 0
  s ← out_uint16_le s 0
  s ← out_uint16_le s 0
  s ← out_uint16_le s 0
  s ← out_uint16_le s num_keys
  s ← out_uint32_le s 0
  s ← out_uint32_le s (keys_flags num_keys offset)
  out_uint8p s (concat keys)

-- The sum of the RDP_CAPLEN_... of the sets that are sent.
unfoldable pub confirm_length : Settings → ℕ
confirm_length c =
    0x18
    + 0x1c
    + 0x58
    + 0x08
    + 0x0c
    + 0x0c
    + 0x08
    + 0x08
    + 0x58
    + 0x08
    + 0x08
    + 0x34
    + 4
    + (if c.rdp_v5 then 0x28 + 0x0a else 0x28 + 0x08)

-- RDP_SOURCE with its terminating 0.
abbrev pub rdp_source : List ℕ
rdp_source = 77 ∷ 83 ∷ 84 ∷ 83 ∷ 67 ∷ 0 ∷ []

-- The capability sets.
unfoldable pub capability_sets : Settings → Stream → Option Stream
capability_sets c s = do
  s ← rdp_out_general_caps c s
  s ← rdp_out_bitmap_caps c s
  s ← rdp_out_order_caps c s
  s ← if c.rdp_v5 then rdp_out_bmpcache2_caps c s else rdp_out_bmpcache_caps c s
  s ← if c.rdp_v5 then rdp_out_newpointer_caps c s else rdp_out_pointer_caps c s
  s ← rdp_out_colcache_caps c s
  s ← rdp_out_activate_caps c s
  s ← rdp_out_control_caps c s
  s ← rdp_out_share_caps c s
  s ← rdp_out_brushcache_caps c s
  s ← rdp_out_unknown_caps 0x0d 0x58 caps_0x0d s
  s ← rdp_out_unknown_caps 0x0c 0x08 caps_0x0c s
  s ← rdp_out_unknown_caps 0x0e 0x08 caps_0x0e s
  rdp_out_unknown_caps 0x10 0x34 caps_0x10 s

-- rdp_send_confirm_active between `sec_init` and `s_mark_end`; RDP_PDU_CONFIRM_ACTIVE is 3.
unfoldable pub confirm_pdu : Settings → ℕ → ℕ → Stream → Option Stream
confirm_pdu c mcs_userid shareid s = do
  let caplen = confirm_length c
  s ← out_uint16_le s (2 + 14 + caplen + 6)
  s ← out_uint16_le s 0x13
  s ← out_uint16_le s (mcs_userid + 1001)
  s ← out_uint32_le s shareid
  s ← out_uint16_le s 0x3ea
  s ← out_uint16_le s 6
  s ← out_uint16_le s caplen
  s ← out_uint8p s rdp_source
  s ← out_uint16_le s 0xe
  s ← out_uint8s s 2
  capability_sets c s
