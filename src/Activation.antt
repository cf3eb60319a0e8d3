-- ===== src/Activation.antt =====
-- rdp.c: the capability sets of the server that a demand active PDU brings. Warnings are left out.
pub mod Exchange
pub mod Answer
pub mod Order
pub mod Sets
pub mod Runs
use app_network_rdesktop.Base.{
  ℕ, zero, suc, ◌+◌, ◌-◌, Bool, true, false, not, ltb, ◌==◌, ◌||◌, ◌&&◌, if◌then◌else◌, List, [],
  ◌∷◌, ◌++◌, Option, none, some, ◌>>=◌, Parsed, returned, fault, stuck,
}
use app_network_rdesktop.Stream.{Stream, in_uint8s, in_uint16_le, in_uint32_le}
use app_network_rdesktop.Orders.Draw.{Ui, ui_resize_window}
use app_network_rdesktop.Rdp.{Rdp}
use app_network_rdesktop.Rdp.Capabilities.{Settings}

-- g_rdp_version = RDP_V4, when the flags of the set are 0.
unfoldable pub rdp_process_general_caps : Stream → Rdp → Option Rdp
rdp_process_general_caps s r = do
  (pad2octetsB, s) ← in_uint16_le (in_uint8s s 10)
  some (
      if pad2octetsB == 0
      then record r { settings = record (r.settings) { rdp_v5 = false } }
      else r)

-- The colour depth and the size of the desktop are the server's.
unfoldable pub rdp_process_bitmap_caps : Stream → Rdp → Option (Rdp × List Ui)
rdp_process_bitmap_caps s r = do
  (depth, s) ← in_uint16_le s
  (width, s) ← in_uint16_le (in_uint8s s 6)
  (height, s) ← in_uint16_le s
  let r =
      if r.settings.server_depth == depth
      then r
      else record r { settings = record (r.settings) { server_depth = depth } }
  some (
      if not (r.width == width) || not (r.height == height)
      then (record r { width = width; height = height }, ui_resize_window ∷ [])
      else (r, []))

-- The switch over the types of sets; RDP_CAPSET_GENERAL is 1 and RDP_CAPSET_BITMAP is 2.
unfoldable pub process_set : ℕ → Stream → Rdp → Option (Rdp × List Ui)
unfolding rdp_process_general_caps rdp_process_bitmap_caps
process_set capset_type s r =
    if capset_type == 1
    then (do r ← rdp_process_general_caps s r; some (r, []))
    else if capset_type == 2
    then rdp_process_bitmap_caps s r
    else some (r, [])

-- One set: the pointer goes to where its length says, which may be in front of its content.
unfoldable pub next_set : Stream → Rdp → Option (Stream × Rdp × List Ui)
unfolding process_set
next_set s r = do
  (capset_type, s) ← in_uint16_le s
  (capset_length, s) ← in_uint16_le s
  (r, calls) ← process_set capset_type s r
  some (record s { p = s.p + capset_length - 4 }, r, calls)

-- The loop over the sets; `limit` is `start + length`.
unfoldable pub process_sets : ℕ → ℕ → Stream → Rdp → Option (Stream × Rdp × List Ui)
unfolding next_set
process_sets zero limit s r = some (s, r, [])
process_sets (suc n) limit s r =
    let rest = (do
      (s, r, calls) ← next_set s r
      (s, r, more) ← process_sets n limit s r
      some (s, r, calls ++ more)) in
    if ltb limit s.p then some (s, r, []) else rest

unfoldable pub rdp_process_server_caps : ℕ → Stream → Rdp → Option (Stream × Rdp × List Ui)
unfolding process_sets
rdp_process_server_caps length' s r = do
  (ncapsets, s') ← in_uint16_le s
  process_sets ncapsets (s.p + length') (in_uint8s s' 2) r

-- What a demand active PDU brings: the share id, and the capability sets behind the description of the
-- source.
unfoldable pub demanded : Stream → Rdp → Option (Stream × Rdp × List Ui)
unfolding rdp_process_server_caps
demanded s r = do
  (shareid, s) ← in_uint32_le s
  (len_src_descriptor, s) ← in_uint16_le s
  (len_combined_caps, s) ← in_uint16_le s
  rdp_process_server_caps len_combined_caps (in_uint8s s len_src_descriptor)
      (record r { shareid = shareid })
