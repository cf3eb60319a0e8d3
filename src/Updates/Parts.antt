-- ===== src/Updates/Parts.antt =====
-- rdp5.c: the parts of a fast-path packet; and the data PDUs of rdp.c. Both may be compressed.
use app_network_rdesktop.Base.{
  ℕ, zero, suc, ◌+◌, ◌-◌, Bool, has, ltb, leb, ◌==◌, if◌then◌else◌, List, [], ◌∷◌, ◌++◌, Option,
  none, some, ◌>>=◌, drop, window, Parsed, returned, fault, stuck,
}
use app_network_rdesktop.Stream.{Stream, of_bytes, in_uint8, in_uint8s, in_uint16_le}
use app_network_rdesktop.Mppc.{
  Rdpcomp, mppc_expand, mppc_left, rdp_mppc_compressed, rdp_mppc_dict_size,
}
use app_network_rdesktop.Mppc.Endings
use app_network_rdesktop.Orders.Draw.{Ui, ui_set_null_cursor, ui_begin_update, ui_end_update}
use app_network_rdesktop.Orders.Dispatch.{Session, Work}
use app_network_rdesktop.Orders.Handlers.{Surroundings}
use app_network_rdesktop.Updates.{
  orders_of, process_bitmap_updates, process_palette, move_pointer, process_colour_pointer_pdu,
  process_cached_pointer_pdu, process_new_pointer_pdu,
}

-- The session and what the packets leave besides: g_mppc_dict, g_next_packet, the reason of a disconnect,
-- and the cookie to connect again with (without its time).
pub record Client : Type 0 where
  pub e : Session
  pub dict : Rdpcomp
  pub next_packet : ℕ
  pub ext_disc_reason : ℕ
  pub has_reconnect_random : Bool
  pub reconnect_logonid : ℕ
  pub reconnect_random : List ℕ

-- The state after a packet, and the calls of the user interface.
abbrev pub Handled : Type 0
Handled = Client × List Ui

-- The expanded data as a stream. When mppc_expand fails, which sets the length to 0, the code goes on with
-- no data, in the one byte that xrealloc gives then; what is read takes two bytes at least, which is a
-- fault.
unfoldable pub expanded : Rdpcomp → List ℕ → ℕ → ℕ → Option (Rdpcomp × Stream)
expanded d data' clen ctype = elim (mppc_expand d data' clen ctype) [
  | Endings.value x ↦
      if leb (x.roff + x.rlen) rdp_mppc_dict_size
      then some (x.dict, of_bytes (window (x.dict).hist x.roff x.rlen))
      else none
  | Endings.minus_one ↦ some (mppc_left d data' clen ctype, of_bytes [])
  | Endings.fault ↦ none
  | Endings.stuck ↦ none
]

-- The stream to read on from: the same one, or the expanded data.
unfoldable pub plain : Rdpcomp → Stream → ℕ → ℕ → Option (Rdpcomp × Stream)
unfolding expanded
plain d s clen ctype =
    if has ctype rdp_mppc_compressed then expanded d (drop s.p s.buf) clen ctype else some (d, s)

-- A part's type, its kind of compression and its length.
pub record Part : Type 0 where
  pub type : ℕ
  pub ctype : ℕ
  pub length' : ℕ

unfoldable pub read_part : Stream → Option (Part × Stream)
read_part s = do
  (type, s) ← in_uint8 s
  if has type 0x80
      then (do
        (ctype, s) ← in_uint8 s
        (length', s) ← in_uint16_le s
        some (record { type = type - 0x80; ctype = ctype; length' = length' }, s))
      else (do
        (length', s) ← in_uint16_le s
        some (record { type = type; ctype = 0; length' = length' }, s))

unfoldable pub prepend : List Ui → Parsed Handled → Parsed Handled
prepend calls (returned (k, more)) = returned (k, calls ++ more)
prepend calls fault = fault
prepend calls stuck = stuck

unfoldable pub go_on : Option Handled → (Client → Parsed Handled) → Parsed Handled
unfolding prepend
go_on none next = fault
go_on (some (k, calls)) next = prepend calls (next k)

-- The calls of a packet stand between those that begin and end the update.
unfoldable pub between_updates : Parsed Handled → Parsed Handled
between_updates (returned (k, calls)) = returned (k, ui_begin_update ∷ calls ++ ui_end_update ∷ [])
between_updates fault = fault
between_updates stuck = stuck

module _ (c : Surroundings) where
  -- The switch over the types of parts.
  unfoldable pub part_message : ℕ → Session → Option Work
  part_message type e =
      if type == 0
      then (do (count, s) ← in_uint16_le e.s; orders_of c count (record e { s = s }))
      else if type == 1
      then process_bitmap_updates c (record e { s = in_uint8s (e.s) 2 })
      else if type == 2
      then process_palette c (record e { s = in_uint8s (e.s) 2 })
      else if type == 5
      then some (e, ui_set_null_cursor ∷ [])
      else if type == 8
      then move_pointer e
      else if type == 9
      then process_colour_pointer_pdu c e
      else if type == 10
      then process_cached_pointer_pdu e
      else if type == 11
      then process_new_pointer_pdu c e
      else some (e, [])

  -- One part; the next one is where its length says.
  unfoldable pub process_part : Client → Option Handled
  process_part k = do
    (part, s) ← read_part k.e.s
    let next = s.p + part.length'
    (dict, ts) ← plain k.dict s part.length' part.ctype
    (e, calls) ← part_message part.type (record (k.e) { s = ts })
    some (
      record k { e = record e { s = record s { p = next } }; dict = dict; next_packet = next },
      calls,
    )

  -- The loop over the parts, each of three bytes at least.
  unfoldable pub process_parts : ℕ → Client → Parsed Handled
  process_parts zero k = stuck
  process_parts (suc fuel) k =
      let rest = go_on (process_part k) (process_parts fuel) in
      if ltb k.e.s.p k.e.s.end then rest else returned (k, [])

  unfoldable pub rdp5_process : Client → Parsed Handled
  unfolding process_parts between_updates
  rdp5_process k = between_updates (process_parts (suc (k.e.s.end - k.e.s.p)) k)
