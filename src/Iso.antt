-- ===== src/Iso.antt =====
-- iso.c: TPKT packets and X.224 messages on the byte stream.
-- tcp_init gives the memory of g_out; the stream is written back to the state when it is sent. `rdpver`
-- of the source is NULL for some callers: `want` says that it is not.
pub mod Packets
pub mod Receiving
pub mod Framing
pub mod Sending
pub mod RoundTrip
pub mod Connect
pub mod Messages
pub mod Security
pub mod Fallback
pub mod Runs
use app_network_rdesktop.Base.{
  ℕ, ◌+◌, ◌-◌, Bool, not, ltb, has, ◌==◌, ◌%◌, ◌&&◌, if◌then◌else◌, List, [], ◌∷◌, Option, none,
  some, length,
}
use app_network_rdesktop.Stream.{Stream, in_uint8, in_uint8s, in_uint16_be, next_be, s_mark_end}
use app_network_rdesktop.Tcp.{tcp_init, tcp_send, tcp_recv, tcp_disconnect}
use app_network_rdesktop.Tcp.State.{Tcp, Reply, done, refused, waiting, fault, ◌>>=◌, lift}
use Packets.{iso_pdu_dr, iso_pdu_dt, data_header, msg_pdu}

unfoldable pub iso_init : ℕ → Tcp → Stream
iso_init length' t = let s = tcp_init (length' + 7) t in record s { iso_hdr = s.p; p = s.p + 7 }

unfoldable pub iso_send : Stream → Tcp → Reply Tcp
iso_send s t = do s ← lift (data_header (record s { p = s.iso_hdr })); tcp_send s t

unfoldable pub iso_send_msg : ℕ → Tcp → Reply Tcp
iso_send_msg code t = do s ← lift (msg_pdu (tcp_init 11 t) code); tcp_send (s_mark_end s) t

-- The length field of a packet's header.
unfoldable pub packet_length : ℕ → Stream → Option (ℕ × Stream)
packet_length version s = if version == 3 then in_uint16_be (in_uint8s s 1) else elim (in_uint8 s) [
  | none ↦ none
  | some (len, s) ↦ if has len 0x80 then next_be s (len % 0x80) else some (len, s)
]

-- The first part of iso_recv_msg: the version, and the whole packet behind its header.
unfoldable pub recv_packet : Tcp → Reply (ℕ × Stream × Tcp)
recv_packet t = do
  (s, t) ← tcp_recv none 4 t
  (version, s) ← lift (in_uint8 s)
  (len, s) ← lift (packet_length version s)
  if ltb len 4 then refused t else (do (s, t) ← tcp_recv (some s) (len - 4) t; done (version, s, t))

-- The version, the code (`code` if the packet has none), the stream and the state.
unfoldable pub iso_recv_msg : ℕ → Tcp → Reply (ℕ × ℕ × Stream × Tcp)
iso_recv_msg code t = do
  (version, s, t) ← recv_packet t
  if not (version == 3) then done (version, code, s, t) else (do
    (code, s) ← lift (in_uint8 (in_uint8s s 1))
    done (version, code, in_uint8s s (if code == iso_pdu_dt then 1 else 5), t))

-- The version, the stream and the state.
unfoldable pub iso_recv : Bool → Tcp → Reply (ℕ × Stream × Tcp)
iso_recv want t = do
  (version, code, s, t) ← iso_recv_msg 0 t
  if want && not (version == 3)
      then done (version, s, t)
      else if code == iso_pdu_dt
      then done (version, s, t)
      else refused t

unfoldable pub iso_disconnect : Tcp → Reply Tcp
iso_disconnect t = do t ← iso_send_msg iso_pdu_dr t; done (tcp_disconnect t)
