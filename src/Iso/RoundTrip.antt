-- ===== src/Iso/RoundTrip.antt =====
-- What iso_send sends is what iso_recv at the other end returns.
use app_network_rdesktop.Base.{
  ℕ, ◌<◌, ◌≤◌, ◌≡◌, ◌^◌, Bool, false, List, ◌++◌, length, take, drop, arith,
}
use app_network_rdesktop.Stream.{Stream}
use app_network_rdesktop.Tcp.State.{Tcp}
use app_network_rdesktop.Tcp.Receiving.{Flows, flat}
use app_network_rdesktop.Tcp.Sending.{Takes}
use app_network_rdesktop.Iso.{iso_send, iso_recv}
use app_network_rdesktop.Iso.Framing.{data_packet, Data, iso_recv-data_packet}
use app_network_rdesktop.Iso.Sending.{Posted, payload, length-payload, iso_send_lem}

-- A stream with the 7 bytes of the ISO header in front and less than 2^16 bytes is sent by `iso_send`
-- as one packet behind what was sent before, in whatever pieces the socket takes it. An `iso_recv` to
-- which that packet comes, in whatever pieces and however late, returns version 3 and a stream whose
-- unread bytes are the ones behind the header of the stream sent, and leaves what comes after the packet.
pub iso_recv-iso_send :
    (s : Stream) (room : 7 ≤ s.end) (inside : s.end ≤ length s.buf) (small : s.end < 2 ^ 16)
    (t : Tcp)
    → s.iso_hdr ≡ 0
    → t.g_network_error ≡ false
    → Takes t.writes
    → (want : Bool) (rest : List ℕ) (u : Tcp) → u.g_network_error ≡ false
    → Flows u.arrivals
    → flat u.arrivals ≡ data_packet (drop 7 (take s.end s.buf)) ++ rest
    → Posted (data_packet (drop 7 (take s.end s.buf))) t (iso_send s t)
      × Data (drop 7 (take s.end s.buf)) rest u (iso_recv want u)
iso_recv-iso_send s room inside small t h e w want rest u e' f a = (
  iso_send_lem s room inside small t h e w,
  iso_recv-data_packet want (payload s room inside small) rest u e' f a
      (omega (arith, length-payload s room inside small)),
)
