-- ===== src/Updates/Machine.antt =====
-- rdp.c: the state of rdp_loop, and the header of a PDU.
use app_network_rdesktop.Base.{
  ℕ, ◌+◌, ◌%◌, Bool, ◌==◌, if◌then◌else◌, List, ◌++◌, Option, some, ◌>>=◌,
}
use app_network_rdesktop.Stream.{Stream, in_uint8s, in_uint16_le}
use app_network_rdesktop.Orders.Draw.{Ui}
use app_network_rdesktop.Tcp.State.{Tcp}
use app_network_rdesktop.Rdp.{Rdp, Handed}
use app_network_rdesktop.Updates.Parts.{Client, Handled}
use app_network_rdesktop.Updates.Pdus.{Redirect}

-- The client with rdp_s as its stream, what is still to come, and what rdp_loop leaves: the redirection,
-- `*deactivated`, g_password, the calls of the user interface so far; the globals that the client's own
-- packets show, the connection they go out on, and what the secure layer is given so far.
pub record Machine : Type 0 where
  pub client : Client
  pub arriving : List (Stream × ℕ)
  pub redirect : Redirect
  pub deactivated : Bool
  pub password : List ℕ
  pub calls : List Ui
  pub globals : Rdp
  pub connection : Tcp
  pub given : List Handed

abbrev pub with_stream : Machine → Stream → ℕ → Machine
with_stream m s next = record m {
  client = record (m.client) { e = record (m.client.e) { s = s }; next_packet = next };
}

abbrev pub with_handled : Machine → Handled → Machine
with_handled m h = record m { client = h.0; calls = m.calls ++ h.1 }

-- The header of the PDU at g_next_packet. A length of 0x8000 is one of 8.
unfoldable pub next_pdu : Machine → Option (ℕ × Machine)
next_pdu m = do
  let next = m.client.next_packet
  (length', s) ← in_uint16_le (record (m.client.e.s) { p = next })
  if length' == 0x8000 then some (0, with_stream m s (next + 8)) else (do
    (pdu_type, s) ← in_uint16_le s
    some (pdu_type % 16, with_stream m (in_uint8s s 2) (next + length')))
