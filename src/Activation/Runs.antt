-- ===== src/Activation/Runs.antt =====
-- rdp.c: the answer to a demand active PDU at concrete packets.
use app_network_rdesktop.Base.{ℕ, ◌≡◌, refl, false, List, [], ◌∷◌, ◌++◌, some, arith, replicate}
use app_network_rdesktop.Stream.{Stream, of_bytes, in_uint32_le, in_uint16_le}
use app_network_rdesktop.Tcp.State.{Tcp}
use app_network_rdesktop.Orders.Draw.{ui_resize_window}
use app_network_rdesktop.Rdp.{Rdp}
use app_network_rdesktop.Updates.Machine.{Machine}
use app_network_rdesktop.Updates.Runs.{surroundings, client, deactivating}
use app_network_rdesktop.Activation.{rdp_process_server_caps, demanded}
use app_network_rdesktop.Activation.Exchange.{process_demand_active}
use app_network_rdesktop.Activation.Sets.{
  CapSet, general, bitmap, other, wires, rdp_process_server_caps-effects,
}
use app_network_rdesktop.Activation.Answer.{IsPacket}
use app_network_rdesktop.Activation.Order.{Answered, process_demand_active-Answered}

abbrev server_sets : List CapSet
server_sets =
    general (replicate 10 0) 0 []
    ∷ bitmap 8 (replicate 6 1) 1024 768 (7 ∷ [])
    ∷ other 9 (5 ∷ [])
    ∷ []

-- The sets with four bytes behind them.
abbrev announced : Stream
announced = of_bytes (3 ∷ 0 ∷ 0 ∷ 0 ∷ (wires server_sets ++ replicate 4 9))

abbrev connected : Rdp
connected = deactivating.globals

rdp_process_server_caps-effects_example :
    rdp_process_server_caps 42 announced connected
    ≡ some (
      record announced { p = 42 },
      record connected {
        width = 1024;
        height = 768;
        settings = record (connected.settings) { rdp_v5 = false; server_depth = 8 };
      },
      ui_resize_window ∷ [],
    )
rdp_process_server_caps-effects_example =
    rdp_process_server_caps-effects server_sets (0 ∷ 0 ∷ []) (replicate 4 9) 42 announced connected
      (
        ((refl, omega arith), omega arith),
        (
          ((refl, omega arith, omega arith, omega arith), omega arith),
          (((refl, refl, omega arith), omega arith), tt),
        ),
      )
      (omega arith) refl (omega arith)
      (record { order = omega arith; inside = omega arith; is = refl })

-- A demand active PDU without capability sets, and its packet.
abbrev demand : List ℕ
demand = 5 ∷ 0 ∷ 0 ∷ 0 ∷ 0 ∷ 0 ∷ 4 ∷ 0 ∷ 0 ∷ 0 ∷ 0 ∷ 0 ∷ []

-- A packet with a data PDU of which only the header is there.
abbrev packet : Stream
packet = of_bytes (6 ∷ 0 ∷ 0x17 ∷ 0 ∷ 0 ∷ 0 ∷ [])

packet-IsPacket : IsPacket packet
packet-IsPacket = record {
  low = 6;
  high = 0;
  type_low = 0x17;
  type_high = 0;
  more = 0 ∷ 0 ∷ [];
  bytes = refl;
  regular = refl;
  whole = omega arith;
}

abbrev activated : Machine
activated = record deactivating {
  client = record (client demand) { next_packet = 12 };
  arriving = (packet, 3) ∷ (packet, 3) ∷ (packet, 3) ∷ (packet, 3) ∷ [];
}

-- A secure layer that keeps the stream as it is.
abbrev kept : ℕ → Stream → Tcp → Tcp
kept flags s t = record t { g_out = s }

process_demand_active-Answered_example :
    Answered activated
      (record connected { shareid = 5 })
      2
      (replicate 8 1 ∷ [])
      []
      (process_demand_active surroundings kept [] 2 (replicate 8 1 ∷ []) activated)
unfolding demanded in_uint32_le in_uint16_le
process_demand_active-Answered_example =
    process_demand_active-Answered surroundings kept [] 2 (replicate 8 1 ∷ []) activated
      (record (of_bytes demand) { p = 12 }, record connected { shareid = 5 }, []) packet packet
      packet packet [] refl (omega arith) refl packet-IsPacket packet-IsPacket packet-IsPacket
      packet-IsPacket (refl, tt)
