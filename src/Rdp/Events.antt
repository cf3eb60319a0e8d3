-- ===== src/Rdp/Events.antt =====
-- The data PDUs with input, control and window status.
use app_network_rdesktop.Base.{ℕ, List, [], ◌∷◌, ◌++◌, arith}
use app_network_rdesktop.Stream.{Stream, bytes16_le, bytes32_le}
use app_network_rdesktop.Stream.Writing.{out_all_lem}
use app_network_rdesktop.Tcp.State.{Tcp}
use app_network_rdesktop.Rdp.{Rdp, data_flags, rdp_send_input}
use app_network_rdesktop.Rdp.Bodies.{input_pdu}
use app_network_rdesktop.Rdp.Sending.{data_pdu, Given, send_data_pdu_lem}

-- One input event, behind the number of events.
abbrev pub input_event : ℕ → ℕ → ℕ → ℕ → ℕ → List ℕ
input_event time message_type device_flags param1 param2 =
    1
    ∷ 0
    ∷ 0
    ∷ 0
    ∷ (bytes32_le time
        ++ (bytes16_le message_type
            ++ (bytes16_le device_flags ++ (bytes16_le param1 ++ bytes16_le param2))))

module _ (sec_send : ℕ → Stream → Tcp → Tcp) (r : Rdp) where
  -- Whatever memory the stream has and whatever was in it: an input event is handed to the secure layer,
  -- encrypted if the session is, as a data PDU that announces its own length, 34 bytes, with the user and
  -- share ids, the time, the type, the flags and the parameters, and nothing is written outside the stream.
  pub rdp_send_input_lem :
      (time message_type device_flags param1 param2 : ℕ) (t : Tcp)
      → Given sec_send
          (data_flags r)
          (data_pdu r 28 (input_event time message_type device_flags param1 param2))
          t
          (rdp_send_input sec_send r time message_type device_flags param1 param2 t)
  unfolding rdp_send_input input_pdu
  rdp_send_input_lem time message_type device_flags param1 param2 t =
      send_data_pdu_lem sec_send r 16 (input_pdu time message_type device_flags param1 param2)
        (input_event time message_type device_flags param1 param2)
        (λ s.
          out_all_lem
            ((0 ∷ 0 ∷ [])
              ∷ bytes32_le time
              ∷ bytes16_le message_type
              ∷ bytes16_le device_flags
              ∷ bytes16_le param1
              ∷ bytes16_le param2
              ∷ [])
            s (1 ∷ 0 ∷ []))
        (omega arith) (omega arith) 28 t
