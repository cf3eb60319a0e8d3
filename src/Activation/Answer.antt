-- ===== src/Activation/Answer.antt =====
-- rdp.c: what process_demand_active sends and takes in, in its order.
use app_network_rdesktop.Base.{
  ℕ, ◌+◌, ◌*◌, ◌%◌, ◌^◌, ◌≤◌, ◌≡◌, refl, ap, false, leb-true, ◌==◌, List, [], ◌∷◌, ◌++◌, Option,
  some, arith, Parsed, returned,
}
use app_network_rdesktop.Stream.{Stream, in_uint8s, bytes16_le}
use app_network_rdesktop.Stream.Reading.{ahead, in_uint16_le_ahead, ahead-in_uint8s_two}
use app_network_rdesktop.Stream.Writing.{out_all_lem}
use app_network_rdesktop.Tcp.State.{Tcp}
use app_network_rdesktop.Orders.Handlers.{Surroundings}
use app_network_rdesktop.Rdp.{
  Rdp, Handed, data_flags, rdp_send_synchronise, rdp_send_control, rdp_send_fonts,
}
use app_network_rdesktop.Rdp.Bodies.{control_pdu, synchronise_pdu, fonts_pdu}
use app_network_rdesktop.Rdp.Sending.{Given, data_pdu, send_data_pdu_lem}
use app_network_rdesktop.Rdp.Confirm.{confirm_flags, confirm_active}
use app_network_rdesktop.Updates.Machine.{Machine, with_stream, next_pdu}
use app_network_rdesktop.Updates.Loop.{rdp_recv, receive, arrived}
use app_network_rdesktop.Activation.Exchange.{sent, received}

-- A slow-path packet with one PDU, whose length takes the packet in.
pub record IsPacket (s : Stream) : Type 0 where
  pub low : ℕ
  pub high : ℕ
  pub type_low : ℕ
  pub type_high : ℕ
  pub more : List ℕ
  pub bytes : ahead s ≡ low ∷ high ∷ type_low ∷ type_high ∷ more
  pub regular : (low + high * 2 ^ 8 == 0x8000) ≡ false
  pub whole : s.end ≤ s.p + (low + high * 2 ^ 8)

-- The PDU in front is the last one of its packet.
abbrev pub AtLast : Machine → Type 0
AtLast m = m.client.e.s.end ≤ m.client.next_packet

-- The machine with such a packet.
abbrev pub taken : Machine → Stream → List (Stream × ℕ) → ℕ → Machine
taken m s rest length' =
    with_stream (record m { arriving = rest }) (in_uint8s (in_uint8s (in_uint8s s 2) 2) 2)
      (s.p + length')

next_pdu-IsPacket :
    (m : Machine) (s : Stream) (rest : List (Stream × ℕ)) (is : IsPacket s)
    → next_pdu (with_stream (record m { arriving = rest }) s s.p)
      ≡ some ((is.type_low + is.type_high * 2 ^ 8) % 16, taken m s rest (is.low + is.high * 2 ^ 8))
unfolding next_pdu
next_pdu-IsPacket m s rest is =
    let two = ahead-in_uint8s_two s is.low is.high is.bytes in
    rw
      (
        in_uint16_le_ahead s is.low is.high is.bytes,
        is.regular,
        in_uint16_le_ahead (in_uint8s s 2) is.type_low is.type_high two,
      )
      refl

pub received-IsPacket :
    (c : Surroundings) (m : Machine) (s : Stream) (rest : List (Stream × ℕ)) (is : IsPacket s)
    → AtLast m
    → m.arriving ≡ (s, 3) ∷ rest
    → received c m ≡ returned (taken m s rest (is.low + is.high * 2 ^ 8))
unfolding received rdp_recv receive arrived
received-IsPacket c m s rest is last script =
    rw (leb-true m.client.e.s.end m.client.next_packet last, script, next_pdu-IsPacket m s rest is)
      refl

-- PDUs are sent and nothing else changes.
pub record Sending (m : Machine) (outs : List Handed) (a : Parsed Machine) : Type 0 where
  pub t' : Tcp
  pub answer : a ≡ returned (record m { connection = t'; given = m.given ++ outs })

pub sent-Sending :
    (sec_send : ℕ → Stream → Tcp → Tcp) (m : Machine) (flags : ℕ) (bytes : List ℕ)
    (a : Option (Handed × Tcp))
    → Given sec_send flags bytes m.connection a
    → Sending m (record { sec_flags = flags; bytes = bytes } ∷ []) (sent m a)
unfolding sent
sent-Sending sec_send m flags bytes a g = record {
  t' = sec_send flags g.s m.connection;
  answer = ap (sent m) g.answer;
}

-- A data PDU as the secure layer is given it.
abbrev pub given_data : Rdp → ℕ → List ℕ → Handed
given_data r data_pdu_type body = record {
  sec_flags = data_flags r;
  bytes = data_pdu r data_pdu_type body;
}

abbrev pub given_control : Rdp → ℕ → Handed
given_control r action = given_data r 20 (bytes16_le action ++ (0 ∷ 0 ∷ 0 ∷ 0 ∷ 0 ∷ 0 ∷ []))

abbrev pub given_fonts : Rdp → ℕ → Handed
given_fonts r seq = given_data r 39 (0 ∷ 0 ∷ 0 ∷ 0 ∷ (bytes16_le seq ++ (0x32 ∷ 0 ∷ [])))

abbrev pub given_synchronise : Rdp → Handed
given_synchronise r = given_data r 31 (1 ∷ 0 ∷ 0xea ∷ 3 ∷ [])

abbrev pub given_confirmation : Rdp → Handed
given_confirmation r = record {
  sec_flags = confirm_flags r;
  bytes = confirm_active r.settings r.mcs_userid r.shareid;
}

module _ (sec_send : ℕ → Stream → Tcp → Tcp) (m : Machine) where
  pub control-Sending :
      (action : ℕ)
      → Sending m
          (given_control m.globals action ∷ [])
          (sent m (rdp_send_control sec_send m.globals action m.connection))
  unfolding rdp_send_control control_pdu
  control-Sending action =
      sent-Sending sec_send m (data_flags m.globals) (given_control m.globals action).bytes _ (
        send_data_pdu_lem sec_send m.globals 8 (control_pdu action)
          (bytes16_le action ++ (0 ∷ 0 ∷ 0 ∷ 0 ∷ 0 ∷ 0 ∷ []))
          (λ s. out_all_lem ((0 ∷ 0 ∷ []) ∷ (0 ∷ 0 ∷ 0 ∷ 0 ∷ []) ∷ []) s (bytes16_le action))
          (omega arith) (omega arith) 20 m.connection)

  pub fonts-Sending :
      (seq : ℕ)
      → Sending m
          (given_fonts m.globals seq ∷ [])
          (sent m (rdp_send_fonts sec_send m.globals seq m.connection))
  unfolding rdp_send_fonts fonts_pdu
  fonts-Sending seq =
      sent-Sending sec_send m (data_flags m.globals) (given_fonts m.globals seq).bytes _ (
        send_data_pdu_lem sec_send m.globals 8 (fonts_pdu seq)
          (0 ∷ 0 ∷ 0 ∷ 0 ∷ (bytes16_le seq ++ (0x32 ∷ 0 ∷ [])))
          (λ s. out_all_lem ((0 ∷ 0 ∷ []) ∷ bytes16_le seq ∷ (0x32 ∷ 0 ∷ []) ∷ []) s (0 ∷ 0 ∷ []))
          (omega arith) (omega arith) 39 m.connection)

  pub synchronise-Sending :
      Sending m
        (given_synchronise m.globals ∷ [])
        (sent m (rdp_send_synchronise sec_send m.globals m.connection))
  unfolding rdp_send_synchronise synchronise_pdu
  synchronise-Sending =
      sent-Sending sec_send m (data_flags m.globals) (given_synchronise m.globals).bytes _ (
        send_data_pdu_lem sec_send m.globals 4 synchronise_pdu (1 ∷ 0 ∷ 0xea ∷ 3 ∷ [])
          (λ s. out_all_lem ((0xea ∷ 3 ∷ []) ∷ []) s (1 ∷ 0 ∷ [])) (omega arith) (omega arith) 31
          m.connection)
