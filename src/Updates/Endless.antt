-- ===== src/Updates/Endless.antt =====
-- rdp_loop steps to the next PDU by the length that the PDU gives.
use app_network_rdesktop.Base.{
  ℕ, zero, suc, ◌+◌, ◌*◌, ◌%◌, ◌^◌, ◌<◌, ◌≡◌, refl, ◌∙◌, true, false, lt→ltb, leb, List, ◌∷◌,
  Option, arith, drop, Parsed, stuck, some,
}
use app_network_rdesktop.Stream.{Stream, in_uint8s}
use app_network_rdesktop.Stream.Reading.{in_uint16_le_ahead, ahead-in_uint8s_two}
use app_network_rdesktop.Orders.Handlers.{Surroundings}
use app_network_rdesktop.Updates.Machine.{Machine, next_pdu, with_stream}
use app_network_rdesktop.Updates.Loop.{
  rdp_recv, pdu_message, next_round, process_received, rdp_loop,
}

-- A PDU without a length, of the type that deactivates, is next in the packet.
pub record Waiting (m : Machine) : Type 0 where
  pub low : ℕ
  pub high : ℕ
  pub rest : List ℕ
  pub before : m.client.next_packet < m.client.e.s.end
  pub bytes : drop m.client.next_packet m.client.e.s.buf ≡ 0 ∷ 0 ∷ low ∷ high ∷ rest
  pub deactivate : low % 16 ≡ 6

-- The machine behind such a PDU.
abbrev pub behind : Machine → Machine
behind m =
    with_stream m (in_uint8s (record (m.client.e.s) { p = m.client.next_packet }) 6)
      m.client.next_packet

next_pdu-Waiting : (m : Machine) → Waiting m → next_pdu m ≡ some (6, behind m)
unfolding next_pdu
next_pdu-Waiting m w =
    let s : Stream = record (m.client.e.s) { p = m.client.next_packet } in
    let two = ahead-in_uint8s_two s 0 0 w.bytes in
    let type : (w.low + w.high * 2 ^ 8) % 16 ≡ 6 = omega (arith, w.deactivate) in
    let steps : m.client.next_packet + 2 + 2 + 2 ≡ m.client.next_packet + 6 = omega arith in
    let stays : m.client.next_packet + 0 ≡ m.client.next_packet = omega arith in
    rw (in_uint16_le_ahead s 0 0 w.bytes, in_uint16_le_ahead (in_uint8s s 2) w.low w.high two, type)
      (λ i. some (6, with_stream m (record (m.client.e.s) { p = steps i }) (stays i)))

module _ (c : Surroundings) (convert : List ℕ → Option (List ℕ))
    (process_demand_active : Machine → Parsed Machine) where
  round :
      (fuel : ℕ) (m : Machine)
      → Waiting m
      → rdp_loop c convert process_demand_active (suc fuel) m
        ≡ rdp_loop c convert process_demand_active fuel (record (behind m) { deactivated = true })
  unfolding rdp_loop rdp_recv process_received pdu_message next_round
  round fuel m w =
      let waits : leb m.client.e.s.end m.client.next_packet ≡ false = ground (arith, w.before) in
      rw (waits, next_pdu-Waiting m w, lt→ltb m.client.next_packet m.client.e.s.end w.before) refl

  -- A PDU of length 0 and of the type RDP_PDU_DEACTIVATE that is next in a packet makes rdp_loop process it
  -- again and again: however long it runs, it does not come to an end.
  pub rdp_loop-endless :
      (fuel : ℕ) (m : Machine) → Waiting m → rdp_loop c convert process_demand_active fuel m ≡ stuck
  unfolding rdp_loop
  rdp_loop-endless zero m w = refl
  rdp_loop-endless (suc fuel) m w =
      round fuel m w
      ∙ rdp_loop-endless fuel (record (behind m) { deactivated = true })
          (record {
            low = w.low;
            high = w.high;
            rest = w.rest;
            before = w.before;
            bytes = w.bytes;
            deactivate = w.deactivate;
          })
