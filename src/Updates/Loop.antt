-- ===== src/Updates/Loop.antt =====
-- rdp.c: rdp_recv, which gives one PDU after the other, and rdp_loop, which processes those that wait.
-- What sec_recv gives is a script: streams with the version byte, and NULL behind the last one.
-- process_demand_active is a parameter. rdp_loop runs on fuel.
use app_network_rdesktop.Base.{
  ℕ, zero, suc, Bool, true, false, ltb, leb, ◌==◌, if◌then◌else◌, List, [], ◌∷◌, Option, none, some,
  Parsed, returned, fault, stuck,
}
use app_network_rdesktop.Stream.{Stream}
use app_network_rdesktop.Orders.Handlers.{Surroundings}
use app_network_rdesktop.Updates.Parts.{rdp5_process}
use app_network_rdesktop.Updates.Machine.{Machine, with_stream, with_handled, next_pdu}
use app_network_rdesktop.Updates.Pdus.{process_data_pdu, process_redirect_pdu}

infixl 5 ◌>>=◌
abbrev pub ◌>>=◌ {ℓ κ} : {A : Type ℓ} {B : Type κ} → Parsed A → (A → Parsed B) → Parsed B
returned a >>= f = f a
fault >>= f = fault
stuck >>= f = stuck

-- A piece without a loop.
abbrev pub straight {ℓ} : {A : Type ℓ} → Option A → Parsed A
straight none = fault
straight (some a) = returned a

-- The type of a PDU, or none for NULL.
abbrev pub Received : Type 0
Received = Option ℕ × Machine

module _ (c : Surroundings) where
  -- A new packet: of a licence error, of the fast path, or of PDUs.
  unfoldable pub arrived : Stream → ℕ → Machine → Parsed (ℕ × Machine)
  unfolding next_pdu
  arrived s rdpver m =
      if rdpver == 0xff
      then returned (0, with_stream m s s.end)
      else if rdpver == 3
      then straight (next_pdu (with_stream m s s.p))
      else (do
        handled ← rdp5_process c (record (m.client) { e = record (m.client.e) { s = s } })
        returned (0, with_handled m handled))

  unfoldable pub receive : List (Stream × ℕ) → Machine → Parsed Received
  unfolding arrived
  receive [] m = returned (none, m)
  receive ((s, rdpver) ∷ arriving) m = do
    (type, m) ← arrived s rdpver (record m { arriving = arriving })
    returned (some type, m)

  unfoldable pub rdp_recv : Machine → Parsed Received
  unfolding receive next_pdu
  rdp_recv m =
      if leb m.client.e.s.end m.client.next_packet
      then receive m.arriving m
      else (do (type, m) ← straight (next_pdu m); returned (some type, m))

  module _ (convert : List ℕ → Option (List ℕ))
      (process_demand_active : Machine → Parsed Machine) where
    -- A redirection, which ends rdp_loop.
    unfoldable pub redirected : Bool → Machine → Parsed (Option Bool × Machine)
    redirected enhanced m = do
      (redirect, s) ← straight (process_redirect_pdu convert enhanced m.redirect m.client.e.s)
      returned (some true, record (with_stream m s m.client.next_packet) { redirect = redirect })

    -- The switch over the types of PDUs, and what rdp_loop returns if it ends here.
    unfoldable pub pdu_message : ℕ → Machine → Parsed (Option Bool × Machine)
    unfolding redirected
    pdu_message type m =
        if type == 1
        then (do m ← process_demand_active m; returned (none, record m { deactivated = false }))
        else if type == 6
        then returned (none, record m { deactivated = true })
        else if type == 4
        then redirected false m
        else if type == 10
        then redirected true m
        else if type == 7
        then (do
          handled ← straight (process_data_pdu c m.client)
          returned (none, with_handled (record m { password = [] }) handled))
        else returned (none, m)

    -- Behind a PDU: the value that rdp_loop returns, or whether another PDU waits in the packet.
    unfoldable pub next_round :
        (Machine → Parsed (Bool × Machine)) → Option Bool × Machine → Parsed (Bool × Machine)
    next_round loop (some result, m) = returned (result, m)
    next_round loop (none, m) =
        let rest = loop m in
        if ltb m.client.next_packet m.client.e.s.end then rest else returned (true, m)

    unfoldable pub process_received :
        (Machine → Parsed (Bool × Machine)) → Received → Parsed (Bool × Machine)
    unfolding pdu_message next_round
    process_received loop (none, m) = returned (false, m)
    process_received loop (some type, m) = pdu_message type m >>= next_round loop

    unfoldable pub rdp_loop : ℕ → Machine → Parsed (Bool × Machine)
    rdp_loop zero m = stuck
    rdp_loop (suc fuel) m = rdp_recv m >>= process_received (rdp_loop fuel)
