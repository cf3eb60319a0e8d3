-- ===== src/Activation/Exchange.antt =====
-- rdp.c: the answer to a demand active PDU.
-- rd_create_ui of rdesktop.c, the state of the num lock key and the keys of the persistent bitmap cache are
-- parameters, as sec_send is.
use app_network_rdesktop.Base.{
  Bool, not, ◌||◌, zero, suc, stuck, ℕ, if◌then◌else◌, List, [], ◌∷◌, ◌++◌, Option, none, some,
  Parsed, returned, fault,
}
use app_network_rdesktop.Stream.{Stream}
use app_network_rdesktop.Tcp.State.{Tcp}
use app_network_rdesktop.Orders.State.{reset_order_state}
use app_network_rdesktop.Orders.Draw.{Ui}
use app_network_rdesktop.Orders.Handlers.{Surroundings}
use app_network_rdesktop.Rdp.{
  Rdp, Handed, rdp_send_confirm_active, rdp_send_synchronise, rdp_send_control, rdp_send_input,
  rdp_enum_bmpcache2, rdp_send_fonts,
}
use app_network_rdesktop.Updates.Machine.{Machine, with_stream}
use app_network_rdesktop.Updates.Loop.{rdp_loop, straight, rdp_recv, ◌>>=◌}
use app_network_rdesktop.Activation.{demanded}

-- What rd_create_ui and the capability sets make of the state.
abbrev pub with_demanded : Machine → List Ui → Stream × Rdp × List Ui → Machine
with_demanded m created (s, r, calls) = record (with_stream m s m.client.next_packet) {
  calls = m.calls ++ created ++ calls;
  globals = r;
}

-- A PDU that is sent, and several.
unfoldable pub sent : Machine → Option (Handed × Tcp) → Parsed Machine
sent m none = fault
sent m (some (out, t)) = returned (record m { connection = t; given = m.given ++ out ∷ [] })

unfoldable pub all_sent : Machine → Option (List Handed × Tcp) → Parsed Machine
all_sent m none = fault
all_sent m (some (outs, t)) = returned (record m { connection = t; given = m.given ++ outs })

-- rdp_recv, whose result is not looked at.
unfoldable pub received : Surroundings → Machine → Parsed Machine
received c m = do (type, m) ← rdp_recv c m; returned m

module _ (c : Surroundings) (sec_send : ℕ → Stream → Tcp → Tcp) (rd_create_ui : List Ui)
    (numlock_state : ℕ) (keylist : List (List ℕ)) where
  -- The fonts, and the keys of the persistent cache in front of them from RDP 5 on.
  unfoldable pub send_lists : Machine → Parsed Machine
  unfolding sent all_sent
  send_lists m =
      if m.globals.settings.rdp_v5
      then (do
        m ← all_sent m (rdp_enum_bmpcache2 sec_send m.globals keylist m.connection)
        sent m (rdp_send_fonts sec_send m.globals 3 m.connection))
      else (do
        m ← sent m (rdp_send_fonts sec_send m.globals 1 m.connection)
        sent m (rdp_send_fonts sec_send m.globals 2 m.connection))

  -- The PDUs that are sent before the server answers: RDP_CTL_COOPERATE is 4, RDP_CTL_REQUEST_CONTROL 1.
  unfoldable pub send_confirmation : Machine → Parsed Machine
  unfolding sent
  send_confirmation m = do
    m ← sent m (rdp_send_confirm_active sec_send m.globals m.connection)
    m ← sent m (rdp_send_synchronise sec_send m.globals m.connection)
    m ← sent m (rdp_send_control sec_send m.globals 4 m.connection)
    sent m (rdp_send_control sec_send m.globals 1 m.connection)

  -- RDP_INPUT_SYNCHRONIZE is 0.
  unfoldable pub process_demand_active : Machine → Parsed Machine
  unfolding received send_lists send_confirmation sent
  process_demand_active m = do
    d ← straight (demanded m.client.e.s m.globals)
    m ← send_confirmation (with_demanded m rd_create_ui d)
    m ← received c m
    m ← received c m
    m ← received c m
    m ← sent m (rdp_send_input sec_send m.globals 0 0 0 numlock_state 0 m.connection)
    m ← send_lists m
    m ← received c m
    let k = m.client
    returned (record m { client = record k { e = record (k.e) { os = reset_order_state } } })

  -- rdp_loop until it returns False, the size of the window is to change, or the session goes to another
  -- server. Each rdp_loop runs on the fuel `rounds`.
  unfoldable pub rdp_main_loop :
      (List ℕ → Option (List ℕ)) → Bool → ℕ → ℕ → Machine → Parsed Machine
  unfolding process_demand_active
  rdp_main_loop convert pending_resize rounds zero m = stuck
  rdp_main_loop convert pending_resize rounds (suc fuel) m = do
    (more, m) ← rdp_loop c convert process_demand_active rounds m
    let rest = rdp_main_loop convert pending_resize rounds fuel m
    if not more || pending_resize || m.redirect.redirect then returned m else rest
