-- ===== src/Rdp/Runs.antt =====
-- The client's PDUs at concrete settings.
use app_network_rdesktop.Base.{ℕ, refl, true, false, List, [], ◌∷◌, replicate}
use app_network_rdesktop.Stream.{Stream, of_bytes}
use app_network_rdesktop.Tcp.State.{Tcp}
use app_network_rdesktop.Rdp.{
  Rdp, data_flags, rdp_send_input, rdp_enum_bmpcache2, rdp_send_confirm_active,
}
use app_network_rdesktop.Rdp.Capabilities.{Settings}
use app_network_rdesktop.Rdp.Sending.{Given, data_pdu}
use app_network_rdesktop.Rdp.Events.{input_event, rdp_send_input_lem}
use app_network_rdesktop.Rdp.Enumeration.{Listed, rdp_enum_bmpcache2-Listed}
use app_network_rdesktop.Rdp.Confirm.{confirm_flags, confirm_active, rdp_send_confirm_active_lem}

abbrev modern : Settings
modern = record {
  rdp_v5 = true;
  server_depth = 16;
  bitmap_compression = true;
  bitmap_cache = true;
  desktop_save = true;
  polygon_ellipse_orders = false;
  bitmap_cache_persist_enable = true;
  pstcache_init = true;
}

abbrev in_session : Rdp
in_session = record {
  encryption = true;
  licensed = true;
  mcs_userid = 6;
  shareid = 0x103ea;
  width = 800;
  height = 600;
  settings = modern;
}

abbrev quiet : Tcp
quiet = record {
  g_in = of_bytes [];
  g_out = of_bytes [];
  g_network_error = false;
  g_user_quit = false;
  arrivals = [];
  writes = [];
  wire = [];
}

-- A secure layer that keeps the stream as it is.
abbrev kept : ℕ → Stream → Tcp → Tcp
kept flags s t = record t { g_out = s }

rdp_send_confirm_active_lem_example :
    Given kept
      (confirm_flags in_session)
      (confirm_active modern 6 0x103ea)
      quiet
      (rdp_send_confirm_active kept in_session quiet)
rdp_send_confirm_active_lem_example = rdp_send_confirm_active_lem kept in_session quiet

rdp_send_input_lem_example :
    Given kept
      (data_flags in_session)
      (data_pdu in_session 28 (input_event 1 4 0 30 0))
      quiet
      (rdp_send_input kept in_session 1 4 0 30 0 quiet)
rdp_send_input_lem_example = rdp_send_input_lem kept in_session 1 4 0 30 0 quiet

abbrev two_keys : List (List ℕ)
two_keys = replicate 8 1 ∷ replicate 8 2 ∷ []

rdp_enum_bmpcache2-Listed_example :
    Listed in_session 2 0 two_keys (rdp_enum_bmpcache2 kept in_session two_keys quiet)
rdp_enum_bmpcache2-Listed_example =
    rdp_enum_bmpcache2-Listed kept in_session 2 two_keys quiet (refl, (refl, tt)) refl
