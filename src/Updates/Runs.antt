-- ===== src/Updates/Runs.antt =====
-- rdp.c and rdp5.c at single packets.
use app_network_rdesktop.Base.{
  ℕ, ◌≡◌, refl, true, false, List, [], ◌∷◌, none, some, arith, returned, stuck,
}
use app_network_rdesktop.Stream.{of_bytes, in_uint16_le}
use app_network_rdesktop.Cache.{Caches}
use app_network_rdesktop.Cache.Bitmaps.{Bmpcache}
use app_network_rdesktop.Orders.State.{reset_order_state}
use app_network_rdesktop.Orders.Draw.{
  ui_begin_update, ui_end_update, ui_set_null_cursor, ui_move_pointer,
}
use app_network_rdesktop.Orders.Handlers.{Surroundings}
use app_network_rdesktop.Updates.{move_pointer}
use app_network_rdesktop.Updates.Parts.{Client, part_message, rdp5_process}
use app_network_rdesktop.Updates.Machine.{Machine}
use app_network_rdesktop.Updates.Loop.{rdp_loop}
use app_network_rdesktop.Updates.Endless.{rdp_loop-endless}
use app_network_rdesktop.Updates.Framing.{PlainPart, wires, rdp5_process-effects}

abbrev pub surroundings : Surroundings
surroundings = record {
  create_bitmap = λ width height bytes. 1;
  create_glyph = λ width height bytes. 2;
  create_colourmap = λ map. 3;
  create_cursor = λ x y width height mask bytes bpp. 4;
  load = λ id idx bitmaps. none;
  fresh = λ j. 0;
  persistent = λ id. false;
  rdp_v5 = true;
}

abbrev no_bitmaps : Bmpcache
no_bitmaps = record {
  bitmap = λ j. 0;
  previous = λ j. none;
  next = λ j. none;
  lru = none;
  mru = none;
  count = 0;
  volatile_bc = 0;
}

abbrev no_caches : Caches
no_caches = record {
  g_fontcache =
      λ font character. record { offset = 0; baseline = 0; width = 0; height = 0; pixmap = 0 };
  g_textcache = λ id. none;
  g_cursorcache = λ idx. 0;
  g_brushcache = λ code idx. record { colour_code = 0; data_size = 0; data' = none };
  destroyed_glyphs = [];
  destroyed_cursors = [];
}

-- A client at the start, with the given bytes to read.
abbrev pub client : List ℕ → Client
client bytes = record {
  e = record {
    s = of_bytes bytes;
    os = reset_order_state;
    w = record { caches = no_caches; bitmaps = λ id. no_bitmaps };
  };
  dict = record { roff = 0; hist = λ j. 0 };
  next_packet = 0;
  ext_disc_reason = 0;
  has_reconnect_random = false;
  reconnect_logonid = 0;
  reconnect_random = [];
}

-- A packet with one PDU: its length is 0 and its type is RDP_PDU_DEACTIVATE.
abbrev pub deactivating : Machine
deactivating = record {
  client = client (0 ∷ 0 ∷ 6 ∷ 0 ∷ []);
  arriving = [];
  redirect = record {
    redirect = false;
    session_id = 0;
    flags = 0;
    server = none;
    lb_info = none;
    username = none;
    domain = none;
    cookie = none;
  };
  deactivated = false;
  password = [];
  calls = [];
  globals = record {
    encryption = true;
    licensed = true;
    mcs_userid = 6;
    shareid = 0x103ea;
    width = 800;
    height = 600;
    settings = record {
      rdp_v5 = true;
      server_depth = 16;
      bitmap_compression = true;
      bitmap_cache = true;
      desktop_save = true;
      polygon_ellipse_orders = false;
      bitmap_cache_persist_enable = true;
      pstcache_init = true;
    };
  };
  connection = record {
    g_in = of_bytes [];
    g_out = of_bytes [];
    g_network_error = false;
    g_user_quit = false;
    arrivals = [];
    writes = [];
    wire = [];
  };
  given = [];
}

rdp_loop-endless_example :
    rdp_loop surroundings (λ bytes. some bytes) (λ m. returned m) 1000 deactivating ≡ stuck
rdp_loop-endless_example =
    rdp_loop-endless surroundings (λ bytes. some bytes) (λ m. returned m) 1000 deactivating
      (record {
        low = 6;
        high = 0;
        rest = [];
        before = omega arith;
        bytes = refl;
        deactivate = omega arith;
      })

-- The pointer hidden, and moved by a part with a byte too many.
abbrev pointers : List PlainPart
pointers =
    record { type = 5; content = [] } ∷ record { type = 8; content = 3 ∷ 0 ∷ 4 ∷ 0 ∷ 9 ∷ [] } ∷ []

rdp5_process-effects_example :
    rdp5_process surroundings (client (wires pointers))
    ≡ returned (
      record (client (wires pointers)) {
        e = record ((client (wires pointers)).e) {
          s = record (of_bytes (wires pointers)) { p = 11 };
        };
        next_packet = 11;
      },
      ui_begin_update ∷ ui_set_null_cursor ∷ ui_move_pointer 3 4 ∷ ui_end_update ∷ [],
    )
unfolding part_message move_pointer in_uint16_le
rdp5_process-effects_example =
    rdp5_process-effects surroundings pointers (client (wires pointers))
      (
        record { plain_type = refl; length16 = omega arith },
        (record { plain_type = refl; length16 = omega arith }, tt),
      )
      (record { order = omega arith; inside = omega arith; is = refl })
