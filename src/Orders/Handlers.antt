-- ===== src/Orders/Handlers.antt =====
-- orders.c: the switch of process_secondary_order over the types, for the parameter `handle` of
-- Orders/Dispatch.
use app_network_rdesktop.Base.{ℕ, Bool, true, false, ◌==◌, if◌then◌else◌, List, [], Option, some}
use app_network_rdesktop.Cache.Bitmaps.{Bmpcache}
use app_network_rdesktop.Orders.Dispatch.{Session, Work}
use app_network_rdesktop.Orders.Pictures.{process_raw_bmpcache, process_bmpcache, process_bmpcache2}
use app_network_rdesktop.Orders.Brushes.{process_colcache, process_fontcache, process_brushcache}

-- What the handlers take from elsewhere: the handles that the user interface returns, what fresh memory
-- holds, pstcache_load_bitmap, IS_PERSISTENT, and `g_rdp_version >= RDP_V5`.
pub record Surroundings : Type 0 where
  pub create_bitmap : ℕ → ℕ → List ℕ → ℕ
  pub create_glyph : ℕ → ℕ → List ℕ → ℕ
  pub create_colourmap : List (ℕ × ℕ × ℕ) → ℕ
  pub create_cursor : ℕ → ℕ → ℕ → ℕ → List ℕ → List ℕ → ℕ → ℕ
  pub load : ℕ → ℕ → Bmpcache → Option Bmpcache
  pub fresh : ℕ → ℕ
  pub persistent : ℕ → Bool
  pub rdp_v5 : Bool

unfoldable pub handle_secondary : Surroundings → ℕ → ℕ → Session → Option Work
unfolding process_raw_bmpcache process_bmpcache process_bmpcache2 process_colcache process_fontcache
    process_brushcache
handle_secondary c type flags e =
    if type == 0
    then process_raw_bmpcache c.persistent c.create_bitmap c.fresh e
    else if type == 1
    then process_colcache c.create_colourmap e
    else if type == 2
    then process_bmpcache c.persistent c.create_bitmap c.fresh c.rdp_v5 e
    else if type == 3
    then process_fontcache c.create_glyph e
    else if type == 4
    then process_bmpcache2 c.persistent c.create_bitmap c.fresh flags false e
    else if type == 5
    then process_bmpcache2 c.persistent c.create_bitmap c.fresh flags true e
    else if type == 7
    then process_brushcache c.fresh e
    else some (e, [])
