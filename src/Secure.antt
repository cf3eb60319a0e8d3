-- ===== src/Secure.antt =====
-- secure.c: the reading of what the server says of itself in the connect response, block by block
-- (sec_process_mcs_data), and of its version (sec_process_srv_info). sec_process_crypt_info is a
-- parameter on the state `K` of the keys: it only reads the stream, and the loop sets the pointer after it.
pub mod Termination
pub mod Wire
pub mod Blocks
pub mod Runs
use app_network_rdesktop.Base.{
  Parsed, returned, fault, stuck, ℕ, zero, suc, ◌+◌, ◌-◌, Bool, true, false, ◌==◌, leb, ltb, has,
  if◌then◌else◌, Option, none, some, ◌>>=◌,
}
use app_network_rdesktop.Stream.{Stream, in_uint8, in_uint8s, in_uint16_le}

-- g_server_rdp_version, whether g_rdp_version is RDP_V5, and g_server_depth.
pub record Server : Type 0 where
  pub server_rdp_version : ℕ
  pub rdp_v5 : Bool
  pub server_depth : ℕ

unfoldable pub sec_process_srv_info : Stream → Server → Option Server
sec_process_srv_info s g = do
  (version, s) ← in_uint16_le s
  some (
      if version == 1
      then record g { server_rdp_version = version; rdp_v5 = false; server_depth = 8 }
      else record g { server_rdp_version = version })

-- The header and the length of the user data, of one byte or two.
unfoldable pub skip_header : Stream → Option Stream
skip_header s = do
  (len, s) ← in_uint8 (in_uint8s s 21)
  if has len 0x80 then (do (len, s) ← in_uint8 s; some s) else some s

module _ {K : Type 0} (sec_process_crypt_info : Stream → K → Option K) where
  -- The switch over the tags.
  unfoldable pub process_block : ℕ → Stream → Server × K → Option (Server × K)
  process_block tag s (g, k) =
      if tag == 0x0c01
      then (do g ← sec_process_srv_info s g; some (g, k))
      else if tag == 0x0c02
      then (do k ← sec_process_crypt_info s k; some (g, k))
      else some (g, k)

  -- A block behind its tag and length.
  unfoldable pub enter_block : ℕ → ℕ → Stream → Server × K → Option (Bool × (Stream × (Server × K)))
  enter_block tag length' s g =
      if leb length' 4
      then some (false, (s, g))
      else (do g ← process_block tag s g; some (true, (record s { p = s.p + (length' - 4) }, g)))

  -- One turn of the loop, and whether another follows.
  unfoldable pub next_block : Stream → Server × K → Option (Bool × (Stream × (Server × K)))
  next_block s g =
      if ltb s.p s.end
      then (do
        (tag, s) ← in_uint16_le s
        (length', s) ← in_uint16_le s
        enter_block tag length' s g)
      else some (false, (s, g))

  unfoldable pub continue :
      Option (Bool × (Stream × (Server × K)))
      → (Stream → Server × K → Parsed (Stream × (Server × K)))
      → Parsed (Stream × (Server × K))
  continue none next = fault
  continue (some (false, r)) next = returned r
  continue (some (true, r)) next = next r.0 r.1

  -- The loop over the blocks.
  unfoldable pub process_blocks : ℕ → Stream → Server × K → Parsed (Stream × (Server × K))
  process_blocks zero s g = stuck
  process_blocks (suc fuel) s g = continue (next_block s g) (process_blocks fuel)

  -- A block is of five bytes at least, so the fuel is enough.
  unfoldable pub behind_header : Option Stream → Server × K → Parsed (Stream × (Server × K))
  behind_header none g = fault
  behind_header (some s) g = process_blocks (suc (s.end - s.p)) s g

  abbrev pub sec_process_mcs_data : Stream → Server × K → Parsed (Stream × (Server × K))
  sec_process_mcs_data s g = behind_header (skip_header s) g
