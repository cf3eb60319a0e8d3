-- ===== src/Rdp.antt =====
-- rdp.c: what the client sends in a session.
-- The stream is handed to the secure layer; sec_send of secure.c is a parameter that says what it leaves
-- of the byte stream, and the model lists what it is given: the flags and the bytes behind its header.
pub mod Capabilities
pub mod Bodies
pub mod Sending
pub mod Events
pub mod Enumeration
pub mod Sets
pub mod Confirm
pub mod Runs
use app_network_rdesktop.Base.{
  ℕ, zero, suc, ◌+◌, ◌-◌, ◌*◌, ◌/◌, ◌%◌, ◌^◌, Bool, true, false, ◌||◌, ◌==◌, leb, ltb, has,
  if◌then◌else◌, min, List, [], ◌∷◌, ◌++◌, Option, none, some, ◌>>=◌, length, take, drop,
}
use app_network_rdesktop.Stream.{Stream, s_mark_end, out_uint8, out_uint16_le, out_uint32_le}
use app_network_rdesktop.Tcp.State.{Tcp}
use app_network_rdesktop.Mcs.{mcs_init}
use app_network_rdesktop.Channels.{sec_encrypt}
use Capabilities.{Settings}
use Bodies.{
  confirm_length, confirm_pdu, control_pdu, synchronise_pdu, input_pdu, fonts_pdu,
  window_status_pdu, keys_pdu,
}

-- The globals that the packets show: g_encryption, `g_licence_issued || g_licence_error_result`,
-- g_mcs_userid, g_rdp_shareid, g_width, g_height and the settings of the capabilities.
pub record Rdp : Type 0 where
  pub encryption : Bool
  pub licensed : Bool
  pub mcs_userid : ℕ
  pub shareid : ℕ
  pub width : ℕ
  pub height : ℕ
  pub settings : Settings

-- What sec_send is given: the flags, and the bytes behind the header of the secure layer.
pub record Handed : Type 0 where
  pub sec_flags : ℕ
  pub bytes : List ℕ

abbrev pub sec_hdrlen : Bool → ℕ → ℕ
sec_hdrlen licensed flags = if has flags sec_encrypt then 12 else if licensed then 0 else 4

unfoldable pub sec_init : Bool → ℕ → ℕ → Tcp → Stream
sec_init licensed flags maxlen t =
    let s = mcs_init (maxlen + sec_hdrlen licensed flags) t in
    record s { sec_hdr = s.p; p = s.p + sec_hdrlen licensed flags }

abbrev pub data_flags : Rdp → ℕ
data_flags r = if r.encryption then sec_encrypt else 0

unfoldable pub rdp_init_data : Rdp → ℕ → Tcp → Stream
rdp_init_data r maxlen t =
    let s = sec_init r.licensed (data_flags r) (maxlen + 18) t in
    record s { rdp_hdr = s.p; p = s.p + 18 }

-- The bytes between the header of the secure layer and the end; none if the end is outside the memory.
unfoldable pub handed : Bool → ℕ → Stream → Option Handed
handed licensed flags s =
    if ltb (length s.buf) s.end
    then none
    else some (record {
      sec_flags = flags;
      bytes = drop (s.sec_hdr + sec_hdrlen licensed flags) (take s.end s.buf);
    })

-- The header of a data PDU; RDP_PDU_DATA is 7.
unfoldable pub share_data_header : Rdp → ℕ → Stream → Option Stream
share_data_header r data_pdu_type s = do
  let length' = (s.end + 2 ^ 32 - s.p) % 2 ^ 16
  s ← out_uint16_le s length'
  s ← out_uint16_le s 0x17
  s ← out_uint16_le s (r.mcs_userid + 1001)
  s ← out_uint32_le s r.shareid
  s ← out_uint8 s 0
  s ← out_uint8 s 1
  s ← out_uint16_le s (length' + 2 ^ 16 - 14)
  s ← out_uint8 s data_pdu_type
  s ← out_uint8 s 0
  out_uint16_le s 0

module _ (sec_send : ℕ → Stream → Tcp → Tcp) where
  unfoldable pub rdp_send_data : Rdp → Stream → ℕ → Tcp → Option (Handed × Tcp)
  rdp_send_data r s data_pdu_type t = do
    s ← share_data_header r data_pdu_type (record s { p = s.rdp_hdr })
    out ← handed r.licensed (data_flags r) s
    some (out, sec_send (data_flags r) s t)

  -- A data PDU of `size` bytes that `write` fills.
  abbrev pub send_data_pdu : Rdp → ℕ → (Stream → Option Stream) → ℕ → Tcp → Option (Handed × Tcp)
  send_data_pdu r size write data_pdu_type t = do
    s ← write (rdp_init_data r size t)
    rdp_send_data r (s_mark_end s) data_pdu_type t

  unfoldable pub rdp_send_control : Rdp → ℕ → Tcp → Option (Handed × Tcp)
  rdp_send_control r action t = send_data_pdu r 8 (control_pdu action) 20 t

  unfoldable pub rdp_send_synchronise : Rdp → Tcp → Option (Handed × Tcp)
  rdp_send_synchronise r t = send_data_pdu r 4 synchronise_pdu 31 t

  unfoldable pub rdp_send_input : Rdp → ℕ → ℕ → ℕ → ℕ → ℕ → Tcp → Option (Handed × Tcp)
  rdp_send_input r time message_type device_flags param1 param2 t =
      send_data_pdu r 16 (input_pdu time message_type device_flags param1 param2) 28 t

  -- What is sent, if something is, and `current_status` afterwards.
  unfoldable pub rdp_send_client_window_status : Rdp → ℕ → ℕ → Tcp → Option (List Handed × ℕ × Tcp)
  rdp_send_client_window_status r current_status status t =
      if current_status == status then some ([], current_status, t) else (do
        (out, t) ← send_data_pdu r 12 (window_status_pdu status r.width r.height) 35 t
        some (out ∷ [], status, t))

  unfoldable pub rdp_send_fonts : Rdp → ℕ → Tcp → Option (Handed × Tcp)
  rdp_send_fonts r seq t = send_data_pdu r 8 (fonts_pdu seq) 39 t

  -- The loop over the keys, with the keys from `offset` on: each round takes 169 of them at most. `keys`
  -- are 8 bytes each.
  unfoldable pub enum_loop : Rdp → ℕ → ℕ → ℕ → List (List ℕ) → Tcp → Option (List Handed × Tcp)
  enum_loop r zero num_keys offset keys t = some ([], t)
  enum_loop r (suc rounds) num_keys offset keys t = elim (ltb offset num_keys) [
    | false ↦ some ([], t)
    | true ↦ do
      let count = min (num_keys - offset) 169
      (out, t) ←
          send_data_pdu r (24 + count * 8) (keys_pdu num_keys offset count (take count keys)) 0x2b t
      (outs, t) ← enum_loop r rounds num_keys (offset + 169) (drop 169 keys) t
      some (out ∷ outs, t)
  ]

  -- `keylist` is what pstcache_enumerate gives; a round for each key is more than enough.
  unfoldable pub rdp_enum_bmpcache2 : Rdp → List (List ℕ) → Tcp → Option (List Handed × Tcp)
  rdp_enum_bmpcache2 r keylist t = enum_loop r (length keylist) (length keylist) 0 keylist t

  unfoldable pub rdp_send_confirm_active : Rdp → Tcp → Option (Handed × Tcp)
  rdp_send_confirm_active r t = do
    let sec_flags = if r.encryption then 0x30 + sec_encrypt else 0x30
    s ←
        confirm_pdu r.settings r.mcs_userid r.shareid
          (sec_init r.licensed sec_flags (6 + 14 + confirm_length r.settings + 6) t)
    out ← handed r.licensed sec_flags (s_mark_end s)
    some (out, sec_send sec_flags (s_mark_end s) t)
