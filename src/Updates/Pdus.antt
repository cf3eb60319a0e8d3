-- ===== src/Updates/Pdus.antt =====
-- rdp.c: the data PDUs and the redirection PDU that the server sends.
-- The conversion of text by iconv is the parameter `convert`, `none` where it fails. Messages that only
-- warn are left out.
use app_network_rdesktop.Base.{
  ℕ, ◌+◌, ◌-◌, ◌%◌, ◌^◌, Bool, true, false, has, ◌==◌, not, ◌||◌, if◌then◌else◌, List, [], ◌∷◌,
  Option, none, some, ◌>>=◌,
}
use app_network_rdesktop.Stream.{Stream, in_uint8, in_uint8s, in_uint8a, in_uint16_le, in_uint32_le}
use app_network_rdesktop.Orders.Draw.{ui_bell}
use app_network_rdesktop.Orders.Dispatch.{Work}
use app_network_rdesktop.Orders.Handlers.{Surroundings}
use app_network_rdesktop.Orders.Pictures.{bytes_at}
use app_network_rdesktop.Updates.{process_update_pdu, process_pointer_pdu}
use app_network_rdesktop.Updates.Parts.{Client, Handled, plain}

-- The cookie to connect again with, if its packet has the right length and version.
unfoldable pub reconnect_cookie : Client → Stream → Option Client
reconnect_cookie k s = do
  (len, s) ← in_uint32_le (in_uint8s s 4)
  if not (len == 28) then some k else (do
    (version, s) ← in_uint32_le s
    if not (version == 1) then some k else (do
      (logonid, s) ← in_uint32_le s
      (random, s) ← in_uint8a s 16
      some (record k {
        reconnect_logonid = logonid;
        reconnect_random = random;
        has_reconnect_random = true;
      })))

unfoldable pub process_pdu_logon : Client → Stream → Option Client
unfolding reconnect_cookie
process_pdu_logon k s = do
  (infotype, s) ← in_uint32_le s
  if infotype == 3
      then (do
        (fieldspresent, s) ← in_uint32_le (in_uint8s s 2)
        if has fieldspresent 1 then reconnect_cookie k s else some k)
      else some k

unfoldable pub process_disconnect_pdu : Client → Stream → Option Client
process_disconnect_pdu k s = do
  (reason, s) ← in_uint32_le s
  some (record k { ext_disc_reason = reason })

-- A handler's work on the stream `ts`, which may be the expanded data; rdp_s stays where it is.
unfoldable pub worked : Client → Option Work → Option Handled
worked k m = do (e, calls) ← m; some (record k { e = record e { s = k.e.s } }, calls)

-- A handler that only leaves something behind.
abbrev pub quiet : Option Client → Option Handled
quiet m = do k ← m; some (k, [])

module _ (c : Surroundings) where
  -- The switch over the types of data PDUs.
  unfoldable pub data_message : ℕ → Stream → Client → Option Handled
  unfolding worked
  data_message type ts k =
      if type == 2
      then worked k (process_update_pdu c (record (k.e) { s = ts }))
      else if type == 27
      then worked k (process_pointer_pdu c (record (k.e) { s = ts }))
      else if type == 34
      then some (k, ui_bell ∷ [])
      else if type == 38
      then quiet (process_pdu_logon k ts)
      else if type == 47
      then quiet (process_disconnect_pdu k ts)
      else some (k, [])

  unfoldable pub process_data_pdu : Client → Option Handled
  unfolding data_message
  process_data_pdu k = do
    (len, s) ← in_uint16_le (in_uint8s (k.e.s) 6)
    (data_pdu_type, s) ← in_uint8 s
    (ctype, s) ← in_uint8 s
    (clen, s) ← in_uint16_le s
    (dict, ts) ← plain k.dict s ((clen + 2 ^ 16 - 18) % 2 ^ 16) ctype
    data_message data_pdu_type ts (record k { e = record (k.e) { s = s }; dict = dict })

-- What a redirection leaves: the globals g_redirect... of rdp.c, `none` for NULL.
pub record Redirect : Type 0 where
  pub redirect : Bool
  pub session_id : ℕ
  pub flags : ℕ
  pub server : Option (List ℕ)
  pub lb_info : Option (List ℕ)
  pub username : Option (List ℕ)
  pub domain : Option (List ℕ)
  pub cookie : Option (List ℕ)

abbrev pub is_set : Option (List ℕ) → Bool
is_set none = false
is_set (some bytes) = true

-- A field of the PDU that stands there if its flag is set.
abbrev pub if_flag :
    ℕ
    → ℕ
    → (Stream → Option (List ℕ × Stream))
    → Option (List ℕ)
    → Stream
    → Option (Option (List ℕ) × Stream)
if_flag flags mask read old s =
    if has flags mask then (do (bytes, s) ← read s; some (some bytes, s)) else some (old, s)

-- A length, and as many bytes of the packet.
unfoldable pub in_blob : Stream → Option (List ℕ × Stream)
unfolding bytes_at
in_blob s = do (len, s) ← in_uint32_le s; bytes ← bytes_at s s.p len; some (bytes, in_uint8s s len)

module _ (convert : List ℕ → Option (List ℕ)) where
  -- rdp_in_unistr where iconv works. When the conversion fails, the code writes to the memory that it has
  -- given back.
  unfoldable pub rdp_in_unistr : ℕ → Stream → Option (List ℕ × Stream)
  unfolding bytes_at
  rdp_in_unistr in_len s = do
    bytes ← bytes_at s s.p in_len
    string ← convert bytes
    some (string, in_uint8s s in_len)

  -- A length, and text of as many bytes.
  unfoldable pub in_text : Stream → Option (List ℕ × Stream)
  unfolding rdp_in_unistr
  in_text s = do (len, s) ← in_uint32_le s; rdp_in_unistr len s

  -- The identifier, the length and the session of an enhanced redirection.
  unfoldable pub in_session : Bool → ℕ → Stream → Option (ℕ × Stream)
  in_session enhanced_redirect old s =
      if enhanced_redirect
      then (do (redirect_identifier, s) ← in_uint16_le s; in_uint32_le (in_uint8s s 2))
      else some (old, s)

  -- What the PDU brings; nothing is left of the redirection before but its session.
  unfoldable pub redirection : Bool → ℕ → Stream → Option (Redirect × Stream)
  unfolding in_session in_text in_blob
  redirection enhanced_redirect old_session_id s = do
    (session_id, s) ← in_session enhanced_redirect old_session_id (in_uint8s s 2)
    (flags, s) ← in_uint32_le s
    (server, s) ← if_flag flags 0x1 in_text none s
    (lb_info, s) ← if_flag flags 0x2 in_blob none s
    (username, s) ← if_flag flags 0x4 in_text none s
    (domain, s) ← if_flag flags 0x8 in_text none s
    (cookie, s) ← if_flag flags 0x10 in_blob none s
    (server, s) ← if_flag flags 0x100 in_text server s
    some (
      record {
        redirect = not (has flags 0x80);
        session_id = session_id;
        flags = flags;
        server = server;
        lb_info = lb_info;
        username = username;
        domain = domain;
        cookie = cookie;
      },
      s,
    )

  -- The load balance info and the cookie of the redirection before point into its packet, so that
  -- giving them back is a fault.
  unfoldable pub process_redirect_pdu : Bool → Redirect → Stream → Option (Redirect × Stream)
  unfolding redirection
  process_redirect_pdu enhanced_redirect old s =
      if is_set old.lb_info || is_set old.cookie
      then none
      else redirection enhanced_redirect old.session_id s
