-- ===== src/Iso/Packets.antt =====
-- The headers that iso.c writes, at the pointer of the stream.
use app_network_rdesktop.Base.{
  ℕ, ◌+◌, ◌-◌, ◌%◌, ◌^◌, Bool, if◌then◌else◌, List, [], ◌∷◌, Option, some, ◌>>=◌, length,
}
use app_network_rdesktop.Stream.{
  Stream, in_uint8, in_uint16_le, in_uint32_le, out_uint8, out_uint16_be, out_uint16_le,
  out_uint32_le, out_uint8p,
}

-- ISO_PDU_CODE of constants.h.
abbrev pub iso_pdu_cr : ℕ
iso_pdu_cr = 0xe0

abbrev pub iso_pdu_cc : ℕ
iso_pdu_cc = 0xd0

abbrev pub iso_pdu_dr : ℕ
iso_pdu_dr = 0x80

abbrev pub iso_pdu_dt : ℕ
iso_pdu_dt = 0xf0

-- iso_send, before `tcp_send`: `s` is at the ISO header.
unfoldable pub data_header : Stream → Option Stream
data_header s = do
  let length' = (s.end + 2 ^ 32 - s.p) % 2 ^ 16
  s ← out_uint8 s 3
  s ← out_uint8 s 0
  s ← out_uint16_be s length'
  s ← out_uint8 s 2
  s ← out_uint8 s iso_pdu_dt
  out_uint8 s 0x80

-- iso_send_msg, before `s_mark_end`.
unfoldable pub msg_pdu : Stream → ℕ → Option Stream
msg_pdu s code = do
  s ← out_uint8 s 3
  s ← out_uint8 s 0
  s ← out_uint16_be s 11
  s ← out_uint8 s 6
  s ← out_uint8 s code
  s ← out_uint16_le s 0
  s ← out_uint16_le s 0
  out_uint8 s 0

-- "Cookie: mstshash=".
abbrev pub cookie : List ℕ
cookie =
    67 ∷ 111 ∷ 111 ∷ 107 ∷ 105 ∷ 101 ∷ 58 ∷ 32 ∷ 109 ∷ 115 ∷ 116 ∷ 115 ∷ 104 ∷ 97 ∷ 115 ∷ 104 ∷ 61
    ∷ []

-- The packet's length; `negotiate` is `g_rdp_version >= RDP_V5 && g_negotiate_rdp_protocol`.
unfoldable pub request_length : Bool → List ℕ → ℕ
request_length negotiate username =
    if negotiate then 30 + length username + 8 else 30 + length username

-- The cookie with the user's name, behind the header; ISO_PDU_CR is its code.
unfoldable pub request_front : Stream → Bool → List ℕ → Option Stream
request_front s negotiate username = do
  let length' = request_length negotiate username
  s ← out_uint8 s 3
  s ← out_uint8 s 0
  s ← out_uint16_be s length'
  s ← out_uint8 s (length' - 5)
  s ← out_uint8 s iso_pdu_cr
  s ← out_uint16_le s 0
  s ← out_uint16_le s 0
  s ← out_uint8 s 0
  s ← out_uint8p s cookie
  s ← out_uint8p s username
  s ← out_uint8 s 0x0d
  out_uint8 s 0x0a

-- iso_send_connection_request, before `s_mark_end`; RDP_NEG_REQ is 1.
unfoldable pub request_pdu : Stream → Bool → List ℕ → ℕ → Option Stream
request_pdu s negotiate username neg_proto = do
  s ← request_front s negotiate username
  if negotiate
      then (do
        s ← out_uint8 s 1
        s ← out_uint8 s 0
        s ← out_uint16_le s 8
        out_uint32_le s neg_proto)
      else some s

-- The type and the data of a negotiation response.
unfoldable pub in_negotiation : Stream → Option (ℕ × ℕ)
in_negotiation s = do
  (type, s) ← in_uint8 s
  (flags, s) ← in_uint8 s
  (length', s) ← in_uint16_le s
  (content, s) ← in_uint32_le s
  some (type, content)
