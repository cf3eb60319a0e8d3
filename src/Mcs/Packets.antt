-- ===== src/Mcs/Packets.antt =====
-- The bodies of the packets of mcs.c, as it writes them at the pointer of a stream and reads them.
use app_network_rdesktop.Base.{
  ℕ, ◌+◌, ◌-◌, ◌*◌, ◌/◌, ◌%◌, ◌^◌, Bool, false, not, has, ltb, ◌==◌, if◌then◌else◌, List, Option,
  none, some, ◌>>=◌, length,
}
use app_network_rdesktop.Stream.{
  Stream, in_uint8, in_uint8s, in_uint16_be, out_uint8, out_uint16_be, out_uint8p, s_check,
  s_check_end,
}
use app_network_rdesktop.Asn.{ber_out_header, ber_out_integer, ber_parse_header, ber_tag_integer}

-- MCS_PDU_TYPE of constants.h.
abbrev pub mcs_edrq : ℕ
mcs_edrq = 1

abbrev pub mcs_dpum : ℕ
mcs_dpum = 8

abbrev pub mcs_aurq : ℕ
mcs_aurq = 10

abbrev pub mcs_aucf : ℕ
mcs_aucf = 11

abbrev pub mcs_cjrq : ℕ
mcs_cjrq = 14

abbrev pub mcs_cjcf : ℕ
mcs_cjcf = 15

abbrev pub mcs_sdrq : ℕ
mcs_sdrq = 25

abbrev pub mcs_sdin : ℕ
mcs_sdin = 26

abbrev pub mcs_connect_initial : ℕ
mcs_connect_initial = 0x7f65

abbrev pub mcs_connect_response : ℕ
mcs_connect_response = 0x7f66

abbrev pub ber_tag_boolean : ℕ
ber_tag_boolean = 1

abbrev pub ber_tag_octet_string : ℕ
ber_tag_octet_string = 4

abbrev pub ber_tag_result : ℕ
ber_tag_result = 10

abbrev pub mcs_tag_domain_params : ℕ
mcs_tag_domain_params = 0x30

abbrev pub mcs_userchannel_base : ℕ
mcs_userchannel_base = 1001

unfoldable pub mcs_out_domain_params : Stream → ℕ → ℕ → ℕ → ℕ → Option Stream
mcs_out_domain_params s max_channels max_users max_tokens max_pdusize = do
  s ← ber_out_header s mcs_tag_domain_params 32
  s ← ber_out_integer s max_channels
  s ← ber_out_integer s max_users
  s ← ber_out_integer s max_tokens
  s ← ber_out_integer s 1
  s ← ber_out_integer s 0
  s ← ber_out_integer s 1
  s ← ber_out_integer s max_pdusize
  ber_out_integer s 2

-- The `length` of the connect-initial message, for `datalen` bytes of user data.
unfoldable pub initial_length : ℕ → ℕ
initial_length datalen = 9 + 3 * 34 + 4 + datalen

-- mcs_send_connect_initial between `iso_init` and `s_mark_end`; `content` is `mcs_data` up to its end.
unfoldable pub initial_pdu : Stream → List ℕ → Option Stream
initial_pdu s content = do
  s ← ber_out_header s mcs_connect_initial (initial_length (length content))
  s ← ber_out_header s ber_tag_octet_string 1
  s ← out_uint8 s 1
  s ← ber_out_header s ber_tag_octet_string 1
  s ← out_uint8 s 1
  s ← ber_out_header s ber_tag_boolean 1
  s ← out_uint8 s 0xff
  s ← mcs_out_domain_params s 34 2 0 0xffff
  s ← mcs_out_domain_params s 1 1 1 0x420
  s ← mcs_out_domain_params s 0xffff 0xfc17 0xffff 0xffff
  s ← ber_out_header s ber_tag_octet_string (length content)
  out_uint8p s content

unfoldable pub edrq_pdu : Stream → Option Stream
edrq_pdu s = do s ← out_uint8 s (mcs_edrq * 4); s ← out_uint16_be s 1; out_uint16_be s 1

unfoldable pub aurq_pdu : Stream → Option Stream
aurq_pdu s = out_uint8 s (mcs_aurq * 4)

unfoldable pub cjrq_pdu : ℕ → ℕ → Stream → Option Stream
cjrq_pdu userid chanid s = do
  s ← out_uint8 s (mcs_cjrq * 4)
  s ← out_uint16_be s userid
  out_uint16_be s chanid

-- `length |= 0x8000` on 16 bits.
unfoldable pub marked_length : ℕ → ℕ
marked_length n = if has n 0x8000 then n else n + 0x8000

-- mcs_send_to_channel before `iso_send`: `s` is at the MCS header.
unfoldable pub sdrq_header : ℕ → ℕ → Stream → Option Stream
sdrq_header userid channel s = do
  let length' = marked_length ((s.end + 2 ^ 32 - s.p - 8) % 2 ^ 16)
  s ← out_uint8 s (mcs_sdrq * 4)
  s ← out_uint16_be s userid
  s ← out_uint16_be s channel
  s ← out_uint8 s 0x70
  out_uint16_be s length'

-- `s->p += n` of an int; a pointer before the data is a fault.
unfoldable pub skip_int : Stream → ℕ → Option Stream
skip_int s n =
    if ltb n (2 ^ 31)
    then some (in_uint8s s n)
    else if ltb (s.p + n) (2 ^ 32)
    then none
    else some (record s { p = s.p + n - 2 ^ 32 })

-- The returned Boolean and the stream. `uninit` is what the variable `length` holds when the header is
-- not the one expected, which is not looked at.
unfoldable pub mcs_parse_domain_params : ℕ → Stream → Option (Bool × Stream)
unfolding skip_int
mcs_parse_domain_params uninit s = do
  (_, len, s) ← ber_parse_header s mcs_tag_domain_params uninit
  s ← skip_int s len
  some (s_check s, s)

-- mcs_recv_connect_response behind `iso_recv`: what it returns. `uninit` is what its variable `length` holds
-- at first, and the one of mcs_parse_domain_params.
unfoldable pub response_pdu : (Stream → Option Stream) → ℕ × ℕ → Stream → Option Bool
unfolding skip_int
response_pdu sec_process_mcs_data uninit s = do
  (_, len, s) ← ber_parse_header s mcs_connect_response uninit.0
  (_, len, s) ← ber_parse_header s ber_tag_result len
  (result, s) ← in_uint8 s
  if not (result == 0) then some false else (do
    (_, len, s) ← ber_parse_header s ber_tag_integer len
    s ← skip_int s len
    (_, s) ← mcs_parse_domain_params uninit.1 s
    (_, len, s) ← ber_parse_header s ber_tag_octet_string len
    s ← sec_process_mcs_data s
    some (s_check_end s))

-- mcs_recv_aucf behind `iso_recv`: what it returns, and the user id, which is stored before the check.
unfoldable pub aucf_pdu : ℕ → Stream → Option (Bool × ℕ)
aucf_pdu userid s = do
  (opcode, s) ← in_uint8 s
  if not (opcode / 4 == mcs_aucf) then some (false, userid) else (do
    (result, s) ← in_uint8 s
    if not (result == 0)
        then some (false, userid)
        else if has opcode 2
        then (do (id, s) ← in_uint16_be s; some (s_check_end s, id))
        else some (s_check_end s, userid))

-- mcs_recv_cjcf behind `iso_recv`.
unfoldable pub cjcf_pdu : Stream → Option Bool
cjcf_pdu s = do
  (opcode, s) ← in_uint8 s
  if not (opcode / 4 == mcs_cjcf) then some false else (do
    (result, s) ← in_uint8 s
    if not (result == 0) then some false else (do
      let s = in_uint8s s 4
      some (s_check_end (if has opcode 2 then in_uint8s s 2 else s))))

-- mcs_recv behind its test of the version: none for a packet that is not data, else the channel and
-- the stream at the data.
unfoldable pub sdin_pdu : Stream → Option (Option (ℕ × Stream))
sdin_pdu s = do
  (opcode, s) ← in_uint8 s
  if not (opcode / 4 == mcs_sdin) then some none else (do
    (channel, s) ← in_uint16_be (in_uint8s s 2)
    (len, s) ← in_uint8 (in_uint8s s 1)
    some (some (channel, if has len 0x80 then in_uint8s s 1 else s)))
