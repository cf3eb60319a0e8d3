-- ===== src/Asn.antt =====
-- asn.c: ASN.1 BER headers. The messages of `error()` are not modelled.
pub mod Runs
pub mod Headers
pub mod RoundTrip
use app_network_rdesktop.Base.{
  ℕ, zero, suc, ◌+◌, ◌*◌, ◌/◌, ◌%◌, ◌^◌, Bool, true, false, ltb, leb, ◌==◌, has, if◌then◌else◌,
  List, [], ◌∷◌, Option, none, some, ◌>>=◌, not,
}
use app_network_rdesktop.Stream.{
  Stream, in_uint8, in_uint16_be, next_be, s_check, out_uint8, out_uint16_be,
}

-- `while (len--) next_be(s, *length)`.
unfoldable pub next_be_times : ℕ → Stream → ℕ → Option (ℕ × Stream)
next_be_times zero s v = some (v, s)
next_be_times (suc n) s v = do (w, t) ← next_be s v; next_be_times n t w

-- The length field; returns `s_check(s)` and the length.
unfoldable pub ber_parse_length : Stream → Option (Bool × ℕ × Stream)
ber_parse_length s = do
  (len, s) ← in_uint8 s
  (length, s) ← if has len 0x80 then next_be_times (len % 0x80) s 0 else some (len, s)
  some (s_check s, length, s)

-- The returned Boolean, the value that `*length` has afterwards, and the stream.
unfoldable pub ber_parse_header : Stream → ℕ → ℕ → Option (Bool × ℕ × Stream)
ber_parse_header s tagval length = do
  (tag, s) ← if ltb 0xff tagval then in_uint16_be s else in_uint8 s
  if not (tag == tagval) then some (false, length, s) else ber_parse_length s

unfoldable pub ber_out_header : Stream → ℕ → ℕ → Option Stream
ber_out_header s tagval length = do
  s ← if ltb 0xff tagval then out_uint16_be s tagval else out_uint8 s tagval
  if leb 0x80 length then (do s ← out_uint8 s 0x82; out_uint16_be s length) else out_uint8 s length

abbrev pub ber_tag_integer : ℕ
ber_tag_integer = 2

unfoldable pub ber_out_integer : Stream → ℕ → Option Stream
ber_out_integer s value = do s ← ber_out_header s ber_tag_integer 2; out_uint16_be s value

-- The returned Boolean, `*tagval`, `*decoded_len` and the stream.
unfoldable pub ber_in_header : Stream → Option (Bool × ℕ × ℕ × Stream)
ber_in_header s = do
  (tag, s) ← in_uint8 s
  (len, s) ← in_uint8 s
  if ltb len 0x80
      then some (true, tag, len, s)
      else if len == 0x81
      then (do (l, s) ← in_uint8 s; some (true, tag, l, s))
      else if len == 0x82
      then (do (l, s) ← in_uint16_be s; some (true, tag, l, s))
      else some (false, tag, len, s)
