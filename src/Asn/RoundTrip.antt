-- ===== src/Asn/RoundTrip.antt =====
-- asn.c reads back the headers that it writes.
use app_network_rdesktop.Base.{
  ℕ, ◌+◌, ◌^◌, ◌≤◌, ◌<◌, ◌≡◌, ◌∙◌, true, List, some, arith, length, drop,
}
use app_network_rdesktop.Stream.{Stream}
use app_network_rdesktop.Stream.Splice.{drop-splice_zero}
use app_network_rdesktop.Stream.Writing.{wrote, out_bytes_fits}
use app_network_rdesktop.Asn.{ber_out_header, ber_parse_header}
use app_network_rdesktop.Asn.Headers.{header_bytes, ber_out_header-bytes, ber_parse_header-bytes}

header_bytes_short : (tag len : ℕ) → length (header_bytes tag len) ≤ 5
header_bytes_short tag len = ground arith

-- For every tag and length below 2^16, in a stream with 5 bytes of room: `ber_out_header` returns,
-- and `ber_parse_header` at the place where it wrote, in the stream that ends where it stopped,
-- returns true and the length, and stops there too.
pub ber_parse_header-ber_out_header :
    (s : Stream) (tag len l : ℕ)
    → tag < 2 ^ 16
    → len < 2 ^ 16
    → s.p + 5 ≤ length s.buf
    → (t : Stream) × (ber_out_header s tag len ≡ some t)
      × (ber_parse_header (record t { p = s.p; end = t.p }) tag l
          ≡ some (true, len, record t { end = t.p }))
ber_parse_header-ber_out_header s tag len l ht hl room =
    (wrote s bs, ber_out_header-bytes s tag len ∙ out_bytes_fits s bs fits, back)
  where
    bs : List ℕ
    bs = header_bytes tag len

    fits : s.p + length bs ≤ length s.buf
    fits = omega (arith, header_bytes_short tag len)

    u : Stream
    u = record (wrote s bs) { p = s.p; end = s.p + length bs }

    back : ber_parse_header u tag l ≡ some (true, len, record u { p = s.p + length bs })
    back =
        ber_parse_header-bytes u tag len l (drop (s.p + length bs) s.buf) hl ht
          (drop-splice_zero s.p bs s.buf fits) (omega arith)
