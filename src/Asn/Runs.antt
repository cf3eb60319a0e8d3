-- ===== src/Asn/Runs.antt =====
-- asn.c at concrete headers.
use app_network_rdesktop.Base.{◌≡◌, true, some, arith, replicate}
use app_network_rdesktop.Stream.{Stream, of_bytes}
use app_network_rdesktop.Asn.{ber_out_header, ber_parse_header}
use app_network_rdesktop.Asn.RoundTrip.{ber_parse_header-ber_out_header}

abbrev empty_page : Stream
empty_page = of_bytes (replicate 6 0)

ber_parse_header-ber_out_header_example :
    (t : Stream) × (ber_out_header empty_page 0x7f65 300 ≡ some t)
    × (ber_parse_header (record t { p = 0; end = t.p }) 0x7f65 0
        ≡ some (true, 300, record t { end = t.p }))
ber_parse_header-ber_out_header_example =
    ber_parse_header-ber_out_header empty_page 0x7f65 300 0 (omega arith) (omega arith)
      (omega arith)
