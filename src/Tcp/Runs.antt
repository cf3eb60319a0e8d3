-- ===== src/Tcp/Runs.antt =====
-- The byte stream at concrete data.
use app_network_rdesktop.Base.{◌≡◌, refl, false, [], ◌∷◌, some, arith}
use app_network_rdesktop.Stream.{Stream, of_bytes}
use app_network_rdesktop.Tcp.State.{Tcp, done, chunk, nothing_yet, taken, blocked, failed}
use app_network_rdesktop.Tcp.{tcp_send, tcp_recv}
use app_network_rdesktop.Tcp.Appending.{Appends, tcp_recv-Appends}
use app_network_rdesktop.Tcp.Sending.{Sent, tcp_send_lem}

-- Five bytes come in two pieces; the socket takes two bytes at a time.
abbrev pieces : Tcp
pieces = record {
  g_in = of_bytes [];
  g_out = of_bytes [];
  g_network_error = false;
  g_user_quit = false;
  arrivals = chunk 1 (2 ∷ 3 ∷ []) ∷ nothing_yet ∷ chunk 4 (5 ∷ []) ∷ [];
  writes = taken 1 ∷ blocked ∷ [];
  wire = 9 ∷ [];
}

-- The socket takes a byte and then fails.
abbrev failing : Tcp
failing = record pieces { writes = taken 0 ∷ failed ∷ [] }

abbrev four : Stream
four = of_bytes (1 ∷ 2 ∷ 3 ∷ 4 ∷ [])

-- Two bytes behind the pointer at the second one.
abbrev begun : Stream
begun = record (of_bytes (7 ∷ 8 ∷ [])) { p = 1 }

tcp_recv-Appends_example : Appends (some begun) 4 pieces (tcp_recv (some begun) 4 pieces)
tcp_recv-Appends_example =
    tcp_recv-Appends (some begun) 4 pieces refl tt (omega arith) (omega arith) (omega arith)

tcp_send_lem_example :
    (t' : Tcp) × (tcp_send four pieces ≡ done t')
    × Sent (1 ∷ 2 ∷ 3 ∷ 4 ∷ []) (record pieces { g_out = four }) t'
tcp_send_lem_example = tcp_send_lem four pieces refl (omega arith) tt
