-- ===== src/Iso/Runs.antt =====
-- Packets and the connection at concrete data.
use app_network_rdesktop.Base.{refl, true, false, [], ◌∷◌, ◌++◌, none, arith}
use app_network_rdesktop.Stream.{Stream, of_bytes}
use app_network_rdesktop.Tcp.State.{Tcp, chunk, nothing_yet, taken, blocked}
use app_network_rdesktop.Tcp.Outcomes.{Returns}
use app_network_rdesktop.Iso.{iso_send, iso_recv}
use app_network_rdesktop.Iso.Framing.{data_packet, Data}
use app_network_rdesktop.Iso.Sending.{Posted}
use app_network_rdesktop.Iso.RoundTrip.{iso_recv-iso_send}
use app_network_rdesktop.Iso.Connect.{Attempt, iso_connect, protocol_ssl}
use app_network_rdesktop.Iso.Messages.{request}
use app_network_rdesktop.Iso.Security.{Secured, iso_connect-Secured}
use app_network_rdesktop.Iso.Fallback.{Answers, not_allowed, Reached, iso_connect-fallback}

abbrev fresh : Tcp
fresh = record {
  g_in = of_bytes [];
  g_out = of_bytes [];
  g_network_error = false;
  g_user_quit = false;
  arrivals = [];
  writes = taken 3 ∷ blocked ∷ [];
  wire = [];
}

-- Three bytes behind the header, and the other end, to which they come in two pieces.
abbrev three : Stream
three = of_bytes (0 ∷ 0 ∷ 0 ∷ 0 ∷ 0 ∷ 0 ∷ 0 ∷ 5 ∷ 6 ∷ 7 ∷ [])

abbrev other_end : Tcp
other_end = record fresh {
  arrivals =
      chunk 3 (0 ∷ []) ∷ nothing_yet ∷ chunk 0 (10 ∷ 2 ∷ 0xf0 ∷ 0x80 ∷ 5 ∷ 6 ∷ 7 ∷ 1 ∷ []) ∷ [];
}

iso_recv-iso_send_example :
    Posted (data_packet (5 ∷ 6 ∷ 7 ∷ [])) fresh (iso_send three fresh)
    × Data (5 ∷ 6 ∷ 7 ∷ []) (1 ∷ []) other_end (iso_recv true other_end)
iso_recv-iso_send_example =
    iso_recv-iso_send three (omega arith) (omega arith) (omega arith) fresh refl refl tt true
      (1 ∷ []) other_end refl tt refl

-- A server that refuses TLS, and the same server when it is not asked for TLS.
abbrev refusing : Attempt
refusing = record {
  reached = true;
  arrivals =
      chunk 3 (0 ∷ 0 ∷ 19 ∷ 14 ∷ 0xd0 ∷ 0 ∷ 0 ∷ 0 ∷ 0 ∷ 0 ∷ 3 ∷ 0 ∷ 8 ∷ 0 ∷ 2 ∷ 0 ∷ 0 ∷ 0 ∷ [])
      ∷ [];
  writes = [];
  tls = none;
}

abbrev plain : Attempt
plain = record refusing { arrivals = chunk 3 (0 ∷ 0 ∷ 11 ∷ 6 ∷ 0xd0 ∷ 0 ∷ 0 ∷ 0 ∷ 0 ∷ 0 ∷ []) ∷ [] }

iso_connect-Secured_example :
    Returns
      (Secured true (refusing ∷ plain ∷ []))
      (iso_connect true (65 ∷ []) (refusing ∷ plain ∷ []) true fresh)
iso_connect-Secured_example = iso_connect-Secured true (65 ∷ []) (refusing ∷ plain ∷ []) true fresh

refusing-Answers : Answers refusing (0 ∷ 0 ∷ 0 ∷ 0 ∷ 0 ∷ []) not_allowed []
refusing-Answers = record { reached = refl; flows = tt; takes = tt; five_long = refl; bytes = refl }

plain-Answers : Answers plain (0 ∷ 0 ∷ 0 ∷ 0 ∷ 0 ∷ []) [] []
plain-Answers = record { reached = refl; flows = tt; takes = tt; five_long = refl; bytes = refl }

iso_connect-fallback_example :
    Reached []
      (request true (65 ∷ []) protocol_ssl ++ request false (65 ∷ []) protocol_ssl)
      true
      fresh
      (iso_connect true (65 ∷ []) (refusing ∷ plain ∷ []) true fresh)
iso_connect-fallback_example =
    iso_connect-fallback (65 ∷ []) refusing plain [] true fresh (0 ∷ 0 ∷ 0 ∷ 0 ∷ 0 ∷ [])
      (0 ∷ 0 ∷ 0 ∷ 0 ∷ 0 ∷ []) [] [] refusing-Answers plain-Answers refl
