-- ===== src/Mcs/Runs.antt =====
-- mcs.c at concrete data.
use app_network_rdesktop.Base.{
  ℕ, zero, suc, ◌≡◌, refl, true, false, List, [], ◌∷◌, ◌++◌, Option, some, arith, replicate, take,
  drop,
}
use app_network_rdesktop.Stream.{Stream, of_bytes}
use app_network_rdesktop.Stream.Unread.{At}
use app_network_rdesktop.Tcp.State.{Tcp, chunk, nothing_yet, taken, blocked}
use app_network_rdesktop.Tcp.Outcomes.{Returns}
use app_network_rdesktop.Channels.{Vchannel}
use app_network_rdesktop.Iso.Framing.{data_packet}
use app_network_rdesktop.Iso.Sending.{Posted}
use app_network_rdesktop.Iso.Messages.{message}
use app_network_rdesktop.Mcs.{
  mcs_connect_finalize, mcs_send_to_channel, mcs_recv, mcs_send_connect_initial,
}
use app_network_rdesktop.Mcs.Initial.{connect_initial, mcs_send_connect_initial_lem}
use app_network_rdesktop.Mcs.Requests.{sdrq, mcs_send_to_channel_lem}
use app_network_rdesktop.Mcs.Data.{sdin, Indication, mcs_recv-sdin}
use app_network_rdesktop.Mcs.Confirms.{connect_response}
use app_network_rdesktop.Mcs.Exchange.{Ready}
use app_network_rdesktop.Mcs.Connecting.{Connected, joining, joined, mcs_connect_finalize-Connected}
use app_network_rdesktop.Mcs.Failing.{
  Closed, Denied, refusal, mcs_connect_finalize-Closed, mcs_connect_finalize-Denied,
}

-- A connection on which some bytes come, the first alone.
abbrev with_coming : ℕ → List ℕ → Tcp
with_coming b bs = record {
  g_in = of_bytes [];
  g_out = of_bytes [];
  g_network_error = false;
  g_user_quit = false;
  arrivals = chunk b [] ∷ nothing_yet ∷ (chunk 0 bs ∷ []);
  writes = taken 20 ∷ blocked ∷ [];
  wire = [];
}

-- User data of 130 bytes, and a channel.
abbrev user_bytes : Stream
user_bytes = of_bytes (replicate 130 7)

abbrev sound : Vchannel
sound = record { mcs_id = 1004; name = []; flags = 0; input = of_bytes [] }

-- A reader of the user data that goes to its end.
to_end : Stream → Option Stream
to_end s = some (record s { p = s.end })

drop-take_same : (n : ℕ) (xs : List ℕ) → drop n (take n xs) ≡ []
drop-take_same zero xs = refl
drop-take_same (suc n) [] = refl
drop-take_same (suc n) (x ∷ xs) = drop-take_same n xs

to_end-At : (s : Stream) → At (8 ∷ 9 ∷ []) s → (s' : Stream) × (to_end s ≡ some s') × At [] s'
unfolding to_end
to_end-At s at = (
  record s { p = s.end },
  refl,
  record { order = omega arith; inside = at.inside; is = drop-take_same s.end s.buf },
)

abbrev response : List ℕ
response = connect_response (1 ∷ []) (2 ∷ 1 ∷ 5 ∷ []) (8 ∷ 9 ∷ [])

abbrev granting : Tcp
granting = with_coming 3 (drop 2 (data_packet response ++ joined 6 (sound ∷ []) (77 ∷ [])))

granting-Ready : Ready (data_packet response ++ joined 6 (sound ∷ []) (77 ∷ [])) granting
granting-Ready = record { up = refl; takes = tt; flows = tt; bytes = refl }

mcs_connect_finalize-Connected_example :
    Connected 6
      (data_packet (connect_initial (replicate 130 7)) ++ joining 6 (sound ∷ []))
      (77 ∷ [])
      granting
      (mcs_connect_finalize to_end (0, 0) (sound ∷ []) user_bytes 0 granting)
mcs_connect_finalize-Connected_example =
    mcs_connect_finalize-Connected to_end (0, 0) 0 6 (sound ∷ []) user_bytes (1 ∷ [])
      (2 ∷ 1 ∷ 5 ∷ []) (8 ∷ 9 ∷ []) (77 ∷ []) granting to_end-At (omega arith) (omega arith)
      (omega arith) (omega arith) (omega arith) granting-Ready

abbrev denying : Tcp
denying = with_coming 3 (drop 2 (data_packet (refusal 1 []) ++ (77 ∷ [])))

denying-Ready : Ready (data_packet (refusal 1 []) ++ (77 ∷ [])) denying
denying-Ready = record { up = refl; takes = tt; flows = tt; bytes = refl }

mcs_connect_finalize-Denied_example :
    Denied 0
      (data_packet (connect_initial (replicate 130 7)) ++ message 0x80)
      denying
      (mcs_connect_finalize to_end (0, 0) (sound ∷ []) user_bytes 0 denying)
mcs_connect_finalize-Denied_example =
    mcs_connect_finalize-Denied to_end (0, 0) 0 1 (sound ∷ []) user_bytes [] (77 ∷ []) denying
      (omega arith) (omega arith) (omega arith) (omega arith) (omega arith) denying-Ready

mcs_connect_finalize-Closed_example :
    Returns Closed (mcs_connect_finalize to_end (0, 0) (sound ∷ []) user_bytes 0 denying)
mcs_connect_finalize-Closed_example =
    mcs_connect_finalize-Closed to_end (0, 0) 0 (sound ∷ []) user_bytes denying

mcs_send_connect_initial_lem_example :
    Posted
      (data_packet (connect_initial (replicate 130 7)))
      denying
      (mcs_send_connect_initial user_bytes denying)
mcs_send_connect_initial_lem_example =
    mcs_send_connect_initial_lem (replicate 130 7) (omega arith) user_bytes denying (omega arith)
      refl (omega arith) refl tt

-- Three bytes of data behind both headers.
abbrev outgoing : Stream
outgoing = record (of_bytes (replicate 15 0 ++ (5 ∷ 6 ∷ 7 ∷ []))) { mcs_hdr = 7 }

mcs_send_to_channel_lem_example :
    Posted
      (data_packet (sdrq 6 1004 (5 ∷ 6 ∷ 7 ∷ [])))
      denying
      (mcs_send_to_channel 6 outgoing 1004 denying)
mcs_send_to_channel_lem_example =
    mcs_send_to_channel_lem 6 1004 outgoing (omega arith) (omega arith) (omega arith) denying refl
      refl refl tt

abbrev incoming : Tcp
incoming = with_coming 3 (drop 2 (data_packet (sdin 2 0 6 1004 0x70 (5 ∷ 6 ∷ 7 ∷ [])) ++ (77 ∷ [])))

mcs_recv-sdin_example :
    Indication 1004 (5 ∷ 6 ∷ 7 ∷ []) (77 ∷ []) incoming (mcs_recv true 0 incoming)
mcs_recv-sdin_example =
    mcs_recv-sdin true 0 2 0 6 1004 0x70 (5 ∷ 6 ∷ 7 ∷ []) (77 ∷ []) incoming (omega arith)
      (omega arith) (omega arith) refl tt refl
