-- ===== src/Channels/Runs.antt =====
-- channels.c at a message of five bytes.
use app_network_rdesktop.Base.{◌≡◌, refl, false, true, List, [], ◌∷◌, some, arith}
use app_network_rdesktop.Stream.{Stream, of_bytes}
use app_network_rdesktop.Channels.{Vchannel, Channels, Packet, channel_send}
use app_network_rdesktop.Channels.RoundTrip.{deliver, channel_process-channel_send}

abbrev clipboard : Vchannel
clipboard = record { mcs_id = 1004; name = 99 ∷ []; flags = 0; input = of_bytes [] }

abbrev table : Channels
table = record { channels = clipboard ∷ []; rdp_v5 = true; encryption = false }

abbrev message : Stream
message = of_bytes (0 ∷ 0 ∷ 0 ∷ 0 ∷ 0 ∷ 0 ∷ 0 ∷ 0 ∷ 11 ∷ 12 ∷ 13 ∷ 14 ∷ 15 ∷ [])

channel_process-channel_send_example :
    (ps : List Packet) × (t : Stream) × (c' : Channels) × (channel_send
        (λ bs. bs)
        false
        clipboard
        message
      ≡ some (ps, t))
    × (deliver table ps
        ≡ some (c', record { mcs_id = 1004; bytes = 11 ∷ 12 ∷ 13 ∷ 14 ∷ 15 ∷ [] } ∷ []))
channel_process-channel_send_example =
    channel_process-channel_send (λ bs. bs) (λ bs. refl) false clipboard message 5 refl
      (omega arith) (omega arith) table [] clipboard [] refl
