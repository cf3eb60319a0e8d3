-- ===== src/Mcs/Requests.antt =====
-- Data that mcs_send_to_channel sends on an MCS channel.
use app_network_rdesktop.Base.{
  ℕ, ◌+◌, ◌-◌, ◌%◌, ◌^◌, ◌<◌, ◌≤◌, ◌≡◌, refl, ap, sym, subst, ◌∙◌, false, List, [], ◌∷◌, ◌++◌, some,
  length, take, drop, arith, length-drop, length-take, drop-take,
}
use app_network_rdesktop.Stream.{Stream, out_bytes, bytes16_be}
use app_network_rdesktop.Stream.Splice.{splice, length-splice, drop-take-splice_more}
use app_network_rdesktop.Stream.Writing.{wrote, out_all_lem, out_bytes_fits}
use app_network_rdesktop.Tcp.State.{Tcp, lift, ◌>>=◌}
use app_network_rdesktop.Tcp.Sending.{Takes}
use app_network_rdesktop.Iso.{iso_send}
use app_network_rdesktop.Iso.Framing.{data_packet}
use app_network_rdesktop.Iso.Sending.{Posted, iso_send_lem}
use app_network_rdesktop.Mcs.{mcs_send_to_channel}
use app_network_rdesktop.Mcs.Packets.{sdrq_header, marked_length}

abbrev pub sdrq_head : ℕ → ℕ → ℕ → List ℕ
sdrq_head userid channel n =
    100 ∷ (bytes16_be userid ++ (bytes16_be channel ++ (0x70 ∷ bytes16_be (0x8000 + n))))

-- A data request with less than 2^15 bytes: its length always takes two bytes.
abbrev pub sdrq : ℕ → ℕ → List ℕ → List ℕ
sdrq userid channel content = sdrq_head userid channel (length content) ++ content

marked_length_lem : (n : ℕ) → n < 2 ^ 15 → marked_length n ≡ 0x8000 + n
unfolding marked_length
marked_length_lem n h = ground arith

module _ (userid channel : ℕ) (s : Stream) (room : 15 ≤ s.end) (inside : s.end ≤ length s.buf)
    (small : s.end < 15 + 2 ^ 15) where
  abbrev content : List ℕ
  content = drop 15 (take s.end s.buf)

  header : List ℕ
  header = sdrq_head userid channel (s.end - 15)

  headed : Stream
  headed = wrote (record s { p = 7 }) header

  header_written : sdrq_header userid channel (record s { p = 7 }) ≡ some headed
  unfolding sdrq_header headed header marked_length
  header_written =
      out_all_lem
        (bytes16_be userid
          ∷ bytes16_be channel
          ∷ (0x70 ∷ [])
          ∷ bytes16_be (marked_length ((s.end + 2 ^ 32 - 7 - 8) % 2 ^ 16))
          ∷ [])
        (record s { p = 7 }) (100 ∷ [])
      ∙ ap
          (λ n.
            out_bytes (record s { p = 7 })
              (100 ∷ (bytes16_be userid ++ (bytes16_be channel ++ (0x70 ∷ bytes16_be n)))))
          (ap marked_length
              (let e : (s.end + 2 ^ 32 - 7 - 8) % 2 ^ 16 ≡ s.end - 15 = omega arith in e)
            ∙ marked_length_lem (s.end - 15) (omega arith))
      ∙ out_bytes_fits (record s { p = 7 }) (sdrq_head userid channel (s.end - 15)) (omega arith)

  length-content : length content ≡ s.end - 15
  length-content = omega (arith, length-drop 15 (take s.end s.buf), length-take s.end s.buf)

  headed_payload : drop 7 (take headed.end headed.buf) ≡ sdrq userid channel content
  unfolding headed header
  headed_payload =
      ap (λ i. drop 7 (take i (splice 7 (sdrq_head userid channel (s.end - 15)) s.buf)))
        (let e : s.end ≡ 7 + 8 + (s.end - 15) = omega arith in e)
      ∙ drop-take-splice_more 7 (sdrq_head userid channel (s.end - 15)) s.buf (omega arith)
          (s.end - 15)
      ∙ ap (λ xs. header ++ xs)
          (sym (drop-take 15 (s.end - 15) s.buf)
            ∙ ap (λ i. drop 15 (take i s.buf))
                (let e : 15 + (s.end - 15) ≡ s.end = omega arith in e))
      ∙ ap (λ n. sdrq_head userid channel n ++ content) (sym length-content)

  headed_inside : headed.end ≤ length headed.buf
  unfolding headed header
  headed_inside =
      omega (arith, length-splice 7 (sdrq_head userid channel (s.end - 15)) s.buf (omega arith))

  headed_end : headed.end ≡ s.end
  unfolding headed header
  headed_end = refl

  headed_hdr : headed.iso_hdr ≡ s.iso_hdr
  unfolding headed header
  headed_hdr = refl

  headed_sent :
      (t : Tcp)
      → s.iso_hdr ≡ 0
      → t.g_network_error ≡ false
      → Takes t.writes
      → Posted (data_packet (sdrq userid channel content)) t (iso_send headed t)
  headed_sent t h e w =
      subst (λ bs. Posted (data_packet bs) t (iso_send headed t)) headed_payload
        (iso_send_lem headed (omega (arith, headed_end)) headed_inside (omega (arith, headed_end)) t
          (headed_hdr ∙ h) e w)

  -- A stream with the headers of both layers in front, 15 bytes, and less than 2^15 bytes behind them is
  -- sent over a socket that takes it as one data packet: a data request with the user id, the channel and
  -- the length in two bytes, and the bytes behind the headers.
  pub mcs_send_to_channel_lem :
      (t : Tcp)
      → s.mcs_hdr ≡ 7
      → s.iso_hdr ≡ 0
      → t.g_network_error ≡ false
      → Takes t.writes
      → Posted
          (data_packet (sdrq userid channel content))
          t
          (mcs_send_to_channel userid s channel t)
  unfolding mcs_send_to_channel
  mcs_send_to_channel_lem t k h e w =
      subst
        (λ r. Posted (data_packet (sdrq userid channel content)) t (lift r >>= λ s'. iso_send s' t))
        (sym (
          ap (λ i. sdrq_header userid channel (record s { p = i })) k
          ∙ (let f = header_written in f)))
        (headed_sent t h e w)
