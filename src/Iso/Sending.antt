-- ===== src/Iso/Sending.antt =====
-- iso_send puts one framed packet on the wire.
use app_network_rdesktop.Base.{
  ℕ, ◌+◌, ◌-◌, ◌%◌, ◌^◌, ◌<◌, ◌≤◌, ◌≡◌, refl, ap, sym, subst, ◌∙◌, false, List, [], ◌∷◌, ◌++◌, some,
  length, take, drop, arith, length-drop, length-take, take-append_add, drop-take, suc,
}
use app_network_rdesktop.Stream.{Stream, out_bytes, bytes16_be}
use app_network_rdesktop.Stream.Splice.{splice, length-splice}
use app_network_rdesktop.Stream.Writing.{wrote, out_all_lem, out_bytes_fits}
use app_network_rdesktop.Tcp.State.{Tcp, Reply, done, lift, ◌>>=◌}
use app_network_rdesktop.Tcp.{tcp_send}
use app_network_rdesktop.Tcp.Sending.{Takes, tcp_send_lem}
use app_network_rdesktop.Iso.{iso_send}
use app_network_rdesktop.Iso.Packets.{data_header}
use app_network_rdesktop.Iso.Framing.{data_packet}

pub data_header_lem :
    (s : Stream)
    → data_header s
      ≡ out_bytes s
          (3 ∷ 0 ∷ (bytes16_be ((s.end + 2 ^ 32 - s.p) % 2 ^ 16) ++ (2 ∷ 0xf0 ∷ 0x80 ∷ [])))
unfolding data_header
data_header_lem s =
    out_all_lem
      ((0 ∷ [])
        ∷ bytes16_be ((s.end + 2 ^ 32 - s.p) % 2 ^ 16)
        ∷ (2 ∷ [])
        ∷ (0xf0 ∷ [])
        ∷ (0x80 ∷ [])
        ∷ [])
      s (3 ∷ [])

-- What a function that sends leaves: the bytes are on the wire, and only g_out and the socket's
-- script of writes are changed besides.
pub record Posted (bs : List ℕ) (t : Tcp) (r : Reply Tcp) : Type 0 where
  pub t' : Tcp
  pub answer : r ≡ done t'
  pub takes : Takes t'.writes
  pub same : t' ≡ record t { g_out = t'.g_out; writes = t'.writes; wire = t.wire ++ bs }

-- tcp_send of a stream whose filled part is `bs`.
pub tcp_send-Posted :
    (s : Stream) (bs : List ℕ) (t : Tcp)
    → t.g_network_error ≡ false
    → s.end ≤ length s.buf
    → take s.end s.buf ≡ bs
    → Takes t.writes
    → Posted bs t (tcp_send s t)
tcp_send-Posted s bs t e inside h w =
    let (t', answer, sent) = tcp_send_lem s t e inside w in
    record {
      t' = record t { g_out = s; writes = sent.ws; wire = t.wire ++ bs };
      answer =
          answer
          ∙ ap done (
              sent.after
              ∙ ap (λ bs. record t { g_out = s; writes = sent.ws; wire = t.wire ++ bs }) h);
      takes = sent.takes;
      same = refl;
    }

module _ (s : Stream) (room : 7 ≤ s.end) (inside : s.end ≤ length s.buf)
    (small : s.end < 2 ^ 16) where
  abbrev pub payload : List ℕ
  payload = drop 7 (take s.end s.buf)

  header : List ℕ
  header = 3 ∷ 0 ∷ (bytes16_be s.end ++ (2 ∷ 0xf0 ∷ 0x80 ∷ []))

  pub length-payload : length payload + 7 ≡ s.end
  length-payload = omega (arith, length-drop 7 (take s.end s.buf), length-take s.end s.buf)

  header-payload : header ++ payload ≡ data_packet payload
  unfolding header
  header-payload =
      ap (λ n. 3 ∷ 0 ∷ (bytes16_be n ++ (2 ∷ 0xf0 ∷ 0x80 ∷ payload)))
        (let e : s.end ≡ suc (suc (suc (length payload))) + 4 = omega (arith, length-payload) in e)

  filled : take s.end (splice 0 header s.buf) ≡ data_packet payload
  unfolding header
  filled =
      ap (λ i. take i (header ++ drop 7 s.buf)) (let e : s.end ≡ 7 + (s.end - 7) = omega arith in e)
      ∙ take-append_add header (drop 7 s.buf) (s.end - 7)
      ∙ ap (λ xs. header ++ xs)
          (sym (drop-take 7 (s.end - 7) s.buf)
            ∙ ap (λ i. drop 7 (take i s.buf)) (let e : 7 + (s.end - 7) ≡ s.end = omega arith in e))
      ∙ header-payload

  start : Stream
  start = record s { p = 0 }

  header_written : data_header start ≡ some (wrote start header)
  unfolding header start
  header_written =
      data_header_lem (record s { p = 0 })
      ∙ ap (λ n. out_bytes (record s { p = 0 }) (3 ∷ 0 ∷ (bytes16_be n ++ (2 ∷ 0xf0 ∷ 0x80 ∷ []))))
          (let e : (s.end + 2 ^ 32 - 0) % 2 ^ 16 ≡ s.end = omega arith in e)
      ∙ out_bytes_fits (record s { p = 0 }) (3 ∷ 0 ∷ (bytes16_be s.end ++ (2 ∷ 0xf0 ∷ 0x80 ∷ [])))
          (omega arith)

  still_inside : (wrote start header).end ≤ length (wrote start header).buf
  unfolding start header
  still_inside = omega (
    arith,
    length-splice 0 (3 ∷ 0 ∷ (bytes16_be s.end ++ (2 ∷ 0xf0 ∷ 0x80 ∷ []))) s.buf (omega arith),
  )

  header_sent :
      (t : Tcp)
      → t.g_network_error ≡ false
      → Takes t.writes
      → Posted (data_packet payload) t (tcp_send (wrote start header) t)
  unfolding start
  header_sent t e w =
      tcp_send-Posted (wrote start header) (data_packet payload) t e still_inside filled w

  -- A stream that begins with the ISO header and fits into 16 bits is sent as one data packet.
  pub iso_send_lem :
      (t : Tcp)
      → s.iso_hdr ≡ 0
      → t.g_network_error ≡ false
      → Takes t.writes
      → Posted (data_packet payload) t (iso_send s t)
  unfolding iso_send start
  iso_send_lem t h e w =
      subst (λ r. Posted (data_packet payload) t (lift r >>= λ s'. tcp_send s' t))
        (sym (ap (λ i. data_header (record s { p = i })) h ∙ (let f = header_written in f)))
        (header_sent t e w)
