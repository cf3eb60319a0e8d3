-- ===== src/Rdp/Sending.antt =====
-- The data PDUs that the client hands to the secure layer.
use app_network_rdesktop.Base.{
  ℕ, ◌+◌, ◌-◌, ◌/◌, ◌%◌, ◌^◌, ◌<◌, ◌≤◌, ◌≡◌, refl, ap, ◌∙◌, false, ltb, List, [], ◌∷◌, ◌++◌, Option,
  some, length, take, drop, arith, le→ltb, take-append,
}
use app_network_rdesktop.Stream.{Stream, out_bytes, s_mark_end, bytes16_le, bytes32_le}
use app_network_rdesktop.Stream.Splice.{
  splice, length-splice, drop-take-splice_more, drop-splice_zero,
}
use app_network_rdesktop.Stream.Writing.{wrote, out_all_lem, out_bytes_fits}
use app_network_rdesktop.Tcp.State.{Tcp}
use app_network_rdesktop.Tcp.{tcp_init}
use app_network_rdesktop.Tcp.Receiving.{grown-length}
use app_network_rdesktop.Iso.{iso_init}
use app_network_rdesktop.Mcs.{mcs_init}
use app_network_rdesktop.Rdp.{
  Rdp, Handed, sec_hdrlen, sec_init, data_flags, rdp_init_data, handed, share_data_header,
  rdp_send_data, send_data_pdu,
}

-- A share data header and what it announces: 18 bytes with the total length, and the length without the
-- share control header.
abbrev pub data_head : Rdp → ℕ → ℕ → List ℕ
data_head r data_pdu_type n =
    bytes16_le (18 + n)
    ++ (0x17
        ∷ 0
        ∷ (bytes16_le (r.mcs_userid + 1001)
            ++ (bytes32_le r.shareid
                ++ (0 ∷ 1 ∷ (bytes16_le (4 + n) ++ (data_pdu_type % 256 ∷ 0 ∷ 0 ∷ 0 ∷ []))))))

abbrev pub data_pdu : Rdp → ℕ → List ℕ → List ℕ
data_pdu r data_pdu_type body = data_head r data_pdu_type (length body) ++ body

inner_length : (n : ℕ) → bytes16_le (18 + n + 2 ^ 16 - 14) ≡ bytes16_le (4 + n)
inner_length n =
    let low : (18 + n + 2 ^ 16 - 14) % 256 ≡ (4 + n) % 256 = omega arith in
    let high : (18 + n + 2 ^ 16 - 14) / 256 % 256 ≡ (4 + n) / 256 % 256 = omega arith in
    rw (low, high) refl

header_written :
    (r : Rdp) (data_pdu_type n : ℕ) (s : Stream)
    → (s.end + 2 ^ 32 - s.p) % 2 ^ 16 ≡ 18 + n
    → share_data_header r data_pdu_type s ≡ out_bytes s (data_head r data_pdu_type n)
unfolding share_data_header
header_written r data_pdu_type n s h =
    let m = (s.end + 2 ^ 32 - s.p) % 2 ^ 16 in
    out_all_lem
      ((0x17 ∷ 0 ∷ [])
        ∷ bytes16_le (r.mcs_userid + 1001)
        ∷ bytes32_le r.shareid
        ∷ (0 ∷ [])
        ∷ (1 ∷ [])
        ∷ bytes16_le (m + 2 ^ 16 - 14)
        ∷ (data_pdu_type % 256 ∷ [])
        ∷ (0 ∷ [])
        ∷ (0 ∷ 0 ∷ [])
        ∷ [])
      s (bytes16_le m)
    ∙ ap
        (λ m. out_bytes s (
          bytes16_le m
          ++ (0x17
              ∷ 0
              ∷ (bytes16_le (r.mcs_userid + 1001)
                  ++ (bytes32_le r.shareid
                      ++ (0
                          ∷ 1
                          ∷ (bytes16_le (m + 2 ^ 16 - 14)
                              ++ (data_pdu_type % 256 ∷ 0 ∷ 0 ∷ 0 ∷ []))))))))
        h
    ∙ ap
        (λ xs. out_bytes s (
          bytes16_le (18 + n)
          ++ (0x17
              ∷ 0
              ∷ (bytes16_le (r.mcs_userid + 1001)
                  ++ (bytes32_le r.shareid
                      ++ (0 ∷ 1 ∷ (xs ++ (data_pdu_type % 256 ∷ 0 ∷ 0 ∷ 0 ∷ []))))))))
        (inner_length n)

-- A body in memory, with the 18 bytes in front of it left for the header.
module _ (r : Rdp) (data_pdu_type q : ℕ) (body m : List ℕ) (u : Stream)
    (small : length body + 18 < 2 ^ 16) (inside : q + 18 + length body ≤ length m) (p_at : u.p ≡ q)
    (end_at : u.end ≡ q + 18 + length body) (memory : u.buf ≡ splice (q + 18) body m) where
  head : List ℕ
  head = data_head r data_pdu_type (length body)

  length-head : length head ≡ 18
  unfolding head
  length-head = refl

  length-memory : length u.buf ≡ length m
  length-memory = ap length memory ∙ length-splice (q + 18) body m inside

  header_fits : u.p + length head ≤ length u.buf
  header_fits = omega (arith, length-head, length-memory)

  header_placed : share_data_header r data_pdu_type u ≡ some (wrote u head)
  unfolding head
  header_placed =
      header_written r data_pdu_type (length body) u (omega (arith, p_at, end_at))
      ∙ out_bytes_fits u (data_head r data_pdu_type (length body)) (let f = header_fits in f)

  end_inside : ltb (length (wrote u head).buf) u.end ≡ false
  end_inside =
      le→ltb (length (wrote u head).buf) u.end
        (omega (arith, length-splice u.p head u.buf header_fits, length-memory, end_at))

  behind_head : take (length body) (drop (q + 18) (splice (q + 18) body m)) ≡ body
  behind_head =
      ap (take (length body)) (drop-splice_zero (q + 18) body m inside)
      ∙ take-append body (drop (q + 18 + length body) m)

  -- What is handed down.
  bytes_placed : drop q (take u.end (wrote u head).buf) ≡ data_pdu r data_pdu_type body
  unfolding head
  bytes_placed =
      ap (λ i. drop q (take i (splice u.p (data_head r data_pdu_type (length body)) u.buf))) end_at
      ∙ ap
          (λ i. drop q (
            take (q + 18 + length body) (splice i (data_head r data_pdu_type (length body)) u.buf)))
          p_at
      ∙ drop-take-splice_more q (data_head r data_pdu_type (length body)) u.buf
          (omega (arith, length-memory)) (length body)
      ∙ ap (λ xs. data_head r data_pdu_type (length body) ++ take (length body) (drop (q + 18) xs))
          memory
      ∙ ap (λ xs. data_head r data_pdu_type (length body) ++ xs) behind_head

-- What a send gives: what is handed down, and the byte stream as sec_send leaves it.
pub record Given (sec_send : ℕ → Stream → Tcp → Tcp) (flags : ℕ) (bytes : List ℕ) (t : Tcp)
    (r : Option (Handed × Tcp)) : Type 0 where
  pub s : Stream
  pub answer : r ≡ some (record { sec_flags = flags; bytes = bytes }, sec_send flags s t)

module _ (sec_send : ℕ → Stream → Tcp → Tcp) (r : Rdp) (size : ℕ) (write : Stream → Option Stream)
    (body : List ℕ) (writes : (s : Stream) → write s ≡ out_bytes s body) (fits : length body ≤ size)
    (small : length body + 18 < 2 ^ 16) (data_pdu_type : ℕ) (t : Tcp) where
  abbrev h : ℕ
  h = sec_hdrlen r.licensed (data_flags r)

  start : Stream
  start = rdp_init_data r size t

  start_p : start.p ≡ 33 + h
  unfolding start rdp_init_data sec_init mcs_init iso_init tcp_init
  start_p = omega arith

  start_rdp : start.rdp_hdr ≡ 15 + h
  unfolding start rdp_init_data sec_init mcs_init iso_init tcp_init
  start_rdp = omega arith

  start_sec : start.sec_hdr ≡ 15
  unfolding start rdp_init_data sec_init mcs_init iso_init tcp_init
  start_sec = refl

  start_room : start.p + length body ≤ length start.buf
  unfolding start rdp_init_data sec_init mcs_init iso_init tcp_init
  start_room = omega (arith, grown-length t.g_out.buf (size + 18 + h + 8 + 7))

  filled : Stream
  filled = record (s_mark_end (wrote start body)) { p = start.rdp_hdr }

  sent : Stream
  sent = wrote filled (data_head r data_pdu_type (length body))

  filled_end : filled.end ≡ 15 + h + 18 + length body
  unfolding filled
  filled_end = omega (arith, start_p)

  filled_memory : filled.buf ≡ splice (15 + h + 18) body start.buf
  unfolding filled
  filled_memory =
      ap (λ i. splice i body start.buf)
        (let e : start.p ≡ 15 + h + 18 = omega (arith, start_p) in e)

  filled_at : filled.p ≡ 15 + h
  unfolding filled
  filled_at = start_rdp

  sec_at : filled.sec_hdr ≡ 15
  unfolding filled
  sec_at = start_sec

  body_inside : 15 + h + 18 + length body ≤ length start.buf
  body_inside = omega (arith, start_room, start_p)

  header_put : share_data_header r data_pdu_type filled ≡ some sent
  unfolding sent head
  header_put =
      header_placed r data_pdu_type (15 + h) body start.buf filled small body_inside filled_at
        filled_end filled_memory

  given_bytes :
      handed r.licensed (data_flags r) sent
      ≡ some (record { sec_flags = data_flags r; bytes = data_pdu r data_pdu_type body })
  unfolding handed sent head
  given_bytes =
      rw
        (
          end_inside r data_pdu_type (15 + h) body start.buf filled small body_inside filled_at
              filled_end filled_memory,
          ap
                (λ i. drop (i + h) (
                  take filled.end
                    (splice filled.p (data_head r data_pdu_type (length body)) filled.buf)))
                sec_at
              ∙ bytes_placed r data_pdu_type (15 + h) body start.buf filled small body_inside
                  filled_at filled_end filled_memory,
        )
        refl

  pub send_data_pdu_lem :
      Given sec_send
        (data_flags r)
        (data_pdu r data_pdu_type body)
        t
        (send_data_pdu sec_send r size write data_pdu_type t)
  unfolding rdp_send_data start filled
  send_data_pdu_lem = record {
    s = sent;
    answer = rw (writes start, out_bytes_fits start body start_room, header_put, given_bytes) refl;
  }
