-- ===== src/Channels/Sending.antt =====
-- All the packets of a message that `channel_send` hands down.
use app_network_rdesktop.Base.{
  ℕ, zero, suc, ◌+◌, ◌-◌, ◌%◌, ◌^◌, ◌≤◌, ◌<◌, ◌≡◌, refl, sym, ap, ◌∙◌, min, Bool, false, ◌==◌, ltb,
  ltb→lt, not_ltb→le, if◌then◌else◌, List, [], ◌∷◌, ◌++◌, some, arith, length, take, drop,
  length-take, drop-drop, drop-overlay, length-overlay, inl, inr, Bool-cases,
}
use app_network_rdesktop.Stream.{Stream, out_bytes, bytes32_le}
use app_network_rdesktop.Stream.Splice.{length-splice, drop-splice_behind, drop-take-splice_more}
use app_network_rdesktop.Stream.Writing.{wrote, wrote-wrote, out_bytes_fits}
use app_network_rdesktop.Channels.{
  Vchannel, Packet, channel_chunk_length, channel_flag_first, channel_flag_last, show_protocol,
  send_segment, send_segments, channel_send,
}
use app_network_rdesktop.Channels.Segment.{
  packet, last_if_zero, segments, after, send_segment_lem, after_keeps, length-after,
}

module _ (scramble : List ℕ → List ℕ) (same : (bs : List ℕ) → length (scramble bs) ≡ length bs)
    (encryption : Bool) (ch : Vchannel) where
  module _ (fuel : ℕ) (s : Stream) (start total from n : ℕ) (more : (n == 0) ≡ false)
      (behind : start + 8 + channel_chunk_length ≤ from) (inside : from + n ≤ length s.buf) where
    this : ℕ
    this = min n channel_chunk_length

    flags_of : ℕ
    flags_of = last_if_zero encryption ch (n - this) + show_protocol ch

    next_stream : Stream
    unfolding this
    next_stream =
        after scramble same encryption ch s start total flags_of from this (omega arith)
          (omega arith)

    next_data : drop (from + this) next_stream.buf ≡ drop this (drop from s.buf)
    unfolding this next_stream
    next_data =
        after_keeps scramble same encryption ch s start total flags_of from this (omega arith)
          (omega arith) (from + this) (omega arith)
        ∙ sym (drop-drop from this s.buf)

    segment_sent :
        send_segment scramble encryption ch s total start from this (n - this)
        ≡ some (
          packet encryption ch total
              (last_if_zero encryption ch (n - this))
              (take this (drop from s.buf)),
          next_stream,
        )
    unfolding next_stream this flags_of
    segment_sent =
        send_segment_lem scramble same encryption ch s start total flags_of from this (omega arith)
          (omega arith) (n - this) refl

    length-next : length next_stream.buf ≡ length s.buf
    unfolding next_stream this
    length-next =
        length-after scramble same encryption ch s start total flags_of from this (omega arith)
          (omega arith)

    send_segments_step :
        {ps : List Packet} {t : Stream}
        → send_segments scramble encryption ch fuel next_stream total start (from + this) (n - this)
          ≡ some (ps, t)
        → send_segments scramble encryption ch (suc fuel) s total start from n
          ≡ some (
            packet encryption ch total
                  (last_if_zero encryption ch (n - this))
                  (take this (drop from s.buf))
                ∷ ps,
            t,
          )
    unfolding send_segments this
    send_segments_step h = rw (more, send_segments, segment_sent, h) refl

    segments_step :
        (xs : List ℕ)
        → segments encryption ch (suc fuel) total n xs
          ≡ packet encryption ch total (last_if_zero encryption ch (n - this)) (take this xs)
            ∷ segments encryption ch fuel total (n - this) (drop this xs)
    unfolding segments this
    segments_step xs = rw (more, segments) refl

  -- All the rounds: the packets are those of the message's bytes in memory.
  send_segments_lem :
      (fuel : ℕ) (s : Stream) (start total from n : ℕ)
      → n ≤ fuel
      → start + 8 + channel_chunk_length ≤ from
      → from + n ≤ length s.buf
      → (t : Stream) × (send_segments scramble encryption ch fuel s total start from n
          ≡ some (segments encryption ch fuel total n (drop from s.buf), t))
  unfolding send_segments segments this next_stream
  send_segments_lem zero s start total from n h behind inside = (s, refl)
  send_segments_lem (suc fuel) s start total from n h behind inside = elim (Bool-cases (n == 0)) [
    | inl e ↦ (s, rw (e, send_segments, segments))
    | inr e ↦
        let d = next_data fuel s start total from n e behind inside in
        let (t, ih) =
          send_segments_lem fuel (next_stream fuel s start total from n e behind inside) start total
            (from + min n channel_chunk_length) (n - min n channel_chunk_length) (omega arith)
            (omega arith) (omega (arith, length-next fuel s start total from n e behind inside)) in
        (
          t,
          send_segments_step fuel s start total from n e behind inside ih
              ∙ rw (segments_step fuel s start total from n e behind inside (drop from s.buf))
                  (cc d),
        )
  ]

  module _ (s : Stream) (total : ℕ) (ended : s.channel_hdr + 8 + total ≡ s.end)
      (inside : s.end ≤ length s.buf) (small : total < 2 ^ 32) where
    unfoldable pub first_flags : ℕ
    first_flags =
        if total - min total channel_chunk_length == 0
        then channel_flag_first + channel_flag_last
        else channel_flag_first

    unfoldable pub message : List ℕ
    message = drop (s.channel_hdr + 8) s.buf

    -- The packets of a whole message.
    unfoldable pub packets : List Packet
    unfolding first_flags message
    packets =
        packet encryption ch total first_flags (take (min total channel_chunk_length) message)
        ∷ segments encryption ch (total - min total channel_chunk_length) total
            (total - min total channel_chunk_length) (drop (min total channel_chunk_length) message)

    start : ℕ
    start = s.channel_hdr

    hdr : List ℕ
    unfolding first_flags
    hdr = bytes32_le total ++ bytes32_le (first_flags + show_protocol ch)

    with_header : Stream
    unfolding hdr start
    with_header = wrote (record s { p = start }) hdr

    total_in :
        out_bytes (record s { p = start }) (bytes32_le total)
        ≡ some (wrote (record s { p = start }) (bytes32_le total))
    unfolding start
    total_in = out_bytes_fits (record s { p = start }) (bytes32_le total) (omega arith)

    flags_in :
        out_bytes
          (wrote (record s { p = start }) (bytes32_le total))
          (bytes32_le (first_flags + show_protocol ch))
        ≡ some with_header
    unfolding with_header hdr start
    flags_in =
        out_bytes_fits (wrote (record s { p = start }) (bytes32_le total))
          (bytes32_le (first_flags + show_protocol ch))
          (omega (arith, length-splice s.channel_hdr (bytes32_le total) s.buf (omega arith)))
        ∙ ap some (
            wrote-wrote (record s { p = start }) (bytes32_le total)
              (bytes32_le (first_flags + show_protocol ch)) (omega arith))

    from : ℕ
    from = with_header.p + min total channel_chunk_length

    -- The first fragment goes out in place.
    first_bytes :
        drop start (take from with_header.buf)
        ≡ hdr ++ take (min total channel_chunk_length) message
    unfolding with_header message hdr from
    first_bytes =
        drop-take-splice_more s.channel_hdr hdr s.buf (omega arith) (min total channel_chunk_length)

    first_sent : Stream
    first_sent = record with_header {
      buf = scramble (take from with_header.buf) ++ drop from with_header.buf;
      end = from;
    }

    length-first : length (scramble (take from with_header.buf)) ≡ from
    unfolding with_header from hdr start
    length-first = omega (
      arith,
      same (take from with_header.buf),
      length-take from with_header.buf,
      length-splice s.channel_hdr hdr s.buf (omega arith),
    )

    first_buf :
        first_sent.buf
        ≡ scramble (take from with_header.buf)
          ++ drop (length (scramble (take from with_header.buf))) with_header.buf
    unfolding first_sent
    first_buf =
        ap (λ i. scramble (take from with_header.buf) ++ drop i with_header.buf) (sym length-first)

    rest_data : drop from first_sent.buf ≡ drop (min total channel_chunk_length) message
    unfolding message with_header from start
    rest_data =
        ap (drop from) first_buf
        ∙ drop-overlay (scramble (take from with_header.buf)) with_header.buf from
            (omega (arith, length-first))
        ∙ drop-splice_behind start hdr s.buf (omega arith) from (omega arith)
        ∙ sym (drop-drop (s.channel_hdr + 8) (min total channel_chunk_length) s.buf)

    length-first_sent : length first_sent.buf ≡ length s.buf
    unfolding with_header from start
    length-first_sent = omega (
      arith,
      ap length first_buf,
      length-overlay (scramble (take from with_header.buf)) with_header.buf,
      length-first,
      length-splice s.channel_hdr hdr s.buf (omega arith),
    )

    rest : ℕ
    rest = total - min total channel_chunk_length

    rest_sent :
        (t : Stream) × (send_segments scramble encryption ch rest first_sent total start from rest
          ≡ some (segments encryption ch rest total rest (drop from first_sent.buf), t))
    unfolding rest from with_header start
    rest_sent = elim (Bool-cases (ltb channel_chunk_length total)) [
      | inl e ↦
          send_segments_lem rest first_sent start total from rest (omega arith)
            (omega (arith, ltb→lt channel_chunk_length total e)) (omega (arith, length-first_sent))
      | inr e ↦
          let z : total - min total channel_chunk_length ≡ 0 =
            omega (arith, not_ltb→le channel_chunk_length total e) in
          (first_sent, rw z (unfold send_segments segments in refl))
    ]

    total_eq : (s.end + 2 ^ 32 - (s.channel_hdr + 8)) % 2 ^ 32 ≡ total
    total_eq = omega arith

    pub channel_send_lem :
        (t : Stream) × (channel_send scramble encryption ch s ≡ some (packets, t))
    unfolding channel_send packets first_sent from start rest
    channel_send_lem = (
      rest_sent.0,
      rw (total_eq, total_in, flags_in, rest_sent.1, first_bytes, rest_data) (unfold hdr in refl),
    )

    pub packets_single :
        total ≤ 1600
        → packets ≡ packet encryption ch total 3 (take total (drop (s.channel_hdr + 8) s.buf)) ∷ []
    unfolding packets first_flags message
    packets_single h =
        let this : min total channel_chunk_length ≡ total = omega arith in
        let left : total - total ≡ 0 = omega arith in rw (this, left) (unfold segments in refl)

    pub packets_many :
        1600 < total
        → packets
          ≡ packet encryption ch total 1 (take 1600 (drop (s.channel_hdr + 8) s.buf))
            ∷ segments encryption ch
                (total - 1600)
                total
                (total - 1600)
                (drop 1600 (drop (s.channel_hdr + 8) s.buf))
    unfolding packets first_flags message
    packets_many h =
        let this : min total channel_chunk_length ≡ 1600 = omega arith in
        let left : (total - 1600 == 0) ≡ false = ground arith in rw (this, left)
