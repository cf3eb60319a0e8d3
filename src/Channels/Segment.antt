-- ===== src/Channels/Segment.antt =====
-- One segment of `channel_send`: the packet that it hands down, and what it leaves in memory.
use app_network_rdesktop.Base.{
  ℕ, zero, suc, ◌+◌, ◌-◌, ◌≤◌, ◌≡◌, sym, ap, ◌∙◌, min, Bool, true, false, ◌==◌, if◌then◌else◌, List,
  [], ◌∷◌, ◌++◌, some, arith, length, take, drop, length-take, length-drop, drop-overlay,
  length-overlay,
}
use app_network_rdesktop.Stream.{Stream, out_bytes, bytes32_le}
use app_network_rdesktop.Stream.Splice.{length-splice, drop-splice_behind, drop-take-splice}
use app_network_rdesktop.Stream.Writing.{wrote, wrote-wrote, out_bytes_fits}
use app_network_rdesktop.Channels.{
  Vchannel, Packet, channel_chunk_length, channel_flag_last, show_protocol, send_flags,
  send_segment,
}

-- A chunk on the wire: the length of the whole message, the flags, and a part of the message.
abbrev pub chunk_bytes : ℕ → ℕ → List ℕ → List ℕ
chunk_bytes total flags part = bytes32_le total ++ (bytes32_le flags ++ part)

module _ (encryption : Bool) (ch : Vchannel) where
  abbrev pub packet : ℕ → ℕ → List ℕ → Packet
  packet total flags part = record {
    sec_flags = send_flags encryption;
    channel = ch.mcs_id;
    bytes = chunk_bytes total (flags + show_protocol ch) part;
  }

  abbrev pub last_if_zero : ℕ → ℕ
  last_if_zero n = if n == 0 then channel_flag_last else 0

  -- The packets for `n` more bytes of a message, which are in front of `xs`.
  unfoldable pub segments : ℕ → ℕ → ℕ → List ℕ → List Packet
  segments zero total n xs = []
  segments (suc fuel) total n xs = elim (n == 0) [
    | true ↦ []
    | false ↦
        let this = min n channel_chunk_length in
        packet total (last_if_zero (n - this)) (take this xs)
        ∷ segments fuel total (n - this) (drop this xs)
  ]

module _ (scramble : List ℕ → List ℕ) (same : (bs : List ℕ) → length (scramble bs) ≡ length bs)
    (encryption : Bool) (ch : Vchannel) where
  module _ (s : Stream) (start total flags from this : ℕ) (behind : start + 8 + this ≤ from)
      (inside : from + this ≤ length s.buf) where
    abbrev pub part : List ℕ
    part = take this (drop from s.buf)

    begin : Stream
    begin = record s { p = start }

    header : List ℕ
    header = bytes32_le total ++ bytes32_le flags

    length-part : length part ≡ this
    length-part = omega (arith, length-take this (drop from s.buf), length-drop from s.buf)

    length-written : length (header ++ part) ≡ 8 + this
    unfolding header
    length-written = omega (arith, length-part)

    written : Stream
    unfolding begin header
    written = wrote begin (header ++ part)

    total_written : out_bytes begin (bytes32_le total) ≡ some (wrote begin (bytes32_le total))
    unfolding begin
    total_written = out_bytes_fits begin (bytes32_le total) (omega arith)

    flags_written :
        out_bytes (wrote begin (bytes32_le total)) (bytes32_le flags) ≡ some (wrote begin header)
    unfolding begin header
    flags_written =
        out_bytes_fits (wrote begin (bytes32_le total)) (bytes32_le flags)
          (omega (arith, length-splice start (bytes32_le total) s.buf (omega arith)))
        ∙ ap some (wrote-wrote begin (bytes32_le total) (bytes32_le flags) (omega arith))

    part_kept : take this (drop from (wrote begin header).buf) ≡ part
    unfolding begin header
    part_kept =
        ap (take this) (drop-splice_behind start header s.buf (omega arith) from (omega arith))

    part-written : out_bytes (wrote begin header) part ≡ some written
    unfolding begin header written
    part-written =
        out_bytes_fits (wrote begin header) part
          (omega (arith, length-part, length-splice start header s.buf (omega arith)))
        ∙ ap some (wrote-wrote begin header part (omega (arith, length-part)))

    -- What is sent, and the stream afterwards.
    sent_bytes : drop start (take written.p written.buf) ≡ chunk_bytes total flags part
    unfolding begin header written
    sent_bytes = drop-take-splice start (header ++ part) s.buf (omega (arith, length-part))

    pub after : Stream
    unfolding begin
    after = record written {
      buf = scramble (take written.p written.buf) ++ drop written.p written.buf;
      end = written.p;
    }

    pub send_segment_lem :
        (remaining : ℕ)
        → flags ≡ last_if_zero encryption ch remaining + show_protocol ch
        → send_segment scramble encryption ch s total start from this remaining
          ≡ some (packet encryption ch total (last_if_zero encryption ch remaining) part, after)
    unfolding send_segment begin after
    send_segment_lem remaining e =
        rw (← e, total_written, flags_written, part_kept, part-written) (simp sent_bytes)

    scrambled : List ℕ
    scrambled = scramble (take written.p written.buf)

    length-scrambled : length scrambled ≡ start + 8 + this
    unfolding scrambled written begin header
    length-scrambled = omega (
      arith,
      same (take written.p written.buf),
      length-take written.p written.buf,
      length-part,
      length-splice start (header ++ part) s.buf (omega (arith, length-part)),
    )

    after_buf : after.buf ≡ scrambled ++ drop (length scrambled) written.buf
    unfolding after scrambled
    after_buf = ap (λ i. scrambled ++ drop i written.buf) (written_p ∙ sym length-scrambled)
      where
        written_p : written.p ≡ start + 8 + this
        written_p = unfold written begin header in omega (arith, length-part)

    -- The memory behind the chunk is as it was.
    pub after_keeps : (k : ℕ) → start + 8 + this ≤ k → drop k after.buf ≡ drop k s.buf
    unfolding written begin
    after_keeps k h =
        ap (drop k) after_buf
        ∙ drop-overlay scrambled written.buf k (omega (arith, length-scrambled))
        ∙ drop-splice_behind start (header ++ part) s.buf (omega (arith, length-written)) k
            (omega (arith, length-written))

    pub length-after : length after.buf ≡ length s.buf
    unfolding written begin
    length-after = omega (
      arith,
      ap length after_buf,
      length-overlay scrambled written.buf,
      length-scrambled,
      length-splice start (header ++ part) s.buf (omega (arith, length-written)),
    )
