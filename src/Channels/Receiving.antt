-- ===== src/Channels/Receiving.antt =====
-- What `channel_process` does with the chunks of a message.
use app_network_rdesktop.Base.{
  ℕ, ◌+◌, ◌-◌, ◌*◌, ◌/◌, ◌%◌, ◌^◌, ◌≤◌, ◌<◌, ◌≡◌, refl, ap, ◌∙◌, min, true, false, has, le→ltb,
  leb-true, List, [], ◌∷◌, ◌++◌, some, arith, length, take, take-length_le,
}
use app_network_rdesktop.Stream.{Stream, of_bytes, in_uint32_le, in_uint8s, in_uint8a}
use app_network_rdesktop.Stream.Reading.{in_uint32_le_ahead}
use app_network_rdesktop.Stream.Splice.{take-splice_end}
use app_network_rdesktop.Stream.Writing.{wrote, out_bytes_fits}
use app_network_rdesktop.Channels.{
  Vchannel, Channels, channel_flag_first, channel_flag_last, find_channel, content, restart,
  copy_fragment, add_fragment, channel_process,
}
use app_network_rdesktop.Channels.Segment.{chunk_bytes}

four_bytes :
    (v : ℕ)
    → v < 2 ^ 32
    → v % 256 + v / 256 % 256 * 2 ^ 8 + v / 65536 % 256 * 2 ^ 16 + v / 16777216 % 256 * 2 ^ 24 ≡ v
four_bytes v h = omega arith

-- The table with another reassembly stream for the channel `rc`.
abbrev pub with_input : Channels → List Vchannel → Vchannel → List Vchannel → Stream → Channels
with_input c front rc back input = record c {
  channels = front ++ (record rc { input = input } ∷ back);
}

module _ (total flags : ℕ) (part : List ℕ) (ht : total < 2 ^ 32) (hf : flags < 2 ^ 32) where
  chunk : Stream
  chunk = of_bytes (chunk_bytes total flags part)

  -- The chunk behind its header.
  body : Stream
  body = record (of_bytes (chunk_bytes total flags part)) { p = 8 }

  header_read :
      (in_uint32_le chunk ≡ some (total, in_uint8s chunk 4))
      × (in_uint32_le (in_uint8s chunk 4) ≡ some (flags, body))
  unfolding chunk body
  header_read = (
    in_uint32_le_ahead chunk (total % 256) (total / 256 % 256) (total / 65536 % 256)
          (total / 16777216 % 256) refl
        ∙ ap (λ v. some (v, in_uint8s chunk 4)) (four_bytes total ht),
    in_uint32_le_ahead (in_uint8s chunk 4) (flags % 256) (flags / 256 % 256) (flags / 65536 % 256)
          (flags / 16777216 % 256) refl
        ∙ ap (λ v. some (v, body)) (four_bytes flags hf),
  )

  content-body : content body ≡ part
  unfolding body
  content-body = take-length_le (length part) part (omega arith)

  -- A chunk for which there is room goes behind what is there.
  copy_fragment_room :
      (input : Stream)
      → input.p + length part ≤ length input.buf
      → copy_fragment input body ≡ some (wrote input part)
  unfolding copy_fragment body in_uint8a
  copy_fragment_room input room =
      rw
        (
          le→ltb (length (chunk_bytes total flags part)) 8 (omega arith),
          whole_part input room,
          leb-true (8 + length part) (length (chunk_bytes total flags part)) (omega arith),
          take-length_le (length part) part (omega arith),
        )
        (out_bytes_fits input part room)
    where
      whole_part :
          (input : Stream)
          → input.p + length part ≤ length input.buf
          → min (length (chunk_bytes total flags part) - 8) (length input.buf - input.p)
            ≡ length part
      whole_part input room = omega arith

  module _ (c : Channels) (id : ℕ) (front : List Vchannel) (rc : Vchannel) (back : List Vchannel)
      (found : find_channel c.channels id ≡ some (front, rc, back)) where
    -- A message in one chunk goes up as it is.
    pub process_single :
        has flags channel_flag_first ≡ true
        → has flags channel_flag_last ≡ true
        → channel_process c (of_bytes (chunk_bytes total flags part)) id
          ≡ some (c, record { mcs_id = rc.mcs_id; bytes = part } ∷ [])
    unfolding channel_process chunk
    process_single a b =
        rw (found, channel_process, header_read.0, header_read.1, a, b, content-body)

    pub process_first :
        has flags channel_flag_first ≡ true
        → has flags channel_flag_last ≡ false
        → length part ≤ length (restart rc.input total).buf
        → channel_process c (of_bytes (chunk_bytes total flags part)) id
          ≡ some (with_input c front rc back (wrote (restart rc.input total) part), [])
    unfolding channel_process chunk add_fragment
    process_first a b room =
        rw (found, channel_process, header_read.0, header_read.1, a, b)
          (rw (copy_fragment_room (restart rc.input total) (omega arith)) refl)

    pub process_middle :
        has flags channel_flag_first ≡ false
        → has flags channel_flag_last ≡ false
        → rc.input.p + length part ≤ length rc.input.buf
        → channel_process c (of_bytes (chunk_bytes total flags part)) id
          ≡ some (with_input c front rc back (wrote rc.input part), [])
    unfolding channel_process chunk add_fragment
    process_middle a b room =
        rw (found, channel_process, header_read.0, header_read.1, a, b)
          (rw (copy_fragment_room rc.input room) refl)

    pub process_last :
        has flags channel_flag_first ≡ false
        → has flags channel_flag_last ≡ true
        → rc.input.p + length part ≤ length rc.input.buf
        → channel_process c (of_bytes (chunk_bytes total flags part)) id
          ≡ some (
            with_input c front rc back
                (record (wrote rc.input part) { end = rc.input.p + length part; p = 0 }),
            record { mcs_id = rc.mcs_id; bytes = take rc.input.p rc.input.buf ++ part } ∷ [],
          )
    unfolding channel_process chunk add_fragment
    process_last a b room =
        rw (found, channel_process, header_read.0, header_read.1, a, b)
          (rw (copy_fragment_room rc.input room)
            (simp (take-splice_end rc.input.p part rc.input.buf room)))
