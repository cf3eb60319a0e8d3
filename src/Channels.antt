-- ===== src/Channels.antt =====
-- channels.c: static virtual channels, cut into chunks on the way out and put together on the way in.
-- `process` of a channel is a callback; the model lists the calls with the bytes that they are given.
pub mod Runs
pub mod Segment
pub mod Sending
pub mod Receiving
pub mod RoundTrip
use app_network_rdesktop.Base.{
  ℕ, zero, suc, ◌+◌, ◌-◌, ◌*◌, ◌/◌, ◌%◌, ◌^◌, min, Bool, true, false, ltb, leb, ◌==◌, has, ◌&&◌,
  if◌then◌else◌, List, [], ◌∷◌, ◌++◌, Option, none, some, ◌>>=◌, length, take, drop, replicate,
}
use app_network_rdesktop.Stream.{
  Stream, of_bytes, s_mark_end, in_uint32_le, in_uint8a, out_bytes, out_uint32_le, out_uint8p,
}

abbrev pub max_channels : ℕ
max_channels = 6

abbrev pub channel_chunk_length : ℕ
channel_chunk_length = 1600

abbrev pub channel_flag_first : ℕ
channel_flag_first = 0x01

abbrev pub channel_flag_last : ℕ
channel_flag_last = 0x02

abbrev pub channel_flag_show_protocol : ℕ
channel_flag_show_protocol = 0x10

abbrev pub channel_option_show_protocol : ℕ
channel_option_show_protocol = 0x00200000

abbrev pub mcs_global_channel : ℕ
mcs_global_channel = 1003

abbrev pub sec_encrypt : ℕ
sec_encrypt = 8

-- VCHANNEL. `input` is the reassembly stream `in`.
pub record Vchannel : Type 0 where
  pub mcs_id : ℕ
  pub name : List ℕ
  pub flags : ℕ
  pub input : Stream

-- g_channels up to g_num_channels, g_rdp_version >= RDP_V5, and g_encryption.
pub record Channels : Type 0 where
  pub channels : List Vchannel
  pub rdp_v5 : Bool
  pub encryption : Bool

-- `strncpy(channel->name, name, 8)`: cut at 8, padded with zeros.
abbrev pub strncpy_eight : List ℕ → List ℕ
strncpy_eight name = take 8 (name ++ replicate 8 0)

-- The new table and whether a channel was returned. The reassembly stream of a table entry is
-- static memory, empty at first.
unfoldable pub channel_register : Channels → List ℕ → ℕ → Channels × Bool
channel_register c name flags =
    if leb max_channels (length c.channels)
    then (c, false)
    else if c.rdp_v5
    then (
      record c {
        channels =
            c.channels
            ++ (record {
              mcs_id = mcs_global_channel + 1 + length c.channels;
              name = strncpy_eight name;
              flags = flags;
              input = of_bytes [];
            }
                ∷ []);
      },
      true,
    )
    else (c, false)

-- What is handed to the secure layer by `sec_send_to_channel`.
pub record Packet : Type 0 where
  pub sec_flags : ℕ
  pub channel : ℕ
  pub bytes : List ℕ

-- The secure layer sends `start` up to `s->end` and writes its headers and its cipher text over the
-- memory in front of `end`. `scramble` is what it leaves there.
module _ (scramble : List ℕ → List ℕ) where
  pub sec_send_to_channel : Stream → ℕ → ℕ → ℕ → Packet × List ℕ
  sec_send_to_channel s start sec_flags channel = (
    record { sec_flags = sec_flags; channel = channel; bytes = drop start (take s.end s.buf) },
    scramble (take s.end s.buf) ++ drop s.end s.buf,
  )

abbrev pub send_flags : Bool → ℕ
send_flags encryption = if encryption then sec_encrypt else 0

-- CHANNEL_FLAG_SHOW_PROTOCOL is or-ed to flags that do not have it.
abbrev pub show_protocol : Vchannel → ℕ
show_protocol ch =
    if has ch.flags channel_option_show_protocol then channel_flag_show_protocol else 0

module _ (scramble : List ℕ → List ℕ) (encryption : Bool) (ch : Vchannel) where
  -- One round of the loop over the segments behind the first. There is one output buffer
  -- (STREAM_COUNT is 1), so `sec_init` starts again in the buffer that `from` points into, and
  -- `start` is the place behind the headers, as it was for the first fragment.
  unfoldable pub send_segment : Stream → ℕ → ℕ → ℕ → ℕ → ℕ → Option (Packet × Stream)
  unfolding sec_send_to_channel
  send_segment s total start from thislength remaining = do
    let flags = (if remaining == 0 then channel_flag_last else 0) + show_protocol ch
    s ← out_uint32_le (record s { p = start }) total
    s ← out_uint32_le s flags
    s ← out_uint8p s (take thislength (drop from s.buf))
    let s = s_mark_end s
    let sent = sec_send_to_channel scramble s start (send_flags encryption) ch.mcs_id
    some (sent.0, record s { buf = sent.1 })

  -- `while (remaining > 0)`. Each round sends a byte at least, so `remaining` rounds are enough.
  unfoldable pub send_segments : ℕ → Stream → ℕ → ℕ → ℕ → ℕ → Option (List Packet × Stream)
  send_segments zero s total start from remaining = some ([], s)
  send_segments (suc fuel) s total start from remaining = elim (remaining == 0) [
    | true ↦ some ([], s)
    | false ↦ do
      let thislength = min remaining channel_chunk_length
      (packet, s) ← send_segment s total start from thislength (remaining - thislength)
      (rest, s) ← send_segments fuel s total start (from + thislength) (remaining - thislength)
      some (packet ∷ rest, s)
  ]

  unfoldable pub channel_send : Stream → Option (List Packet × Stream)
  unfolding sec_send_to_channel
  channel_send s = do
    let start = s.channel_hdr
    let total = (s.end + 2 ^ 32 - (start + 8)) % 2 ^ 32
    let thislength = min total channel_chunk_length
    let remaining = total - thislength
    let flags =
        (if remaining == 0 then channel_flag_first + channel_flag_last else channel_flag_first)
        + show_protocol ch
    s ← out_uint32_le (record s { p = start }) total
    s ← out_uint32_le s flags
    let from = s.p + thislength
    let s = record s { end = from }
    let sent = sec_send_to_channel scramble s start (send_flags encryption) ch.mcs_id
    (rest, s) ← send_segments remaining (record s { buf = sent.1 }) total start from remaining
    some (sent.0 ∷ rest, s)

-- `for (i = 0; ...) if (channel->mcs_id == mcs_channel) break;`: the first such channel, with the
-- channels around it.
abbrev pub find_channel : List Vchannel → ℕ → Option (List Vchannel × Vchannel × List Vchannel)
find_channel [] id = none
find_channel (ch ∷ chs) id =
    if ch.mcs_id == id
    then some ([], ch, chs)
    else (do (front, c, back) ← find_channel chs id; some (ch ∷ front, c, back))

-- A call of `channel->process` with the bytes between `p` and `end`.
pub record Call : Type 0 where
  pub mcs_id : ℕ
  pub bytes : List ℕ

abbrev pub content : Stream → List ℕ
content s = drop s.p (take s.end s.buf)

-- `xrealloc` to the message's length where the buffer is smaller; the bytes that it adds are taken
-- to be 0. Then `in->p = in->data`.
abbrev pub restart : Stream → ℕ → Stream
restart input length' = record input {
  buf =
      if ltb (length input.buf) length'
      then input.buf ++ replicate (length' - length input.buf) 0
      else input.buf;
  p = 0;
}

-- `thislength = MIN(...); memcpy(in->p, s->p, thislength); in->p += thislength`. A chunk whose `p` is
-- behind its `end` makes `memcpy` run with a negative length, a fault.
unfoldable pub copy_fragment : Stream → Stream → Option Stream
copy_fragment input s = if ltb s.end s.p then none else (do
  (bytes, _) ← in_uint8a s (min (s.end - s.p) (length input.buf - input.p))
  out_bytes input bytes)

-- The reassembly stream after a chunk, and the message, if the chunk was the last.
unfoldable pub add_fragment : Stream → ℕ → ℕ → Stream → Option (Stream × Option (List ℕ))
add_fragment input length' flags s = do
  input ← copy_fragment (if has flags channel_flag_first then restart input length' else input) s
  let whole = record input { end = input.p; p = 0 }
  some (if has flags channel_flag_last then (whole, some (content whole)) else (input, none))

unfoldable pub channel_process : Channels → Stream → ℕ → Option (Channels × List Call)
channel_process c s mcs_channel = elim (find_channel c.channels mcs_channel) [
  | none ↦ some (c, [])
  | some (front, ch, back) ↦ do
    (length', s) ← in_uint32_le s
    (flags, s) ← in_uint32_le s
    if has flags channel_flag_first && has flags channel_flag_last
        then some (c, record { mcs_id = ch.mcs_id; bytes = content s } ∷ [])
        else (do
          (input, done) ← add_fragment ch.input length' flags s
          some (
            record c { channels = front ++ (record ch { input = input } ∷ back) },
            elim done [
              | none ↦ []
              | some bytes ↦ record { mcs_id = ch.mcs_id; bytes = bytes } ∷ []
            ],
          ))
]
