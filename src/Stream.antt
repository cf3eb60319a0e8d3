-- ===== src/Stream.antt =====
-- parse.h: the parser state and its primitives, for the little-endian wire of the client.
-- `buf` is the memory from `data` on (its length is `size`) and the pointers are offsets from `data`.
-- A read or write outside `buf` is a fault; `in_uint8s` and `s_push_layer` only move the pointer.
pub mod Reading
pub mod Writing
pub mod Splice
pub mod Unread
use app_network_rdesktop.Base.{
  ℕ, zero, suc, ◌+◌, ◌-◌, ◌*◌, ◌/◌, ◌%◌, ◌^◌, Bool, leb, ◌==◌, if◌then◌else◌, List, [], ◌∷◌, ◌++◌,
  Option, none, some, ◌>>=◌, length, get_elem?, take, drop, replicate,
}

pub record Stream : Type 0 where
  pub buf : List ℕ
  pub p : ℕ
  pub end : ℕ
  pub iso_hdr : ℕ
  pub mcs_hdr : ℕ
  pub sec_hdr : ℕ
  pub rdp_hdr : ℕ
  pub channel_hdr : ℕ

-- A stream over the given memory, all of it filled.
abbrev pub of_bytes : List ℕ → Stream
of_bytes bs = record {
  buf = bs;
  p = 0;
  end = length bs;
  iso_hdr = 0;
  mcs_hdr = 0;
  sec_hdr = 0;
  rdp_hdr = 0;
  channel_hdr = 0;
}

abbrev pub s_mark_end : Stream → Stream
s_mark_end s = record s { end = s.p }

abbrev pub s_check : Stream → Bool
s_check s = leb s.p s.end

abbrev pub s_check_rem : Stream → ℕ → Bool
s_check_rem s n = leb (s.p + n) s.end

abbrev pub s_check_end : Stream → Bool
s_check_end s = s.p == s.end

abbrev pub in_uint8s : Stream → ℕ → Stream
in_uint8s s n = record s { p = s.p + n }

unfoldable pub in_uint8 : Stream → Option (ℕ × Stream)
in_uint8 s = do v ← get_elem? s.buf s.p; some (v, record s { p = s.p + 1 })

-- `v = (v << 8) + *p++` on a 32-bit variable.
unfoldable pub next_be : Stream → ℕ → Option (ℕ × Stream)
unfolding in_uint8
next_be s v = do (b, s) ← in_uint8 s; some ((v * 256 + b) % 2 ^ 32, s)

unfoldable pub in_uint16_le : Stream → Option (ℕ × Stream)
unfolding in_uint8
in_uint16_le s = do (a, s) ← in_uint8 s; (b, s) ← in_uint8 s; some (a + b * 2 ^ 8, s)

unfoldable pub in_uint32_le : Stream → Option (ℕ × Stream)
unfolding in_uint16_le in_uint8
in_uint32_le s = do
  (v, s) ← in_uint16_le s
  (a, s) ← in_uint8 s
  (b, s) ← in_uint8 s
  some (v + a * 2 ^ 16 + b * 2 ^ 24, s)

unfoldable pub in_uint16_be : Stream → Option (ℕ × Stream)
unfolding in_uint8
in_uint16_be s = do (a, s) ← in_uint8 s; (b, s) ← in_uint8 s; some (a * 2 ^ 8 + b, s)

-- `memcpy(v, p, n); p += n`.
unfoldable pub in_uint8a : Stream → ℕ → Option (List ℕ × Stream)
in_uint8a s n =
    if leb (s.p + n) (length s.buf)
    then some (take n (drop s.p s.buf), record s { p = s.p + n })
    else none

-- The writing primitives store bytes at `p` and step over them.
unfoldable pub out_bytes : Stream → List ℕ → Option Stream
out_bytes s bs =
    if leb (s.p + length bs) (length s.buf)
    then some (record s {
      buf = take s.p s.buf ++ (bs ++ drop (s.p + length bs) s.buf);
      p = s.p + length bs;
    })
    else none

abbrev pub bytes16_le : ℕ → List ℕ
bytes16_le v = v % 256 ∷ v / 256 % 256 ∷ []

abbrev pub bytes16_be : ℕ → List ℕ
bytes16_be v = v / 256 % 256 ∷ v % 256 ∷ []

abbrev pub bytes32_le : ℕ → List ℕ
bytes32_le v = v % 256 ∷ v / 256 % 256 ∷ v / 65536 % 256 ∷ v / 16777216 % 256 ∷ []

abbrev pub out_uint8 : Stream → ℕ → Option Stream
out_uint8 s v = out_bytes s (v % 256 ∷ [])

abbrev pub out_uint16_le : Stream → ℕ → Option Stream
out_uint16_le s v = out_bytes s (bytes16_le v)

abbrev pub out_uint32_le : Stream → ℕ → Option Stream
out_uint32_le s v = out_bytes s (bytes32_le v)

abbrev pub out_uint16_be : Stream → ℕ → Option Stream
out_uint16_be s v = out_bytes s (bytes16_be v)

abbrev pub out_uint8p : Stream → List ℕ → Option Stream
out_uint8p s bs = out_bytes s bs

abbrev pub out_uint8s : Stream → ℕ → Option Stream
out_uint8s s n = out_bytes s (replicate n 0)
