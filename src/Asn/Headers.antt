-- ===== src/Asn/Headers.antt =====
-- The BER headers that asn.c writes, as bytes, and what it reads back.
use app_network_rdesktop.Base.{
  ℕ, ◌+◌, ◌/◌, ◌%◌, ◌^◌, ◌≤◌, ◌<◌, ◌≡◌, true, ltb, leb, if◌then◌else◌, List, [], ◌∷◌, ◌++◌, some,
  arith, length, inl, inr, Bool-cases,
}
use app_network_rdesktop.Stream.{Stream, out_bytes, bytes16_be, in_uint8s}
use app_network_rdesktop.Stream.Reading.{
  ahead, in_uint8_ahead, in_uint16_be_ahead, ahead-in_uint8s, ahead-in_uint8s_two, next_be_ahead,
}
use app_network_rdesktop.Stream.Writing.{out_bytes-append}
use app_network_rdesktop.Asn.{ber_out_header, ber_parse_header, ber_parse_length, next_be_times}

abbrev pub tag_bytes : ℕ → List ℕ
tag_bytes tag = if ltb 0xff tag then bytes16_be tag else (tag % 256 ∷ [])

abbrev pub length_bytes : ℕ → List ℕ
length_bytes len = if leb 0x80 len then 0x82 ∷ bytes16_be len else (len % 256 ∷ [])

abbrev pub header_bytes : ℕ → ℕ → List ℕ
header_bytes tag len = tag_bytes tag ++ length_bytes len

-- A header is written as one run of bytes.
pub ber_out_header-bytes :
    (s : Stream) (tag len : ℕ) → ber_out_header s tag len ≡ out_bytes s (header_bytes tag len)
unfolding ber_out_header
ber_out_header-bytes s tag len = elim (Bool-cases (ltb 0xff tag)) [
  | inl e ↦ elim (Bool-cases (leb 0x80 len)) [
    | inl d ↦ rw (e, d) (simp out_bytes-append)
    | inr d ↦ rw (e, d) (simp out_bytes-append)
  ]
  | inr e ↦ elim (Bool-cases (leb 0x80 len)) [
    | inl d ↦ rw (e, d) (simp out_bytes-append)
    | inr d ↦ rw (e, d) (simp out_bytes-append)
  ]
]

module _ (s : Stream) (len : ℕ) (rest : List ℕ) where
  ber_parse_length-short :
      len < 128
      → ahead s ≡ len ∷ rest
      → s.p + 1 ≤ s.end
      → ber_parse_length s ≡ some (true, len, in_uint8s s 1)
  unfolding ber_parse_length
  ber_parse_length-short h a fits = ground (arith, in_uint8_ahead s len a)

  ber_parse_length-long :
      len < 2 ^ 16
      → ahead s ≡ 0x82 ∷ len / 256 % 256 ∷ len % 256 ∷ rest
      → s.p + 3 ≤ s.end
      → ber_parse_length s ≡ some (true, len, in_uint8s s 3)
  unfolding ber_parse_length next_be_times
  ber_parse_length-long h a fits =
      let a' = ahead-in_uint8s s 0x82 a in
      let a'' = ahead-in_uint8s (in_uint8s s 1) (len / 256 % 256) a' in
      ground (
        arith,
        in_uint8_ahead s 0x82 a,
        next_be_ahead (in_uint8s s 1) (len / 256 % 256) a' 0,
        next_be_ahead (in_uint8s (in_uint8s s 1) 1) (len % 256) a'' (len / 256 % 256),
      )

  ber_parse_length-bytes :
      len < 2 ^ 16
      → ahead s ≡ length_bytes len ++ rest
      → s.p + length (length_bytes len) ≤ s.end
      → ber_parse_length s ≡ some (true, len, in_uint8s s (length (length_bytes len)))
  ber_parse_length-bytes h a fits = elim (Bool-cases (leb 0x80 len)) [
    | inl d ↦ rw d (ber_parse_length-long h (rw d at a) (rw d at fits))
    | inr d ↦ rw d (ground (arith, ber_parse_length-short))
  ]

module _ (s : Stream) (tag len l : ℕ) (rest : List ℕ) (hl : len < 2 ^ 16) where
  ber_parse_header-short :
      tag ≤ 255
      → ahead s ≡ tag ∷ (length_bytes len ++ rest)
      → s.p + (length (length_bytes len) + 1) ≤ s.end
      → ber_parse_header s tag l ≡ some (true, len, in_uint8s s (length (length_bytes len) + 1))
  unfolding ber_parse_header
  ber_parse_header-short ht a fits = ground (
    arith,
    in_uint8_ahead s tag a,
    ber_parse_length-bytes (in_uint8s s 1) len rest hl (ahead-in_uint8s s tag a),
  )

  ber_parse_header-long :
      255 < tag
      → tag < 2 ^ 16
      → ahead s ≡ tag / 256 % 256 ∷ tag % 256 ∷ (length_bytes len ++ rest)
      → s.p + (length (length_bytes len) + 2) ≤ s.end
      → ber_parse_header s tag l ≡ some (true, len, in_uint8s s (length (length_bytes len) + 2))
  unfolding ber_parse_header
  ber_parse_header-long h ht a fits = ground (
    arith,
    in_uint16_be_ahead s (tag / 256 % 256) (tag % 256) a,
    ber_parse_length-bytes (in_uint8s s 2) len rest hl
        (ahead-in_uint8s_two s (tag / 256 % 256) (tag % 256) a),
  )

  -- The bytes of a header are read back.
  pub ber_parse_header-bytes :
      tag < 2 ^ 16
      → ahead s ≡ header_bytes tag len ++ rest
      → s.p + length (header_bytes tag len) ≤ s.end
      → ber_parse_header s tag l ≡ some (true, len, in_uint8s s (length (header_bytes tag len)))
  ber_parse_header-bytes ht a fits = elim (Bool-cases (ltb 0xff tag)) [
    | inl e ↦ rw e (ground (arith, ber_parse_header-long))
    | inr e ↦ ground (arith, ber_parse_header-short)
  ]
