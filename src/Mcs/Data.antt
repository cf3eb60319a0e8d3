-- ===== src/Mcs/Data.antt =====
-- Data on an MCS channel: what mcs_send_to_channel sends, and what mcs_recv returns.
use app_network_rdesktop.Base.{
  ℕ, ◌+◌, ◌*◌, ◌/◌, ◌%◌, ◌^◌, ◌<◌, ◌≤◌, ◌≡◌, refl, ap, ◌∙◌, Bool, false, ltb, if◌then◌else◌, List,
  [], ◌∷◌, ◌++◌, some, length, arith, Bool-cases, inl, inr, ltb→lt,
}
use app_network_rdesktop.Stream.{Stream, bytes16_be, in_uint8s, in_uint16_be}
use app_network_rdesktop.Stream.Unread.{
  At, in_uint8-At, in_uint8s_one-At, in_uint8s_two-At, in_uint16_be-At,
}
use app_network_rdesktop.Tcp.State.{Tcp, Reply, done}
use app_network_rdesktop.Tcp.Receiving.{Flows, flat}
use app_network_rdesktop.Iso.Framing.{data_packet, iso_recv-data_packet, and_false}
use app_network_rdesktop.Mcs.{mcs_recv}
use app_network_rdesktop.Mcs.Packets.{sdin_pdu}

-- A length below 2^15 in the form of PER: one byte, or two of which the first has its top bit set.
abbrev pub per_length : ℕ → List ℕ
per_length n = if ltb n 128 then (n ∷ []) else ((128 + n / 256) ∷ n % 256 ∷ [])

-- A data indication: the byte of the opcode, whose low bits `low` are not looked at, the sender, the
-- channel, flags, and the data behind its length.
abbrev pub sdin : ℕ → ℕ → ℕ → ℕ → ℕ → List ℕ → List ℕ
sdin low u v channel flags content =
    (104 + low) ∷ u ∷ v ∷ (bytes16_be channel ++ (flags ∷ (per_length (length content) ++ content)))

length-sdin :
    (low u v channel flags : ℕ) (content : List ℕ)
    → length (sdin low u v channel flags content) ≤ 9 + length content
length-sdin low u v channel flags content = ground arith

module _ (s : Stream) (low u v channel flags : ℕ) (content : List ℕ) (h : low < 4)
    (k : channel < 2 ^ 16) (small : length content < 2 ^ 15)
    (at : At (sdin low u v channel flags content) s) where
  abbrev at_channel : Stream
  at_channel = in_uint8s (in_uint8s s 1) 2

  abbrev at_length : Stream
  at_length = in_uint8s (in_uint8s at_channel 2) 1

  sized : List ℕ
  sized = per_length (length content) ++ content

  user_At : At (u ∷ v ∷ (bytes16_be channel ++ (flags ∷ sized))) (in_uint8s s 1)
  unfolding sized
  user_At = in_uint8s_one-At s _ _ at

  channel_At : At (bytes16_be channel ++ (flags ∷ sized)) at_channel
  channel_At = in_uint8s_two-At (in_uint8s s 1) u v _ user_At

  channel_read : in_uint16_be at_channel ≡ some (channel, in_uint8s at_channel 2)
  channel_read =
      in_uint16_be-At at_channel (channel / 256 % 256) (channel % 256) _ channel_At
      ∙ ap (λ c. some (c, in_uint8s at_channel 2))
          (let e : channel / 256 % 256 * 256 + channel % 256 ≡ channel = omega arith in e)

  length_At : At sized at_length
  length_At =
      in_uint8s_one-At (in_uint8s at_channel 2) flags _
        (in_uint8s_two-At at_channel _ _ _ channel_At)

  -- The header of a data indication is taken off.
  pub sdin_pdu_lem : (s' : Stream) × (sdin_pdu s ≡ some (some (channel, s'))) × At content s'
  unfolding sdin_pdu sized
  sdin_pdu_lem =
      let opcode : (104 + low) / 4 ≡ 26 = omega arith in
      elim (Bool-cases (ltb (length content) 128)) [
        | inl e ↦
            let here : At (length content ∷ content) at_length = rw e at length_At in
            let short : length content / 128 % 2 ≡ 0 =
              omega (arith, ltb→lt (length content) 128 e) in
            (
              in_uint8s at_length 1,
              rw (in_uint8-At s _ _ at, opcode, channel_read, in_uint8-At at_length _ _ here, short)
                  refl,
              in_uint8s_one-At at_length _ _ here,
            )
        | inr e ↦
            let here : At ((128 + length content / 256) ∷ length content % 256 ∷ content)
                at_length =
              rw e at length_At in
            let long : (128 + length content / 256) / 128 % 2 ≡ 1 = omega arith in
            (
              in_uint8s (in_uint8s at_length 1) 1,
              rw (in_uint8-At s _ _ at, opcode, channel_read, in_uint8-At at_length _ _ here, long)
                  refl,
              in_uint8s_one-At (in_uint8s at_length 1) _ _ (in_uint8s_one-At at_length _ _ here),
            )
      ]

-- What mcs_recv gives of a data indication.
pub record Indication (channel : ℕ) (content rest : List ℕ) (t : Tcp)
    (r : Reply (ℕ × ℕ × Stream × Tcp)) : Type 0 where
  pub s : Stream
  pub t' : Tcp
  pub answer : r ≡ done (3, channel, s, t')
  pub at : At content s
  pub left : flat t'.arrivals ≡ rest
  pub flows : Flows t'.arrivals
  pub same : t' ≡ record t { g_in = t'.g_in; arrivals = t'.arrivals }

-- When a data indication for a channel comes, of less than 2^15 bytes of data, in whatever pieces and
-- however late, mcs_recv returns the channel and a stream whose unread bytes are the data, and leaves what
-- comes behind the packet. The low bits of the opcode, the sender and the flags do not matter, nor
-- whether the length takes one byte or two.
pub mcs_recv-sdin :
    (want : Bool) (before low u v channel flags : ℕ) (content rest : List ℕ) (t : Tcp)
    → low < 4
    → channel < 2 ^ 16
    → length content < 2 ^ 15
    → t.g_network_error ≡ false
    → Flows t.arrivals
    → flat t.arrivals ≡ data_packet (sdin low u v channel flags content) ++ rest
    → Indication channel content rest t (mcs_recv want before t)
unfolding mcs_recv
mcs_recv-sdin want before low u v channel flags content rest t h k small e f a =
    let got =
      iso_recv-data_packet want (sdin low u v channel flags content) rest t e f a
        (omega (arith, length-sdin low u v channel flags content)) in
    let (s', read, at) = sdin_pdu_lem got.s low u v channel flags content h k small got.at in
    rw (got.answer, and_false want, read)
      (record {
        s = s';
        t' = got.t';
        answer = refl;
        at = at;
        left = got.left;
        flows = got.flows;
        same = got.same;
      })
