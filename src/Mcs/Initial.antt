-- ===== src/Mcs/Initial.antt =====
-- The connect-initial message: the lengths that mcs.c announces are those of what it writes.
use app_network_rdesktop.Base.{
  ℕ, ◌+◌, ◌^◌, ◌<◌, ◌≤◌, ◌≡◌, refl, ap, sym, ◌∙◌, false, true, List, [], ◌∷◌, ◌++◌, length, take,
  arith, leb, ltb, leb-true, le→ltb,
}
use app_network_rdesktop.Stream.{Stream, out_bytes, bytes16_be}
use app_network_rdesktop.Stream.Writing.{out_bytes-then}
use app_network_rdesktop.Tcp.State.{Tcp}
use app_network_rdesktop.Tcp.Sending.{Takes}
use app_network_rdesktop.Iso.Framing.{data_packet}
use app_network_rdesktop.Iso.Sending.{Posted}
use app_network_rdesktop.Asn.{ber_out_integer}
use app_network_rdesktop.Asn.Headers.{header_bytes, ber_out_header-bytes}
use app_network_rdesktop.Mcs.{user_data, mcs_send_connect_initial}
use app_network_rdesktop.Mcs.Packets.{initial_pdu, initial_length, mcs_out_domain_params}
use app_network_rdesktop.Mcs.Sending.{send_pdu_lem}

-- A BER element: tag, length and content.
abbrev pub element : ℕ → List ℕ → List ℕ
element tag content = header_bytes tag (length content) ++ content

abbrev pub integer : ℕ → List ℕ
integer v = element 2 (bytes16_be v)

abbrev pub domain_params : ℕ → ℕ → ℕ → ℕ → List ℕ
domain_params channels users tokens pdusize = element 0x30 (
    integer channels
    ++ (integer users
        ++ (integer tokens
            ++ (integer 1 ++ (integer 0 ++ (integer 1 ++ (integer pdusize ++ integer 2)))))))

-- The message with the user data.
abbrev pub connect_initial : List ℕ → List ℕ
connect_initial content = element 0x7f65 (
    element 4 (1 ∷ [])
    ++ (element 4 (1 ∷ [])
        ++ (element 1 (0xff ∷ [])
            ++ (domain_params 34 2 0 0xffff
                ++ (domain_params 1 1 1 0x420
                    ++ (domain_params 0xffff 0xfc17 0xffff 0xffff ++ element 4 content))))))

integer_written : (s : Stream) (v : ℕ) → ber_out_integer s v ≡ out_bytes s (integer v)
unfolding ber_out_integer
integer_written s v = out_bytes-then s _ _ (ber_out_header-bytes s 2 2) (λ t. refl)

domain_params_written :
    (s : Stream) (a b c d : ℕ)
    → mcs_out_domain_params s a b c d ≡ out_bytes s (domain_params a b c d)
unfolding mcs_out_domain_params
domain_params_written s a b c d = out_bytes-then s _ _ (ber_out_header-bytes s 0x30 32) λ s.
    out_bytes-then s _ _ (integer_written s a) λ s. out_bytes-then s _ _ (integer_written s b) λ s.
      out_bytes-then s _ _ (integer_written s c) λ s.
        out_bytes-then s _ _ (integer_written s 1) λ s.
          out_bytes-then s _ _ (integer_written s 0) λ s.
            out_bytes-then s _ _ (integer_written s 1)
              λ s. out_bytes-then s _ _ (integer_written s d) λ s. integer_written s 2

long_element :
    (tag : ℕ) (b : List ℕ)
    → leb 0x80 (length b) ≡ true
    → ltb 0xff tag ≡ true
    → length (element tag b) ≡ length b + 5
long_element tag b h k = rw (h, k) (omega arith)

module _ (content : List ℕ) (long : 128 ≤ length content) where
  body : List ℕ
  body =
      element 4 (1 ∷ [])
      ++ (element 4 (1 ∷ [])
          ++ (element 1 (0xff ∷ [])
              ++ (domain_params 34 2 0 0xffff
                  ++ (domain_params 1 1 1 0x420
                      ++ (domain_params 0xffff 0xfc17 0xffff 0xffff ++ element 4 content)))))

  length-body : length body ≡ initial_length (length content)
  unfolding body initial_length
  length-body = rw (leb-true 128 (length content) long) (omega arith)

  body_long : 128 ≤ length body
  unfolding initial_length
  body_long = omega (arith, length-body, long)

  initial_written : (s : Stream) → initial_pdu s content ≡ out_bytes s (connect_initial content)
  unfolding initial_pdu body
  initial_written s =
      (out_bytes-then s _ _ (ber_out_header-bytes s 0x7f65 (initial_length (length content))) λ s.
        out_bytes-then s _ _ (ber_out_header-bytes s 4 1) λ s. out_bytes-then s (1 ∷ []) _ refl λ s.
          out_bytes-then s _ _ (ber_out_header-bytes s 4 1) λ s.
            out_bytes-then s (1 ∷ []) _ refl λ s.
              out_bytes-then s _ _ (ber_out_header-bytes s 1 1) λ s.
                out_bytes-then s (0xff ∷ []) _ refl λ s.
                  out_bytes-then s _ _ (domain_params_written s 34 2 0 0xffff) λ s.
                    out_bytes-then s _ _ (domain_params_written s 1 1 1 0x420) λ s.
                      out_bytes-then s _ _ (domain_params_written s 0xffff 0xfc17 0xffff 0xffff)
                        λ s.
                          out_bytes-then s _ content (ber_out_header-bytes s 4 (length content))
                            λ s. refl)
      ∙ ap (λ n. out_bytes s (header_bytes 0x7f65 n ++ body)) (sym (let e = length-body in e))

  length-connect_initial : length (connect_initial content) ≡ initial_length (length content) + 5
  unfolding body
  length-connect_initial =
      long_element 0x7f65 body (leb-true 128 (length body) (let e = body_long in e)) refl
      ∙ ap (λ n. n + 5) (let e = length-body in e)

  -- User data of at least 128 bytes, and few enough that the packet's length fits into 16 bits, is sent
  -- over a socket that takes it as one data packet: a connect-initial message whose elements announce the
  -- lengths of their contents, with the three sets of domain parameters and the user data in it.
  pub mcs_send_connect_initial_lem :
      (s : Stream) (t : Tcp)
      → s.end ≤ length s.buf
      → take s.end s.buf ≡ content
      → length content + 127 < 2 ^ 16
      → t.g_network_error ≡ false
      → Takes t.writes
      → Posted (data_packet (connect_initial content)) t (mcs_send_connect_initial s t)
  unfolding mcs_send_connect_initial user_data initial_length
  mcs_send_connect_initial_lem s t inside h small e w =
      rw (le→ltb (length s.buf) s.end inside, h)
        (send_pdu_lem (initial_length (length content) + 5) (λ s. initial_pdu s content)
          (connect_initial content) (let f = initial_written in f)
          (let f = length-connect_initial in f) (omega arith) t e w)
