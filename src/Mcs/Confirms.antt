-- ===== src/Mcs/Confirms.antt =====
-- How mcs.c reads the server's confirmations.
use app_network_rdesktop.Base.{
  ℕ, ◌+◌, ◌*◌, ◌/◌, ◌%◌, ◌^◌, ◌<◌, ◌≤◌, ◌≡◌, refl, ◌∙◌, Bool, false, true, ltb, List, [], ◌∷◌, ◌++◌,
  Option, some, length, arith, append_assoc, drop, length-append,
}
use app_network_rdesktop.Stream.{Stream, bytes16_be, in_uint8s, s_check}
use app_network_rdesktop.Stream.Unread.{
  At, ahead-At, length-At, in_uint8s-At, in_uint8-At, in_uint8s_one-At, in_uint16_be-At,
  in_uint8s_two-At, s_check_end-At,
}
use app_network_rdesktop.Tcp.State.{Tcp, Reply, done}
use app_network_rdesktop.Tcp.Receiving.{Flows, flat}
use app_network_rdesktop.Asn.{ber_parse_header}
use app_network_rdesktop.Asn.Headers.{header_bytes, ber_parse_header-bytes}
use app_network_rdesktop.Iso.Framing.{data_packet, iso_recv-data_packet}
use app_network_rdesktop.Mcs.{expect}
use app_network_rdesktop.Mcs.Packets.{
  cjcf_pdu, aucf_pdu, response_pdu, mcs_parse_domain_params, skip_int,
}
use app_network_rdesktop.Mcs.Initial.{element}

skip_int-small : (s : Stream) (n : ℕ) → n < 2 ^ 16 → skip_int s n ≡ some (in_uint8s s n)
unfolding skip_int
skip_int-small s n h = let small : ltb n (2 ^ 31) ≡ true = ground (arith, h) in rw small refl

-- A packet is taken in: the value that it is read as, and what comes behind it.
pub record Expected {ℓ} {A : Type ℓ} (a : A) (rest : List ℕ) (t : Tcp) (r : Reply (A × Tcp))
    : Type ℓ where
  pub t' : Tcp
  pub answer : r ≡ done (a, t')
  pub left : flat t'.arrivals ≡ rest
  pub flows : Flows t'.arrivals
  pub same : t' ≡ record t { g_in = t'.g_in; arrivals = t'.arrivals }

-- What comes is a packet, whole or in pieces.
pub record Comes (payload rest : List ℕ) (t : Tcp) : Type 0 where
  pub up : t.g_network_error ≡ false
  pub flows : Flows t.arrivals
  pub bytes : flat t.arrivals ≡ data_packet payload ++ rest
  pub small : length payload + 7 < 2 ^ 16

pub expect-Comes {ℓ} :
    {A : Type ℓ} (absent : A) (read : Stream → Option A) (a : A) (payload rest : List ℕ) (t : Tcp)
    → Comes payload rest t
    → ((s : Stream) → At payload s → read s ≡ some a)
    → Expected a rest t (expect absent read t)
expect-Comes absent read a payload rest t comes reads =
    let got =
      iso_recv-data_packet false payload rest t comes.up comes.flows comes.bytes comes.small in
    rw (got.answer, reads got.s got.at, expect)
      (record { t' = got.t'; answer = refl; left = got.left; flows = got.flows; same = got.same })

-- A channel join confirm, with the user, the channel asked for and the channel joined.
abbrev pub cjcf : ℕ → ℕ → ℕ → List ℕ
cjcf userid asked joined = 62 ∷ 0 ∷ (bytes16_be userid ++ (bytes16_be asked ++ bytes16_be joined))

pub cjcf_pdu-cjcf :
    (userid asked joined : ℕ) (s : Stream)
    → At (cjcf userid asked joined) s
    → cjcf_pdu s ≡ some true
unfolding cjcf_pdu
cjcf_pdu-cjcf userid asked joined s at =
    let result_At = in_uint8s_one-At s _ _ at in
    let ids_At = in_uint8s_one-At (in_uint8s s 1) _ _ result_At in
    let joined_At =
      in_uint8s-At (in_uint8s (in_uint8s s 1) 1) (bytes16_be userid ++ bytes16_be asked)
        (bytes16_be joined) ids_At in
    let end_At =
      in_uint8s-At (in_uint8s (in_uint8s (in_uint8s s 1) 1) 4) (bytes16_be joined) [] joined_At in
    rw
      (
        in_uint8-At s _ _ at,
        in_uint8-At (in_uint8s s 1) _ _ result_At,
        s_check_end-At (in_uint8s (in_uint8s (in_uint8s (in_uint8s s 1) 1) 4) 2) end_At,
      )
      refl

-- An attach user confirm, with the user id.
abbrev pub aucf : ℕ → List ℕ
aucf userid = 46 ∷ 0 ∷ bytes16_be userid

pub aucf_pdu-aucf :
    (before userid : ℕ)
    → userid < 2 ^ 16
    → (s : Stream) → At (aucf userid) s
    → aucf_pdu before s ≡ some (true, userid)
unfolding aucf_pdu
aucf_pdu-aucf before userid h s at =
    let id_At = in_uint8s_one-At (in_uint8s s 1) _ _ (in_uint8s_one-At s _ _ at) in
    let e : userid / 256 % 256 * 256 + userid % 256 ≡ userid = omega arith in
    rw
      (
        in_uint8-At s _ _ at,
        in_uint8-At (in_uint8s s 1) _ _ (in_uint8s_one-At s _ _ at),
        in_uint16_be-At (in_uint8s (in_uint8s s 1) 1) _ _ _ id_At,
        e,
        s_check_end-At (in_uint8s (in_uint8s (in_uint8s s 1) 1) 2)
            (in_uint8s_two-At (in_uint8s (in_uint8s s 1) 1) _ _ _ id_At),
      )
      refl

-- Stepping over the header of an element.
module _ (s : Stream) (tag len before : ℕ) (more : List ℕ) (ht : tag < 2 ^ 16) (hl : len < 2 ^ 16)
    (at : At (header_bytes tag len ++ more) s) where
  pub header_read :
      ber_parse_header s tag before ≡ some (true, len, in_uint8s s (length (header_bytes tag len)))
  header_read =
      ber_parse_header-bytes s tag len before (more ++ drop s.end s.buf) hl ht
        (ahead-At s (header_bytes tag len ++ more) at
          ∙ append_assoc (header_bytes tag len) more (drop s.end s.buf))
        (omega (
          arith,
          length-At s (header_bytes tag len ++ more) at,
          length-append (header_bytes tag len) more,
        ))

  pub header-At : At more (in_uint8s s (length (header_bytes tag len)))
  header-At = in_uint8s-At s (header_bytes tag len) more at

-- The content of a connect response: the result 0, a connect id, domain parameters and the user data.
abbrev pub response_content : List ℕ → List ℕ → List ℕ → List ℕ
response_content id params content =
    element 10 (0 ∷ []) ++ (element 2 id ++ (element 0x30 params ++ element 4 content))

abbrev pub connect_response : List ℕ → List ℕ → List ℕ → List ℕ
connect_response id params content = element 0x7f66 (response_content id params content)

append_At : (xs ys zs : List ℕ) (s : Stream) → At (xs ++ ys ++ zs) s → At (xs ++ (ys ++ zs)) s
append_At xs ys zs s at = record {
  order = at.order;
  inside = at.inside;
  is = at.is ∙ append_assoc xs ys zs;
}

element_length : (tag : ℕ) (c : List ℕ) → length c ≤ length (element tag c)
element_length tag c = omega (arith, length-append (header_bytes tag (length c)) c)

pub element_small : (tag : ℕ) (c : List ℕ) → length (element tag c) + 7 < 2 ^ 16 → length c < 2 ^ 16
element_small tag c h = omega (arith, element_length tag c)

module _ (process : Stream → Option Stream) (id params content : List ℕ)
    (small : length (response_content id params content) < 2 ^ 16)
    (processed : (s : Stream)
      → At content s
      → (s' : Stream) × (process s ≡ some s') × At [] s') where
  sizes : (length id < 2 ^ 16) × (length params < 2 ^ 16) × (length content < 2 ^ 16)
  sizes =
      let a : length (element 2 id) < 2 ^ 16 =
        omega (arith, length-append (element 2 id) (element 0x30 params ++ element 4 content)) in
      let b : length (element 0x30 params) + length (element 4 content) < 2 ^ 16 = omega (
        arith,
        length-append (element 2 id) (element 0x30 params ++ element 4 content),
        length-append (element 0x30 params) (element 4 content),
      ) in
      (
        omega (arith, a, element_length 2 id),
        omega (arith, b, element_length 0x30 params),
        omega (arith, b, element_length 4 content),
      )

  skip : ℕ → List ℕ → Stream → Stream
  skip tag c s = in_uint8s s (length (header_bytes tag (length c)))

  -- The domain parameters are stepped over, whatever they are.
  params_skipped :
      (uninit : ℕ) (s : Stream) (more : List ℕ)
      → At (element 0x30 params ++ more) s
      → (b : Bool) × (s' : Stream) × (mcs_parse_domain_params uninit s ≡ some (b, s')) × At more s'
  unfolding mcs_parse_domain_params skip
  params_skipped uninit s more at =
      let at' = append_At (header_bytes 0x30 (length params)) params more s at in
      (
        s_check (in_uint8s (skip 0x30 params s) (length params)),
        in_uint8s (skip 0x30 params s) (length params),
        rw
            (
              header_read s 0x30 (length params) uninit (params ++ more) (omega arith) sizes.1 at',
              skip_int-small (skip 0x30 params s) (length params) sizes.1,
            )
            refl,
        in_uint8s-At (skip 0x30 params s) params more
            (header-At s 0x30 (length params) uninit (params ++ more) (omega arith) sizes.1 at'),
      )

  -- A connect response that grants the connection is taken in, and the user data is given on.
  pub response_pdu-connect_response :
      (uninit : ℕ × ℕ) (s : Stream)
      → At (connect_response id params content) s
      → response_pdu process uninit s ≡ some true
  unfolding response_pdu skip
  response_pdu-connect_response uninit s at =
      let body = response_content id params content in
      let at_result = header-At s 0x7f66 (length body) uninit.0 body (omega arith) small at in
      let s_1 = in_uint8s s (length (header_bytes 0x7f66 (length body))) in
      let at_zero =
        in_uint8s-At s_1 (header_bytes 10 1)
          (0 ∷ (element 2 id ++ (element 0x30 params ++ element 4 content))) at_result in
      let s_2 = in_uint8s s_1 2 in
      let at_id = in_uint8s_one-At s_2 0 _ at_zero in
      let s_3 = in_uint8s s_2 1 in
      let more = element 0x30 params ++ element 4 content in
      let at_id' = append_At (header_bytes 2 (length id)) id more s_3 at_id in
      let s_4 = skip 2 id s_3 in
      let at_value = header-At s_3 2 (length id) 0 (id ++ more) (omega arith) sizes.0 at_id' in
      let at_params = in_uint8s-At s_4 id more at_value in
      let (b, s_5, parsed, at_user) =
        params_skipped uninit.1 (in_uint8s s_4 (length id)) (element 4 content) at_params in
      let at_content = header-At s_5 4 (length content) 0 content (omega arith) sizes.2 at_user in
      let (s_6, ended, at_end) = processed (skip 4 content s_5) at_content in
      rw
        (
          header_read s 0x7f66 (length body) uninit.0 body (omega arith) small at,
          header_read s_1 10 1 (length body) (0 ∷ (element 2 id ++ more)) (omega arith)
              (omega arith) at_result,
          in_uint8-At s_2 0 _ at_zero,
          header_read s_3 2 (length id) 1 (id ++ more) (omega arith) sizes.0 at_id',
          skip_int-small s_4 (length id) sizes.0,
          parsed,
          header_read s_5 4 (length content) (length id) content (omega arith) sizes.2 at_user,
          ended,
          s_check_end-At s_6 at_end,
        )
        refl
