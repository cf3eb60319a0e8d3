-- ===== src/Iso/Messages.antt =====
-- The messages that iso_send_msg and iso_send_connection_request send, byte for byte.
use app_network_rdesktop.Base.{
  ℕ, ◌+◌, ◌-◌, ◌%◌, ◌≤◌, ◌≡◌, refl, ap, sym, ◌∙◌, Bool, true, false, List, [], ◌∷◌, ◌++◌, Option,
  some, length, arith, length-append, append_assoc, append-nil, none, ◌>>=◌, if◌then◌else◌,
}
use app_network_rdesktop.Stream.{Stream, out_bytes, s_mark_end, bytes32_le, bytes16_be}
use app_network_rdesktop.Stream.Splice.{length-splice, take-splice_end}
use app_network_rdesktop.Stream.Writing.{wrote, out_all_lem, out_bytes_fits, out_bytes-then}
use app_network_rdesktop.Tcp.State.{Tcp}
use app_network_rdesktop.Tcp.{tcp_send, tcp_init}
use app_network_rdesktop.Tcp.Receiving.{grown-length}
use app_network_rdesktop.Tcp.Sending.{Takes}
use app_network_rdesktop.Iso.{iso_send_msg}
use app_network_rdesktop.Iso.Packets.{
  msg_pdu, request_pdu, request_front, request_length, cookie, iso_pdu_cr,
}
use app_network_rdesktop.Iso.Connect.{iso_send_connection_request}
use app_network_rdesktop.Iso.Receiving.{tpkt}
use app_network_rdesktop.Iso.Sending.{Posted, tcp_send-Posted}

-- A whole packet in the memory of g_out, written from its start.
module _ (size : ℕ) (bytes : List ℕ) (exact : length bytes ≡ size) (t : Tcp) where
  abbrev whole : Stream
  whole = s_mark_end (wrote (tcp_init size t) bytes)

  enough : 0 + length bytes ≤ length (tcp_init size t).buf
  unfolding tcp_init
  enough = omega (arith, grown-length t.g_out.buf size)

  pub whole_written : out_bytes (tcp_init size t) bytes ≡ some (wrote (tcp_init size t) bytes)
  unfolding tcp_init
  whole_written = out_bytes_fits (tcp_init size t) bytes (let r = enough in r)

  pub whole-Posted :
      t.g_network_error ≡ false
      → Takes t.writes
      → Posted bytes t (tcp_send (s_mark_end (wrote (tcp_init size t) bytes)) t)
  unfolding tcp_init
  whole-Posted e w =
      tcp_send-Posted whole bytes t e
        (let r = enough in omega (arith, length-splice 0 bytes (tcp_init size t).buf r, r))
        (take-splice_end 0 bytes (tcp_init size t).buf (let r = enough in r)) w

-- A message without parameters.
abbrev pub message : ℕ → List ℕ
message code = tpkt (6 ∷ code % 256 ∷ 0 ∷ 0 ∷ 0 ∷ 0 ∷ 0 ∷ [])

msg_written : (s : Stream) (code : ℕ) → msg_pdu s code ≡ out_bytes s (message code)
unfolding msg_pdu
msg_written s code =
    out_all_lem
      ((0 ∷ [])
        ∷ (0 ∷ 11 ∷ [])
        ∷ (6 ∷ [])
        ∷ (code % 256 ∷ [])
        ∷ (0 ∷ 0 ∷ [])
        ∷ (0 ∷ 0 ∷ [])
        ∷ (0 ∷ [])
        ∷ [])
      s (3 ∷ [])

pub iso_send_msg_lem :
    (code : ℕ) (t : Tcp)
    → t.g_network_error ≡ false
    → Takes t.writes
    → Posted (message code) t (iso_send_msg code t)
unfolding iso_send_msg
iso_send_msg_lem code t e w =
    rw (msg_written (tcp_init 11 t) code, whole_written 11 (message code) refl t)
      (whole-Posted 11 (message code) refl t e w)

-- The request for TLS that may follow the cookie.
abbrev pub offer : Bool → ℕ → List ℕ
offer negotiate neg_proto = if negotiate then 1 ∷ 0 ∷ 8 ∷ 0 ∷ bytes32_le neg_proto else []

abbrev pub request_body : Bool → List ℕ → ℕ → List ℕ
request_body negotiate username neg_proto =
    (request_length negotiate username - 5) % 256
    ∷ iso_pdu_cr
    ∷ 0
    ∷ 0
    ∷ 0
    ∷ 0
    ∷ 0
    ∷ (cookie ++ (username ++ (0x0d ∷ 0x0a ∷ offer negotiate neg_proto)))

-- A connection request.
abbrev pub request : Bool → List ℕ → ℕ → List ℕ
request negotiate username neg_proto = tpkt (request_body negotiate username neg_proto)

length-request_body :
    (negotiate : Bool) (username : List ℕ) (neg_proto : ℕ)
    → length (request_body negotiate username neg_proto) + 4 ≡ request_length negotiate username
unfolding request_length
length-request_body true username neg_proto =
    omega (arith, length-append username (0x0d ∷ 0x0a ∷ offer true neg_proto))
length-request_body false username neg_proto =
    omega (arith, length-append username (0x0d ∷ 0x0a ∷ offer false neg_proto))

abbrev front : Bool → List ℕ → List ℕ
front negotiate username =
    let n = request_length negotiate username in
    3
    ∷ 0
    ∷ (bytes16_be n
        ++ ((n - 5) % 256
            ∷ 0xe0
            ∷ 0
            ∷ 0
            ∷ 0
            ∷ 0
            ∷ 0
            ∷ (cookie ++ (username ++ (0x0d ∷ 0x0a ∷ [])))))

front_written :
    (s : Stream) (negotiate : Bool) (username : List ℕ)
    → request_front s negotiate username ≡ out_bytes s (front negotiate username)
unfolding request_front
front_written s negotiate username =
    let n = request_length negotiate username in
    out_all_lem
      ((0 ∷ [])
        ∷ bytes16_be n
        ∷ ((n - 5) % 256 ∷ [])
        ∷ (0xe0 ∷ [])
        ∷ (0 ∷ 0 ∷ [])
        ∷ (0 ∷ 0 ∷ [])
        ∷ (0 ∷ [])
        ∷ cookie
        ∷ username
        ∷ (0x0d ∷ [])
        ∷ (0x0a ∷ [])
        ∷ [])
      s (3 ∷ [])

front-offer :
    (negotiate : Bool) (username : List ℕ) (neg_proto : ℕ)
    → front negotiate username ++ offer negotiate neg_proto ≡ request negotiate username neg_proto
front-offer negotiate username neg_proto =
    ap
      (λ xs.
        3
        ∷ 0
        ∷ (bytes16_be (request_length negotiate username)
            ++ ((request_length negotiate username - 5) % 256
                ∷ 0xe0
                ∷ 0
                ∷ 0
                ∷ 0
                ∷ 0
                ∷ 0
                ∷ (cookie ++ xs))))
      (append_assoc username (0x0d ∷ 0x0a ∷ []) (offer negotiate neg_proto))
    ∙ ap (λ m. 3 ∷ 0 ∷ (bytes16_be m ++ request_body negotiate username neg_proto))
        (sym (length-request_body negotiate username neg_proto))

then_some : (m : Option Stream) → (m >>= λ s. some s) ≡ m
then_some none = refl
then_some (some s) = refl

request_written :
    (s : Stream) (negotiate : Bool) (username : List ℕ) (neg_proto : ℕ)
    → request_pdu s negotiate username neg_proto
      ≡ out_bytes s (front negotiate username ++ offer negotiate neg_proto)
unfolding request_pdu
request_written s true username neg_proto =
    out_bytes-then s _ _ (front_written s true username)
      λ s. out_all_lem ((0 ∷ []) ∷ (8 ∷ 0 ∷ []) ∷ bytes32_le neg_proto ∷ []) s (1 ∷ [])
request_written s false username neg_proto =
    then_some (request_front s false username)
    ∙ front_written s false username
    ∙ ap (out_bytes s) (sym (append-nil (front false username)))

pub iso_send_connection_request_lem :
    (negotiate : Bool) (username : List ℕ) (neg_proto : ℕ) (t : Tcp)
    → t.g_network_error ≡ false
    → Takes t.writes
    → Posted
        (request negotiate username neg_proto)
        t
        (iso_send_connection_request negotiate username neg_proto t)
unfolding iso_send_connection_request
iso_send_connection_request_lem negotiate username neg_proto t e w =
    let n = request_length negotiate username in
    let bytes = request negotiate username neg_proto in
    let exact : length bytes ≡ n =
      omega (arith, length-request_body negotiate username neg_proto) in
    rw
      (
        request_written (tcp_init n t) negotiate username neg_proto,
        front-offer negotiate username neg_proto,
        whole_written n bytes exact t,
      )
      (whole-Posted n bytes exact t e w)
