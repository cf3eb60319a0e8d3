-- ===== src/Iso/Fallback.antt =====
-- iso_connect with a server that does not allow TLS.
use app_network_rdesktop.Base.{
  ℕ, ◌+◌, ◌≤◌, ◌≡◌, refl, ap, sym, subst, ◌∙◌, Bool, true, false, leb, List, [], ◌∷◌, ◌++◌, some,
  length, arith, append_assoc, length-append,
}
use app_network_rdesktop.Stream.{Stream, in_uint8s, s_check_rem}
use app_network_rdesktop.Stream.Reading.{in_uint16_le_ahead, in_uint32_le_ahead}
use app_network_rdesktop.Stream.Unread.{
  At, ahead-At, length-At, in_uint8s-At, in_uint8-At, in_uint8s_one-At, in_uint8s_two-At,
}
use app_network_rdesktop.Tcp.State.{Tcp, Reply, done, refused, waiting, fault}
use app_network_rdesktop.Tcp.{tcp_disconnect}
use app_network_rdesktop.Tcp.Receiving.{Flows, flat}
use app_network_rdesktop.Tcp.Sending.{Takes}
use app_network_rdesktop.Iso.{iso_recv_msg}
use app_network_rdesktop.Iso.Packets.{iso_pdu_cc, in_negotiation}
use app_network_rdesktop.Iso.Receiving.{tpkt, recv_packet_lem}
use app_network_rdesktop.Iso.Messages.{request, iso_send_connection_request_lem}
use app_network_rdesktop.Iso.Connect.{
  Attempt, Connection, Next, returned, retry, protocol_rdp, protocol_ssl, ssl_not_allowed_by_server,
  hang_up, negotiation_failed, negotiated, confirmed, try_connect, retry_loop, iso_connect,
  tcp_connected,
}

-- A connection confirm with five bytes of references and class, and what may follow.
abbrev pub confirm : List ℕ → List ℕ → List ℕ
confirm five extra = tpkt ((6 + length extra) ∷ iso_pdu_cc ∷ (five ++ extra))

-- The negotiation failure SSL_NOT_ALLOWED_BY_SERVER.
abbrev pub not_allowed : List ℕ
not_allowed = 3 ∷ 0 ∷ 8 ∷ 0 ∷ ssl_not_allowed_by_server ∷ 0 ∷ 0 ∷ 0 ∷ []

record Answered (extra rest : List ℕ) (t : Tcp) (r : Reply (ℕ × ℕ × Stream × Tcp)) : Type 0 where
  pub s : Stream
  pub t' : Tcp
  pub answer : r ≡ done (3, iso_pdu_cc, s, t')
  pub at : At extra s
  pub left : flat t'.arrivals ≡ rest
  pub same : t' ≡ record t { g_in = t'.g_in; arrivals = t'.arrivals }

recv_confirm :
    (five extra rest : List ℕ) (t : Tcp)
    → length five ≡ 5
    → length extra ≤ 8
    → t.g_network_error ≡ false
    → Flows t.arrivals
    → flat t.arrivals ≡ confirm five extra ++ rest
    → Answered extra rest t (iso_recv_msg 0 t)
unfolding iso_recv_msg
recv_confirm five extra rest t n small e f h =
    let got =
      recv_packet_lem ((6 + length extra) ∷ iso_pdu_cc ∷ (five ++ extra)) rest t e f h
        (omega (arith, length-append five extra)) in
    let at_code = in_uint8s_one-At got.s (6 + length extra) _ got.at in
    let at_five = in_uint8s_one-At (in_uint8s got.s 1) iso_pdu_cc _ at_code in
    let behind = in_uint8s-At (in_uint8s (in_uint8s got.s 1) 1) five extra at_five in
    rw (got.answer, in_uint8-At (in_uint8s got.s 1) iso_pdu_cc _ at_code)
      (record {
        s = in_uint8s (in_uint8s (in_uint8s got.s 1) 1) 5;
        t' = got.t';
        answer = refl;
        at = subst (λ i. At extra (in_uint8s (in_uint8s (in_uint8s got.s 1) 1) i)) n behind;
        left = got.left;
        same = got.same;
      })

not_allowed_read :
    (s : Stream) → At not_allowed s → in_negotiation s ≡ some (3, ssl_not_allowed_by_server)
unfolding in_negotiation
not_allowed_read s at =
    let at_flags = in_uint8s_one-At s _ _ at in
    let at_length = in_uint8s_one-At (in_uint8s s 1) _ _ at_flags in
    let at_data = in_uint8s_two-At (in_uint8s (in_uint8s s 1) 1) _ _ _ at_length in
    rw
      (
        in_uint8-At s _ _ at,
        in_uint8-At (in_uint8s s 1) _ _ at_flags,
        in_uint16_le_ahead (in_uint8s (in_uint8s s 1) 1) 8 0 (ahead-At _ _ at_length),
        in_uint32_le_ahead (in_uint8s (in_uint8s (in_uint8s s 1) 1) 2) 2 0 0 0
            (ahead-At _ _ at_data),
      )
      refl

rest_of : (s : Stream) (extra : List ℕ) → At extra s → s_check_rem s 8 ≡ leb 8 (length extra)
rest_of s extra at = ground (arith, length-At s extra at)

-- Attempts in which the server answers a connection request.
pub record Answers (a : Attempt) (five extra rest : List ℕ) : Type 0 where
  pub reached : a.reached ≡ true
  pub flows : Flows a.arrivals
  pub takes : Takes a.writes
  pub five_long : length five ≡ 5
  pub bytes : flat a.arrivals ≡ confirm five extra ++ rest

-- The state in which the answer is handled.
record Asked (extra rest bytes : List ℕ) (rdp_v5 : Bool) (a : Attempt) (c : Connection)
    (r : Reply Next) : Type 0 where
  pub s : Stream
  pub t : Tcp
  pub next :
      r ≡ confirmed rdp_v5 a (record c { selected_protocol = protocol_rdp; tcp = t }) iso_pdu_cc s
  pub at : At extra s
  pub left : flat t.arrivals ≡ rest
  pub wire : t.wire ≡ c.tcp.wire ++ bytes
  pub up : t.g_network_error ≡ false

try_connect_lem :
    (username : List ℕ) (a : Attempt) (c : Connection) (five extra rest : List ℕ)
    → Answers a five extra rest
    → length extra ≤ 8
    → c.tcp.g_network_error ≡ false
    → Asked extra rest
        (request c.negotiate username c.neg_proto)
        true
        a
        c
        (try_connect true username a c)
unfolding try_connect tcp_connected
try_connect_lem username a c five extra rest h small e =
    let t = tcp_connected a c.tcp in
    let sent = iso_send_connection_request_lem c.negotiate username c.neg_proto t e h.takes in
    let got =
      recv_confirm five extra rest sent.t' h.five_long small
        (ap (λ t. t.g_network_error) sent.same ∙ e)
        (subst (λ t. Flows t.arrivals) (sym sent.same) h.flows)
        (ap (λ t. flat t.arrivals) sent.same ∙ h.bytes) in
    simp (h.reached, sent.answer)
      (record {
        s = got.s;
        t = got.t';
        next =
            ap
              (λ r. elim r as (λ r. Reply Next) [
                | done (_, code, s, t) ↦
                    confirmed true a (record c { selected_protocol = protocol_rdp; tcp = t }) code s
                | refused t ↦
                    done (returned false (record c { selected_protocol = protocol_rdp; tcp = t }))
                | waiting ↦ waiting
                | fault ↦ fault
              ])
              got.answer;
        at = got.at;
        left = got.left;
        wire = ap (λ t. t.wire) got.same ∙ ap (λ t. t.wire) sent.same;
        up = ap (λ t. t.g_network_error) got.same ∙ ap (λ t. t.g_network_error) sent.same ∙ e;
      })

module _ (rdp_v5 : Bool) (username : List ℕ) (a : Attempt) (attempts : List Attempt)
    (c d : Connection) where
  retry_again :
      try_connect rdp_v5 username a c ≡ done (retry d)
      → retry_loop rdp_v5 username (a ∷ attempts) c ≡ retry_loop rdp_v5 username attempts d
  unfolding retry_loop
  retry_again e = rw (e, retry_loop) refl

  retry_ends :
      (ok : Bool)
      → try_connect rdp_v5 username a c ≡ done (returned ok d)
      → retry_loop rdp_v5 username (a ∷ attempts) c ≡ done (ok, d)
  unfolding retry_loop
  retry_ends ok e = rw (e, retry_loop) refl

-- How it ends.
pub record Reached (rest bytes : List ℕ) (enc : Bool) (t : Tcp) (r : Reply (Bool × Connection))
    : Type 0 where
  pub c : Connection
  pub answer : r ≡ done (true, c)
  pub encryption : c.g_encryption ≡ enc
  pub selected : c.selected_protocol ≡ protocol_rdp
  pub left : flat c.tcp.arrivals ≡ rest
  pub wire : c.tcp.wire ≡ t.wire ++ bytes

-- A server that is reached, confirms the first request with the failure SSL_NOT_ALLOWED_BY_SERVER, and is
-- reached again and confirms the second request without a negotiation response: iso_connect returns True in
-- the second attempt, with plain RDP selected and g_encryption as it was. It has sent the user's name twice,
-- the first time with an offer of TLS and the second time without one.
pub iso_connect-fallback :
    (username : List ℕ) (first second : Attempt) (attempts : List Attempt) (g_encryption : Bool)
    (t : Tcp) (five five' rest rest' : List ℕ)
    → Answers first five not_allowed rest
    → Answers second five' [] rest'
    → t.g_network_error ≡ false
    → Reached rest'
        (request true username protocol_ssl ++ request false username protocol_ssl)
        g_encryption
        t
        (iso_connect true username (first ∷ second ∷ attempts) g_encryption t)
unfolding iso_connect retry_loop confirmed negotiated negotiation_failed hang_up tcp_disconnect
iso_connect-fallback username first second attempts g_encryption t five five' rest rest' h h' e =
    let c : Connection = record {
      negotiate = true;
      neg_proto = protocol_ssl;
      g_encryption = g_encryption;
      selected_protocol = protocol_rdp;
      tcp = t;
    } in
    let one = try_connect_lem username first c five not_allowed rest h (omega arith) e in
    let refusal : try_connect true username first c
        ≡ done (retry (record c { negotiate = false; tcp = tcp_disconnect one.t })) =
      one.next ∙ rw (rest_of one.s not_allowed one.at, not_allowed_read one.s one.at) refl in
    let d : Connection = record c { negotiate = false; tcp = tcp_disconnect one.t } in
    let two = try_connect_lem username second d five' [] rest' h' (omega arith) one.up in
    let success : try_connect true username second d
        ≡ done (returned true (record d { tcp = two.t })) =
      two.next ∙ rw (rest_of two.s [] two.at) refl in
    record {
      c = record d { tcp = two.t };
      answer =
          retry_again true username first (second ∷ attempts) c d refusal
          ∙ retry_ends true username second attempts d (record d { tcp = two.t }) true success;
      encryption = refl;
      selected = refl;
      left = two.left;
      wire =
          two.wire
          ∙ ap (λ w. w ++ request false username protocol_ssl) one.wire
          ∙ append_assoc t.wire (request true username protocol_ssl)
              (request false username protocol_ssl);
    }
