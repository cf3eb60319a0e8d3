-- ===== src/Iso/Connect.antt =====
-- iso_connect: the connection request, its negotiation of TLS, and the attempts after a failed one.
-- tcp_connect and tcp_tls_connect are calls of the system and OpenSSL: an attempt says how they end and
-- what the socket gives and takes afterwards. STREAM_COUNT is 1, and WITH_CREDSSP and WITH_SCARD are not
-- defined.

use app_network_rdesktop.Base.{
  ℕ, Bool, true, false, not, ◌&&◌, ◌||◌, ◌==◌, if◌then◌else◌, List, [], ◌∷◌, Option, none, some,
  replicate,
}
use app_network_rdesktop.Stream.{Stream, s_mark_end, s_check_rem}
use app_network_rdesktop.Tcp.{tcp_init, tcp_send, tcp_disconnect, tcp_reset_state}
use app_network_rdesktop.Tcp.State.{
  Arrival, Write, Tcp, Reply, done, refused, waiting, fault, ◌>>=◌, lift,
}
use app_network_rdesktop.Iso.{iso_recv_msg}
use app_network_rdesktop.Iso.Packets.{iso_pdu_cc, request_length, request_pdu, in_negotiation}

abbrev pub rdp_neg_rsp : ℕ
rdp_neg_rsp = 2

abbrev pub rdp_neg_failure : ℕ
rdp_neg_failure = 3

abbrev pub protocol_rdp : ℕ
protocol_rdp = 0

abbrev pub protocol_ssl : ℕ
protocol_ssl = 1

abbrev pub ssl_not_allowed_by_server : ℕ
ssl_not_allowed_by_server = 2

abbrev pub ssl_cert_not_on_server : ℕ
ssl_cert_not_on_server = 3

-- What a call of tcp_connect finds: whether it succeeds, what the socket then gives and takes, and the
-- same once tcp_tls_connect has succeeded (none: it fails).
pub record Attempt : Type 0 where
  pub reached : Bool
  pub arrivals : List Arrival
  pub writes : List Write
  pub tls : Option (List Arrival × List Write)

-- g_negotiate_rdp_protocol, neg_proto, g_encryption, `*selected_protocol` and the byte stream.
pub record Connection : Type 0 where
  pub negotiate : Bool
  pub neg_proto : ℕ
  pub g_encryption : Bool
  pub selected_protocol : ℕ
  pub tcp : Tcp

-- How an attempt goes on: iso_connect returns, or `goto retry`.
pub data Next : Type 0 where
  returned : Bool → Connection → Next
  retry : Connection → Next

-- The part of tcp_connect behind `connect`; new memory is taken to be 0.
unfoldable pub tcp_connected : Attempt → Tcp → Tcp
tcp_connected a t = record t {
  g_in = record t.g_in { buf = replicate 4096 0 };
  g_out = record t.g_out { buf = replicate 4096 0 };
  arrivals = a.arrivals;
  writes = a.writes;
}

unfoldable pub iso_send_connection_request : Bool → List ℕ → ℕ → Tcp → Reply Tcp
iso_send_connection_request negotiate username neg_proto t = do
  s ←
      lift
        (request_pdu (tcp_init (request_length negotiate username) t) negotiate username neg_proto)
  tcp_send (s_mark_end s) t

-- tcp_disconnect in a session.
unfoldable pub hang_up : Connection → Connection
hang_up c = record c { tcp = tcp_disconnect c.tcp }

-- The answer is a failure.
unfoldable pub negotiation_failed : Connection → ℕ → Next
negotiation_failed c reason =
    if reason == ssl_not_allowed_by_server || reason == ssl_cert_not_on_server
    then retry (record (hang_up c) { negotiate = false })
    else returned false (hang_up c)

-- The server takes TLS.
unfoldable pub start_tls : Attempt → Connection → Next
start_tls a c = elim a.tls [
  | none ↦ retry (record (hang_up c) { neg_proto = protocol_rdp })
  | some (arrivals, writes) ↦ returned true (record c {
    g_encryption = false;
    selected_protocol = protocol_ssl;
    tcp = record c.tcp { arrivals = arrivals; writes = writes };
  })
]

-- The handling of a negotiation response.
unfoldable pub negotiated : Attempt → Connection → ℕ → ℕ → Next
negotiated a c type content =
    if type == rdp_neg_failure
    then negotiation_failed c content
    else if not (type == rdp_neg_rsp)
    then returned false (hang_up c)
    else if content == protocol_ssl
    then start_tls a c
    else if content == protocol_rdp
    then returned true (record c { selected_protocol = content })
    else returned false (hang_up c)

-- The handling of the server's message; `rdp_v5` is `g_rdp_version >= RDP_V5`.
unfoldable pub confirmed : Bool → Attempt → Connection → ℕ → Stream → Reply Next
confirmed rdp_v5 a c code s =
    if not (code == iso_pdu_cc)
    then done (returned false (hang_up c))
    else if rdp_v5 && s_check_rem s 8
    then (do (type, content) ← lift (in_negotiation s); done (negotiated a c type content))
    else done (returned true c)

-- iso_connect from `retry:` on, once.
unfoldable pub try_connect : Bool → List ℕ → Attempt → Connection → Reply Next
try_connect rdp_v5 username a c =
    let c = record c { selected_protocol = protocol_rdp } in
    if not a.reached then done (returned false c) else (do
      t ←
          iso_send_connection_request (rdp_v5 && c.negotiate) username c.neg_proto
            (tcp_connected a c.tcp)
      elim (iso_recv_msg 0 t) [
        | done (_, code, s, t) ↦ confirmed rdp_v5 a (record c { tcp = t }) code s
        | refused t ↦ done (returned false (record c { tcp = t }))
        | waiting ↦ waiting
        | fault ↦ fault
      ])

-- The attempts, one after the other. With none left the client waits for tcp_connect.
unfoldable pub retry_loop : Bool → List ℕ → List Attempt → Connection → Reply (Bool × Connection)
retry_loop rdp_v5 username [] c = waiting
retry_loop rdp_v5 username (a ∷ attempts) c = elim (try_connect rdp_v5 username a c) [
  | done (returned ok c) ↦ done (ok, c)
  | done (retry c) ↦ retry_loop rdp_v5 username attempts c
  | refused t ↦ refused t
  | waiting ↦ waiting
  | fault ↦ fault
]

unfoldable pub iso_connect : Bool → List ℕ → List Attempt → Bool → Tcp → Reply (Bool × Connection)
iso_connect rdp_v5 username attempts g_encryption t = retry_loop rdp_v5 username attempts (record {
  negotiate = true;
  neg_proto = protocol_ssl;
  g_encryption = g_encryption;
  selected_protocol = protocol_rdp;
  tcp = t;
})

-- g_encryption and the byte stream.
unfoldable pub iso_reset_state : Bool → Tcp → Bool × Tcp
iso_reset_state g_encryption_initial t = (g_encryption_initial, tcp_reset_state t)
