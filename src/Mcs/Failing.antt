-- ===== src/Mcs/Failing.antt =====
-- mcs_connect_finalize with a server that does not grant everything.
use app_network_rdesktop.Base.{
  ℕ, ◌≡◌, refl, Bool, true, false, not, if◌then◌else◌, ◌⊎◌, inl, inr, List, [], ◌∷◌, ◌++◌, Option,
  some, length, take, ◌<◌, ◌≤◌, ◌+◌, ◌^◌, ap, sym, subst, ◌∙◌, ◌==◌, arith,
}
use app_network_rdesktop.Stream.{Stream, in_uint8s}
use app_network_rdesktop.Stream.Unread.{At, in_uint8s-At, in_uint8-At}
use app_network_rdesktop.Tcp.Sending.{Takes}
use app_network_rdesktop.Asn.Headers.{header_bytes}
use app_network_rdesktop.Iso.Framing.{data_packet}
use app_network_rdesktop.Iso.Messages.{message, iso_send_msg_lem}
use app_network_rdesktop.Mcs.Packets.{response_pdu}
use app_network_rdesktop.Mcs.Initial.{element, connect_initial, mcs_send_connect_initial_lem}
use app_network_rdesktop.Mcs.Confirms.{header_read, header-At, expect-Comes, element_small}
use app_network_rdesktop.Mcs.Exchange.{Ready, Ready-Comes, Posted-Put, wire_then}
use app_network_rdesktop.Tcp.State.{Tcp, Reply, done, broken}
use app_network_rdesktop.Tcp.{tcp_disconnect}
use app_network_rdesktop.Tcp.Outcomes.{Returns, >>=-Returns, >>=-Returns_any}
use app_network_rdesktop.Channels.{Vchannel}
use app_network_rdesktop.Iso.{iso_disconnect, iso_send_msg}
use app_network_rdesktop.Iso.Packets.{iso_pdu_dr}
use app_network_rdesktop.Mcs.{
  mcs_connect_finalize, finalize_failed, mcs_send_connect_initial, mcs_recv_connect_response,
  mcs_send_edrq, mcs_send_aurq, mcs_recv_aucf, join_all,
}

-- True is returned, or the socket is closed.
abbrev pub Closed : Bool × ℕ × Tcp → Type 0
Closed (ok, userid, t) = (ok ≡ true) ⊎ (t.arrivals ≡ broken ∷ [])

finalize_failed-Closed : (userid : ℕ) (t : Tcp) → Returns Closed (finalize_failed userid t)
unfolding finalize_failed iso_disconnect tcp_disconnect
finalize_failed-Closed userid t =
    >>=-Returns (λ t. t.arrivals ≡ broken ∷ []) Closed (iso_disconnect t) _
      (>>=-Returns_any (λ t. t.arrivals ≡ broken ∷ []) (iso_send_msg iso_pdu_dr t) _ λ t. refl)
      λ t e. inr e

choice_Closed :
    (ok : Bool) (userid : ℕ) (t : Tcp) (r : Reply (Bool × ℕ × Tcp))
    → Returns Closed r
    → Returns Closed (if not ok then finalize_failed userid t else r)
choice_Closed true userid t r h = h
choice_Closed false userid t r h = finalize_failed-Closed userid t

last_Closed :
    (ok : Bool) (userid : ℕ) (t : Tcp)
    → Returns Closed (if ok then done (true, userid, t) else finalize_failed userid t)
last_Closed true userid t = inl refl
last_Closed false userid t = finalize_failed-Closed userid t

-- Whatever the server sends and however the socket behaves: when mcs_connect_finalize returns False, it
-- has closed the connection.
pub mcs_connect_finalize-Closed :
    (process : Stream → Option Stream) (uninit : ℕ × ℕ) (before : ℕ) (channels : List Vchannel)
    (s : Stream) (t : Tcp)
    → Returns Closed (mcs_connect_finalize process uninit channels s before t)
unfolding mcs_connect_finalize
mcs_connect_finalize-Closed process uninit before channels s t =
    >>=-Returns_any Closed (mcs_send_connect_initial s t) _ λ t.
      >>=-Returns_any Closed (mcs_recv_connect_response process uninit t) _ λ (ok, t).
        choice_Closed ok before t _ (
          >>=-Returns_any Closed (mcs_send_edrq t) _ λ t.
            >>=-Returns_any Closed (mcs_send_aurq t) _ λ t.
              >>=-Returns_any Closed (mcs_recv_aucf before t) _ λ ((ok, userid), t).
                choice_Closed ok userid t _ (
                  >>=-Returns_any Closed (join_all userid channels t) _
                    λ (ok, t). last_Closed ok userid t))

-- A connect response with a result, and what else is in it.
abbrev pub refusal : ℕ → List ℕ → List ℕ
refusal result more = element 0x7f66 (element 10 (result ∷ []) ++ more)

module _ (process : Stream → Option Stream) (uninit : ℕ × ℕ) (result : ℕ) (more : List ℕ)
    (nonzero : 0 < result) (small : length (element 10 (result ∷ []) ++ more) < 2 ^ 16) where
  refusal_read :
      (s : Stream) → At (refusal result more) s → response_pdu process uninit s ≡ some false
  unfolding response_pdu
  refusal_read s at =
      let body = element 10 (result ∷ []) ++ more in
      let s_1 = in_uint8s s (length (header_bytes 0x7f66 (length body))) in
      let at_result = header-At s 0x7f66 (length body) uninit.0 body (omega arith) small at in
      let at_value = in_uint8s-At s_1 (header_bytes 10 1) (result ∷ more) at_result in
      let e : (result == 0) ≡ false = ground arith in
      rw
        (
          header_read s 0x7f66 (length body) uninit.0 body (omega arith) small at,
          header_read s_1 10 1 (length body) (result ∷ more) (omega arith) (omega arith) at_result,
          in_uint8-At (in_uint8s s_1 2) result more at_value,
          e,
        )
        refl

-- How it ends when the server refuses.
pub record Denied (before : ℕ) (sent : List ℕ) (t : Tcp) (r : Reply (Bool × ℕ × Tcp)) : Type 0 where
  pub t' : Tcp
  pub answer : r ≡ done (false, before, t')
  pub wire : t'.wire ≡ t.wire ++ sent
  pub closed : t'.arrivals ≡ broken ∷ []

-- When the socket takes what is sent and a connect response with another result than 0 comes, in whatever
-- pieces, then mcs_connect_finalize returns False, with g_mcs_userid as it was, has sent the
-- connect-initial message and a disconnect request, and has closed the connection.
pub mcs_connect_finalize-Denied :
    (process : Stream → Option Stream) (uninit : ℕ × ℕ) (before result : ℕ)
    (channels : List Vchannel) (s : Stream) (more rest : List ℕ) (t : Tcp)
    → 0 < result
    → s.end ≤ length s.buf
    → 128 ≤ length (take s.end s.buf)
    → length (take s.end s.buf) + 127 < 2 ^ 16
    → length (refusal result more) + 7 < 2 ^ 16
    → Ready (data_packet (refusal result more) ++ rest) t
    → Denied before
        (data_packet (connect_initial (take s.end s.buf)) ++ message 0x80)
        t
        (mcs_connect_finalize process uninit channels s before t)
unfolding mcs_connect_finalize mcs_recv_connect_response finalize_failed iso_disconnect
    tcp_disconnect
mcs_connect_finalize-Denied process uninit before result channels s more rest t nonzero inside long
      fits small ready =
    let content = take s.end s.buf in
    let put =
      Posted-Put (data_packet (connect_initial content)) _ t _ ready
        (mcs_send_connect_initial_lem content long s t inside refl fits ready.up ready.takes) in
    let got =
      expect-Comes false (response_pdu process uninit) false (refusal result more) rest put.t'
        (Ready-Comes (refusal result more) rest put.t' put.ready small)
        (refusal_read process uninit result more nonzero
          (element_small 0x7f66 (element 10 (result ∷ []) ++ more) small)) in
    let bye =
      iso_send_msg_lem iso_pdu_dr got.t' (ap (λ t. t.g_network_error) got.same ∙ put.ready.up)
        (subst (λ t. Takes t.writes) (sym got.same) put.ready.takes) in
    rw (put.answer, got.answer, bye.answer)
      (record {
        t' = tcp_disconnect bye.t';
        answer = refl;
        wire =
            wire_then t.wire _ _ put.wire
              (ap (λ t. t.wire) bye.same ∙ ap (λ w. w ++ message 0x80) (ap (λ t. t.wire) got.same));
        closed = refl;
      })
