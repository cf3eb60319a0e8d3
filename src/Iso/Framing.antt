-- ===== src/Iso/Framing.antt =====
-- A data packet, and what iso_recv takes it apart into.
use app_network_rdesktop.Base.{
  ℕ, ◌+◌, ◌<◌, ◌^◌, ◌≡◌, refl, Bool, true, false, ◌&&◌, List, ◌∷◌, ◌++◌, length, arith,
}
use app_network_rdesktop.Stream.{Stream, in_uint8s}
use app_network_rdesktop.Stream.Unread.{At, in_uint8-At, in_uint8s_one-At}
use app_network_rdesktop.Tcp.State.{Tcp, Reply, done}
use app_network_rdesktop.Tcp.Receiving.{Flows, flat}
use app_network_rdesktop.Iso.{iso_recv, iso_recv_msg}
use app_network_rdesktop.Iso.Receiving.{tpkt, recv_packet_lem}

-- The packet of a data message.
abbrev pub data_packet : List ℕ → List ℕ
data_packet payload = tpkt (2 ∷ 0xf0 ∷ 0x80 ∷ payload)

-- What a data packet is taken apart into.
pub record Data (payload rest : List ℕ) (t : Tcp) (r : Reply (ℕ × Stream × Tcp)) : Type 0 where
  pub s : Stream
  pub t' : Tcp
  pub answer : r ≡ done (3, s, t')
  pub at : At payload s
  pub left : flat t'.arrivals ≡ rest
  pub flows : Flows t'.arrivals
  pub same : t' ≡ record t { g_in = t'.g_in; arrivals = t'.arrivals }

pub and_false : (b : Bool) → (b && false) ≡ false
and_false true = refl
and_false false = refl

-- A data packet is returned without its header.
pub iso_recv-data_packet :
    (want : Bool) (payload rest : List ℕ) (t : Tcp)
    → t.g_network_error ≡ false
    → Flows t.arrivals
    → flat t.arrivals ≡ data_packet payload ++ rest
    → length payload + 7 < 2 ^ 16
    → Data payload rest t (iso_recv want t)
unfolding iso_recv iso_recv_msg
iso_recv-data_packet want payload rest t e f h small =
    let got = recv_packet_lem (2 ∷ 0xf0 ∷ 0x80 ∷ payload) rest t e f h (omega arith) in
    let at_code = in_uint8s_one-At got.s 2 (0xf0 ∷ 0x80 ∷ payload) got.at in
    let at_eot = in_uint8s_one-At (in_uint8s got.s 1) 0xf0 (0x80 ∷ payload) at_code in
    rw (got.answer, in_uint8-At (in_uint8s got.s 1) 0xf0 (0x80 ∷ payload) at_code, and_false want)
      (record {
        s = in_uint8s (in_uint8s (in_uint8s got.s 1) 1) 1;
        t' = got.t';
        answer = refl;
        at = in_uint8s_one-At (in_uint8s (in_uint8s got.s 1) 1) 0x80 payload at_eot;
        left = got.left;
        flows = got.flows;
        same = got.same;
      })
