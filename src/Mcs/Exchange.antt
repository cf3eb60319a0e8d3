-- ===== src/Mcs/Exchange.antt =====
-- Sends and answers in turn, and the requests to join channels.
use app_network_rdesktop.Base.{
  ℕ, ◌+◌, ◌^◌, ◌<◌, ◌≡◌, refl, ap, sym, subst, ◌∙◌, false, true, List, [], ◌∷◌, ◌++◌, Option, some,
  length, arith, append_assoc, append-nil,
}
use app_network_rdesktop.Stream.{Stream}
use app_network_rdesktop.Stream.Unread.{At}
use app_network_rdesktop.Tcp.State.{Tcp, Reply, done, ◌>>=◌}
use app_network_rdesktop.Tcp.Receiving.{Flows, flat}
use app_network_rdesktop.Tcp.Sending.{Takes}
use app_network_rdesktop.Channels.{Vchannel}
use app_network_rdesktop.Iso.Framing.{data_packet}
use app_network_rdesktop.Iso.Sending.{Posted}
use app_network_rdesktop.Mcs.{join, join_channels, mcs_recv_cjcf, expect}
use app_network_rdesktop.Mcs.Packets.{cjcf_pdu}
use app_network_rdesktop.Mcs.Sending.{cjrq, mcs_send_cjrq_lem}
use app_network_rdesktop.Mcs.Confirms.{Comes, expect-Comes, cjcf, cjcf_pdu-cjcf}

-- The connection is up, the socket takes what is sent, and these bytes come.
pub record Ready (coming : List ℕ) (t : Tcp) : Type 0 where
  pub up : t.g_network_error ≡ false
  pub takes : Takes t.writes
  pub flows : Flows t.arrivals
  pub bytes : flat t.arrivals ≡ coming

-- A reply from a state: the value, what is sent meanwhile, and what comes afterwards.
pub record Goes {A : Type 0} (a : A) (sent rest : List ℕ) (t : Tcp) (r : Reply (A × Tcp))
    : Type 0 where
  pub t' : Tcp
  pub answer : r ≡ done (a, t')
  pub ready : Ready rest t'
  pub wire : t'.wire ≡ t.wire ++ sent

-- What a send leaves.
pub record Put (sent coming : List ℕ) (t : Tcp) (r : Reply Tcp) : Type 0 where
  pub t' : Tcp
  pub answer : r ≡ done t'
  pub ready : Ready coming t'
  pub wire : t'.wire ≡ t.wire ++ sent

pub Posted-Put :
    (sent coming : List ℕ) (t : Tcp) (r : Reply Tcp)
    → Ready coming t
    → Posted sent t r
    → Put sent coming t r
Posted-Put sent coming t r ready p = record {
  t' = p.t';
  answer = p.answer;
  ready = record {
    up = ap (λ t. t.g_network_error) p.same ∙ ready.up;
    takes = p.takes;
    flows = subst (λ t. Flows t.arrivals) (sym p.same) ready.flows;
    bytes = ap (λ t. flat t.arrivals) p.same ∙ ready.bytes;
  };
  wire = ap (λ t. t.wire) p.same;
}

pub Ready-Comes :
    (payload rest : List ℕ) (t : Tcp)
    → Ready (data_packet payload ++ rest) t
    → length payload + 7 < 2 ^ 16
    → Comes payload rest t
Ready-Comes payload rest t ready small = record {
  up = ready.up;
  flows = ready.flows;
  bytes = ready.bytes;
  small = small;
}

-- A packet that is expected, after some bytes were sent.
pub Put-Goes :
    {A : Type 0} (a : A) (absent : A) (read : Stream → Option A) (payload rest sent : List ℕ)
    (t : Tcp) (r : Reply Tcp)
    → length payload + 7 < 2 ^ 16
    → ((s : Stream) → At payload s → read s ≡ some a)
    → Put sent (data_packet payload ++ rest) t r
    → Goes a sent rest t (r >>= λ t. expect absent read t)
Put-Goes a absent read payload rest sent t r small reads p =
    let got =
      expect-Comes absent read a payload rest p.t' (Ready-Comes payload rest p.t' p.ready small)
        reads in
    rw (p.answer) (record {
      t' = got.t';
      answer = got.answer;
      ready = record {
        up = ap (λ t. t.g_network_error) got.same ∙ p.ready.up;
        takes = subst (λ t. Takes t.writes) (sym got.same) p.ready.takes;
        flows = got.flows;
        bytes = got.left;
      };
      wire = ap (λ t. t.wire) got.same ∙ p.wire;
    })

-- The requests to join channels, and the server's grants.
abbrev pub requests : ℕ → List ℕ → List ℕ
requests userid [] = []
requests userid (id ∷ ids) = data_packet (cjrq userid id) ++ requests userid ids

abbrev pub grants : ℕ → List ℕ → List ℕ
grants userid [] = []
grants userid (id ∷ ids) = data_packet (cjcf userid id id) ++ grants userid ids

abbrev pub ids_of : List Vchannel → List ℕ
ids_of [] = []
ids_of (ch ∷ channels) = ch.mcs_id ∷ ids_of channels

pub join_lem :
    (userid id : ℕ) (rest : List ℕ) (t : Tcp)
    → Ready (data_packet (cjcf userid id id) ++ rest) t
    → Goes true (data_packet (cjrq userid id)) rest t (join userid id t)
unfolding join mcs_recv_cjcf
join_lem userid id rest t ready =
    Put-Goes true false cjcf_pdu (cjcf userid id id) rest (data_packet (cjrq userid id)) t _
      (omega arith) (cjcf_pdu-cjcf userid id id)
      (Posted-Put _ _ t _ ready (mcs_send_cjrq_lem t ready.up ready.takes userid id))

-- One step after another: the bytes sent.
pub wire_then :
    (w xs ys : List ℕ) {w_1 w_2 : List ℕ} → w_1 ≡ w ++ xs → w_2 ≡ w_1 ++ ys → w_2 ≡ w ++ (xs ++ ys)
wire_then w xs ys h k = k ∙ ap (λ v. v ++ ys) h ∙ append_assoc w xs ys

pub join_channels_lem :
    (userid : ℕ) (channels : List Vchannel) (rest : List ℕ) (t : Tcp)
    → Ready (grants userid (ids_of channels) ++ rest) t
    → Goes true (requests userid (ids_of channels)) rest t (join_channels userid channels t)
unfolding join_channels
join_channels_lem userid [] rest t ready = record {
  t' = t;
  answer = refl;
  ready = ready;
  wire = sym (append-nil t.wire);
}
join_channels_lem userid (ch ∷ channels) rest t ready =
    let first = join_lem userid ch.mcs_id (grants userid (ids_of channels) ++ rest) t ready in
    let others = join_channels_lem userid channels rest first.t' first.ready in
    rw (first.answer) (record {
      t' = others.t';
      answer = others.answer;
      ready = others.ready;
      wire = wire_then t.wire _ _ first.wire others.wire;
    })
