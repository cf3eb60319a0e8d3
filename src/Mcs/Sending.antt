-- ===== src/Mcs/Sending.antt =====
-- The packets that mcs.c sends, byte for byte.
use app_network_rdesktop.Base.{
  ℕ, ◌+◌, ◌^◌, ◌<◌, ◌≤◌, ◌≡◌, refl, subst, ◌∙◌, false, List, [], ◌∷◌, ◌++◌, Option, some, length,
  take, drop, arith,
}
use app_network_rdesktop.Stream.{Stream, out_bytes, bytes16_be, s_mark_end}
use app_network_rdesktop.Stream.Splice.{length-splice, drop-take-splice}
use app_network_rdesktop.Stream.Writing.{wrote, out_all_lem, out_bytes_fits}
use app_network_rdesktop.Tcp.State.{Tcp}
use app_network_rdesktop.Tcp.{tcp_init}
use app_network_rdesktop.Tcp.Receiving.{grown-length}
use app_network_rdesktop.Tcp.Sending.{Takes}
use app_network_rdesktop.Iso.{iso_init, iso_send}
use app_network_rdesktop.Iso.Framing.{data_packet}
use app_network_rdesktop.Iso.Sending.{Posted, iso_send_lem}
use app_network_rdesktop.Mcs.{send_pdu, mcs_send_edrq, mcs_send_aurq, mcs_send_cjrq}
use app_network_rdesktop.Mcs.Packets.{edrq_pdu, aurq_pdu, cjrq_pdu}

module _ (size : ℕ) (write : Stream → Option Stream) (bytes : List ℕ)
    (writes : (s : Stream) → write s ≡ out_bytes s bytes) (exact : length bytes ≡ size)
    (small : size + 7 < 2 ^ 16) (t : Tcp) where
  filled : Stream
  filled = s_mark_end (wrote (iso_init size t) bytes)

  enough : 7 + length bytes ≤ length (iso_init size t).buf
  unfolding iso_init tcp_init
  enough = omega (arith, grown-length t.g_out.buf (size + 7))

  written : write (iso_init size t) ≡ some (wrote (iso_init size t) bytes)
  unfolding iso_init tcp_init
  written = writes (iso_init size t) ∙ out_bytes_fits (iso_init size t) bytes (let r = enough in r)

  filled_end : filled.end ≡ 7 + length bytes
  unfolding filled iso_init tcp_init
  filled_end = refl

  filled_payload : drop 7 (take filled.end filled.buf) ≡ bytes
  unfolding filled iso_init tcp_init
  filled_payload = drop-take-splice 7 bytes (iso_init size t).buf (let r = enough in r)

  filled_inside : filled.end ≤ length filled.buf
  unfolding filled iso_init tcp_init
  filled_inside =
      omega (arith, length-splice 7 bytes (iso_init size t).buf (let r = enough in r), enough)

  filled_hdr : filled.iso_hdr ≡ 0
  unfolding filled iso_init tcp_init
  filled_hdr = refl

  -- A packet that is written in one run of the announced size is sent as that.
  pub send_pdu_lem :
      t.g_network_error ≡ false
      → Takes t.writes
      → Posted (data_packet bytes) t (send_pdu size write t)
  unfolding filled
  send_pdu_lem e w = rw (written) (
      subst (λ bs. Posted (data_packet bs) t (iso_send filled t)) filled_payload
        (iso_send_lem filled (omega (arith, filled_end)) filled_inside (omega (arith, filled_end)) t
          filled_hdr e w))

-- The bodies of the packets, as T.125 lays them out.
abbrev pub edrq : List ℕ
edrq = 4 ∷ 0 ∷ 1 ∷ 0 ∷ 1 ∷ []

abbrev pub aurq : List ℕ
aurq = 40 ∷ []

abbrev pub cjrq : ℕ → ℕ → List ℕ
cjrq userid chanid = 56 ∷ (bytes16_be userid ++ bytes16_be chanid)

module _ (t : Tcp) (e : t.g_network_error ≡ false) (w : Takes t.writes) where
  pub mcs_send_edrq_lem : Posted (data_packet edrq) t (mcs_send_edrq t)
  unfolding mcs_send_edrq edrq_pdu
  mcs_send_edrq_lem =
      send_pdu_lem 5 edrq_pdu edrq (λ s. out_all_lem ((0 ∷ 1 ∷ []) ∷ (0 ∷ 1 ∷ []) ∷ []) s (4 ∷ []))
        refl (omega arith) t e w

  pub mcs_send_aurq_lem : Posted (data_packet aurq) t (mcs_send_aurq t)
  unfolding mcs_send_aurq aurq_pdu
  mcs_send_aurq_lem = send_pdu_lem 1 aurq_pdu aurq (λ s. refl) refl (omega arith) t e w

  pub mcs_send_cjrq_lem :
      (userid chanid : ℕ)
      → Posted (data_packet (cjrq userid chanid)) t (mcs_send_cjrq userid chanid t)
  unfolding mcs_send_cjrq cjrq_pdu
  mcs_send_cjrq_lem userid chanid =
      send_pdu_lem 5 (cjrq_pdu userid chanid) (cjrq userid chanid)
        (λ s. out_all_lem (bytes16_be userid ∷ bytes16_be chanid ∷ []) s (56 ∷ [])) refl
        (omega arith) t e w
