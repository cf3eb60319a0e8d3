-- ===== src/Mcs/Connecting.antt =====
-- mcs_connect_finalize with a server that grants everything.
use app_network_rdesktop.Base.{
  ℕ, ◌+◌, ◌%◌, ◌^◌, ◌<◌, ◌≤◌, ◌≡◌, refl, ap, sym, ◌∙◌, Bool, false, true, List, [], ◌∷◌, ◌++◌,
  Option, some, length, take, arith,
}
use app_network_rdesktop.Stream.{Stream}
use app_network_rdesktop.Stream.Unread.{At}
use app_network_rdesktop.Tcp.State.{Tcp, Reply, done, ◌>>=◌}
use app_network_rdesktop.Channels.{Vchannel, mcs_global_channel}
use app_network_rdesktop.Iso.Framing.{data_packet}
use app_network_rdesktop.Mcs.{
  mcs_connect_finalize, join_all, mcs_recv_aucf, mcs_recv_connect_response,
  mcs_send_connect_initial, mcs_send_edrq, mcs_send_aurq,
}
use app_network_rdesktop.Mcs.Packets.{mcs_userchannel_base, aucf_pdu, response_pdu}
use app_network_rdesktop.Mcs.Sending.{edrq, aurq, mcs_send_edrq_lem, mcs_send_aurq_lem}
use app_network_rdesktop.Mcs.Initial.{connect_initial, mcs_send_connect_initial_lem}
use app_network_rdesktop.Mcs.Confirms.{
  aucf, aucf_pdu-aucf, connect_response, response_content, response_pdu-connect_response,
  element_small,
}
use app_network_rdesktop.Mcs.Exchange.{
  Ready, Goes, Put, Posted-Put, Put-Goes, requests, grants, ids_of, join_lem, wire_then,
  join_channels_lem,
}

-- The channels joined: the user's, the global one, and those of g_channels.
abbrev pub joined_ids : ℕ → List Vchannel → List ℕ
joined_ids userid channels =
    (userid + mcs_userchannel_base) % 2 ^ 16 ∷ mcs_global_channel ∷ ids_of channels

join_all_lem :
    (userid : ℕ) (channels : List Vchannel) (rest : List ℕ) (t : Tcp)
    → Ready (grants userid (joined_ids userid channels) ++ rest) t
    → Goes true (requests userid (joined_ids userid channels)) rest t (join_all userid channels t)
unfolding join_all
join_all_lem userid channels rest t ready =
    let user = (userid + mcs_userchannel_base) % 2 ^ 16 in
    let first =
      join_lem userid user (grants userid (mcs_global_channel ∷ ids_of channels) ++ rest) t ready in
    let second =
      join_lem userid mcs_global_channel (grants userid (ids_of channels) ++ rest) first.t'
        first.ready in
    let others = join_channels_lem userid channels rest second.t' second.ready in
    rw (first.answer, second.answer, others.answer)
      (record {
        t' = others.t';
        answer = refl;
        ready = others.ready;
        wire =
            wire_then t.wire _ _ first.wire (wire_then first.t'.wire _ _ second.wire others.wire);
      })

-- How mcs_connect_finalize ends.
pub record Connected (userid : ℕ) (sent rest : List ℕ) (t : Tcp) (r : Reply (Bool × ℕ × Tcp))
    : Type 0 where
  pub t' : Tcp
  pub answer : r ≡ done (true, userid, t')
  pub ready : Ready rest t'
  pub wire : t'.wire ≡ t.wire ++ sent

-- What is sent behind the first message, and what comes behind the first answer.
abbrev pub joining : ℕ → List Vchannel → List ℕ
joining userid channels =
    data_packet edrq ++ (data_packet aurq ++ requests userid (joined_ids userid channels))

abbrev pub joined : ℕ → List Vchannel → List ℕ → List ℕ
joined userid channels rest =
    data_packet (aucf userid) ++ (grants userid (joined_ids userid channels) ++ rest)

-- The exchange, for a first message and an answer to it that is taken in.
module _ (process : Stream → Option Stream) (uninit : ℕ × ℕ) (before userid : ℕ)
    (channels : List Vchannel) (s : Stream) (first answer rest : List ℕ) (t : Tcp)
    (user : userid < 2 ^ 16) (small : length answer + 7 < 2 ^ 16)
    (reads : (s : Stream) → At answer s → response_pdu process uninit s ≡ some true)
    (put : Put first
      (data_packet answer ++ joined userid channels rest)
      t
      (mcs_send_connect_initial s t)) where
  responded :
      Goes true first
        (joined userid channels rest)
        t
        (mcs_send_connect_initial s t >>= λ t. mcs_recv_connect_response process uninit t)
  unfolding mcs_recv_connect_response
  responded =
      Put-Goes true false (response_pdu process uninit) answer (joined userid channels rest) first t
        _ small reads put

  answer_read : mcs_recv_connect_response process uninit put.t' ≡ done (true, responded.t')
  answer_read =
      sym (ap (λ r. r >>= λ t. mcs_recv_connect_response process uninit t) put.answer)
      ∙ responded.answer

  erected :
      Put (data_packet edrq) (joined userid channels rest) responded.t' (mcs_send_edrq responded.t')
  erected =
      Posted-Put _ _ responded.t' _ responded.ready
        (mcs_send_edrq_lem responded.t' responded.ready.up responded.ready.takes)

  asked : Put (data_packet aurq) (joined userid channels rest) erected.t' (mcs_send_aurq erected.t')
  asked =
      Posted-Put _ _ erected.t' _ erected.ready
        (mcs_send_aurq_lem erected.t' erected.ready.up erected.ready.takes)

  attached :
      Goes
        (true, userid)
        (data_packet aurq)
        (grants userid (joined_ids userid channels) ++ rest)
        erected.t'
        (mcs_send_aurq erected.t' >>= λ t. mcs_recv_aucf before t)
  unfolding mcs_recv_aucf
  attached =
      Put-Goes (true, userid) (false, before) (aucf_pdu before) (aucf userid)
        (grants userid (joined_ids userid channels) ++ rest) (data_packet aurq) erected.t' _
        (omega arith) (aucf_pdu-aucf before userid user) asked

  user_read : mcs_recv_aucf before asked.t' ≡ done ((true, userid), attached.t')
  user_read = sym (ap (λ r. r >>= λ t. mcs_recv_aucf before t) asked.answer) ∙ attached.answer

  finalized :
      Connected userid
        (first ++ joining userid channels)
        rest
        t
        (mcs_connect_finalize process uninit channels s before t)
  unfolding mcs_connect_finalize
  finalized =
      let all = join_all_lem userid channels rest attached.t' attached.ready in
      rw (put.answer, answer_read, erected.answer, asked.answer, user_read, all.answer)
        (record {
          t' = all.t';
          answer = refl;
          ready = all.ready;
          wire = wire_then t.wire _ _ responded.wire (
              wire_then responded.t'.wire _ _ erected.wire
                (wire_then erected.t'.wire _ _ attached.wire all.wire));
        })

-- When the socket takes what is sent and the answers come, in whatever pieces: a connect response with the
-- result 0, whose user data sec_process_mcs_data takes in to its end, an attach user confirm with a user
-- id, and a join confirm for each channel, then mcs_connect_finalize returns True with that user id. What
-- it has sent is, in this order, the connect-initial message with the user data, from 128 bytes to a total
-- that fits into 16 bits, the erect domain and attach user requests, and a request to join the user's
-- channel, the global one and each of g_channels; what comes behind the answers is left.
pub mcs_connect_finalize-Connected :
    (process : Stream → Option Stream) (uninit : ℕ × ℕ) (before userid : ℕ)
    (channels : List Vchannel) (s : Stream) (id params answer rest : List ℕ) (t : Tcp)
    → ((s : Stream) → At answer s → (s' : Stream) × (process s ≡ some s') × At [] s')
    → s.end ≤ length s.buf
    → 128 ≤ length (take s.end s.buf)
    → length (take s.end s.buf) + 127 < 2 ^ 16
    → userid < 2 ^ 16
    → length (connect_response id params answer) + 7 < 2 ^ 16
    → Ready (data_packet (connect_response id params answer) ++ joined userid channels rest) t
    → Connected userid
        (data_packet (connect_initial (take s.end s.buf)) ++ joining userid channels)
        rest
        t
        (mcs_connect_finalize process uninit channels s before t)
mcs_connect_finalize-Connected process uninit before userid channels s id params answer rest t
      processed inside long fits user small ready =
    finalized process uninit before userid channels s
      (data_packet (connect_initial (take s.end s.buf))) (connect_response id params answer) rest t
      user small
      (response_pdu-connect_response process id params answer
        (element_small 0x7f66 (response_content id params answer) small) processed uninit)
      (Posted-Put _ _ t _ ready (
        mcs_send_connect_initial_lem (take s.end s.buf) long s t inside refl fits ready.up
          ready.takes))
