-- ===== src/Mcs.antt =====
-- mcs.c: the multipoint communications service, on the packets of iso.c.
-- g_mcs_userid is passed along. sec_process_mcs_data of secure.c is a parameter: it takes the stream at
-- the user data and gives it back where it stopped.
pub mod Packets
pub mod Sending
pub mod Initial
pub mod Requests
pub mod Data
pub mod Confirms
pub mod Exchange
pub mod Connecting
pub mod Failing
pub mod Runs
use app_network_rdesktop.Base.{
  ℕ, ◌+◌, ◌%◌, ◌^◌, Bool, true, false, not, ◌&&◌, ltb, ◌==◌, if◌then◌else◌, List, [], ◌∷◌, Option,
  none, some, length, take,
}
use app_network_rdesktop.Stream.{Stream, s_mark_end}
use app_network_rdesktop.Tcp.State.{Tcp, Reply, done, refused, waiting, fault, ◌>>=◌, lift}
use app_network_rdesktop.Iso.{iso_init, iso_send, iso_recv, iso_disconnect}
use app_network_rdesktop.Iso.Connect.{Attempt, Connection, iso_connect, iso_reset_state}
use app_network_rdesktop.Channels.{Vchannel, mcs_global_channel}
use Packets.{
  mcs_userchannel_base, initial_length, initial_pdu, edrq_pdu, aurq_pdu, cjrq_pdu, sdrq_header,
  response_pdu, aucf_pdu, cjcf_pdu, sdin_pdu,
}

-- A packet of `size` bytes that `write` fills.
abbrev pub send_pdu : ℕ → (Stream → Option Stream) → Tcp → Reply Tcp
send_pdu size write t = do s ← lift (write (iso_init size t)); iso_send (s_mark_end s) t

-- The user data of `mcs_data`, from its start to its end.
unfoldable pub user_data : Stream → Option (List ℕ)
user_data s = if ltb (length s.buf) s.end then none else some (take s.end s.buf)

unfoldable pub mcs_send_connect_initial : Stream → Tcp → Reply Tcp
mcs_send_connect_initial mcs_data t = do
  content ← lift (user_data mcs_data)
  send_pdu (initial_length (length content) + 5) (λ s. initial_pdu s content) t

unfoldable pub mcs_send_edrq : Tcp → Reply Tcp
mcs_send_edrq t = send_pdu 5 edrq_pdu t

unfoldable pub mcs_send_aurq : Tcp → Reply Tcp
mcs_send_aurq t = send_pdu 1 aurq_pdu t

unfoldable pub mcs_send_cjrq : ℕ → ℕ → Tcp → Reply Tcp
mcs_send_cjrq userid chanid t = send_pdu 5 (cjrq_pdu userid chanid) t

-- iso_recv(NULL), where NULL makes the caller return `absent`, and a stream is read by `read`.
abbrev pub expect {ℓ} : {A : Type ℓ} → A → (Stream → Option A) → Tcp → Reply (A × Tcp)
expect absent read t = elim (iso_recv false t) [
  | done (_, s, t') ↦ lift (read s) >>= λ a. done (a, t')
  | refused t' ↦ done (absent, t')
  | waiting ↦ waiting
  | fault ↦ fault
]

unfoldable pub mcs_recv_connect_response :
    (Stream → Option Stream) → ℕ × ℕ → Tcp → Reply (Bool × Tcp)
mcs_recv_connect_response sec_process_mcs_data uninit t =
    expect false (response_pdu sec_process_mcs_data uninit) t

unfoldable pub mcs_recv_aucf : ℕ → Tcp → Reply ((Bool × ℕ) × Tcp)
mcs_recv_aucf userid t = expect (false, userid) (aucf_pdu userid) t

unfoldable pub mcs_recv_cjcf : Tcp → Reply (Bool × Tcp)
mcs_recv_cjcf t = expect false cjcf_pdu t

unfoldable pub mcs_init : ℕ → Tcp → Stream
mcs_init length' t = let s = iso_init (length' + 8) t in record s { mcs_hdr = s.p; p = s.p + 8 }

unfoldable pub mcs_send_to_channel : ℕ → Stream → ℕ → Tcp → Reply Tcp
mcs_send_to_channel userid s channel t = do
  s ← lift (sdrq_header userid channel (record s { p = s.mcs_hdr }))
  iso_send s t

unfoldable pub mcs_send : ℕ → Stream → Tcp → Reply Tcp
mcs_send userid s t = mcs_send_to_channel userid s mcs_global_channel t

-- The version, the channel (`channel` as it was, where the packet is not of this layer), the stream and
-- the state.
unfoldable pub mcs_recv : Bool → ℕ → Tcp → Reply (ℕ × ℕ × Stream × Tcp)
mcs_recv want channel t = do
  (version, s, t) ← iso_recv want t
  if want && not (version == 3) then done (version, channel, s, t) else (do
    found ← lift (sdin_pdu s)
    elim found [ none ↦ refused t | some (channel, s) ↦ done (version, channel, s, t) ])

-- A request to join a channel, and the answer.
unfoldable pub join : ℕ → ℕ → Tcp → Reply (Bool × Tcp)
join userid chanid t = do t ← mcs_send_cjrq userid chanid t; mcs_recv_cjcf t

-- The loop over g_channels.
unfoldable pub join_channels : ℕ → List Vchannel → Tcp → Reply (Bool × Tcp)
join_channels userid [] t = done (true, t)
join_channels userid (ch ∷ channels) t = do
  (ok, t) ← join userid ch.mcs_id t
  elim ok [ true ↦ join_channels userid channels t | false ↦ done (false, t) ]

-- `error:` of mcs_connect_finalize.
unfoldable pub finalize_failed : ℕ → Tcp → Reply (Bool × ℕ × Tcp)
finalize_failed userid t = do t ← iso_disconnect t; done (false, userid, t)

-- mcs_connect_finalize behind the attach-user confirm.
unfoldable pub join_all : ℕ → List Vchannel → Tcp → Reply (Bool × Tcp)
join_all userid channels t = do
  (ok, t) ← join userid ((userid + mcs_userchannel_base) % 2 ^ 16) t
  elim ok [
    | false ↦ done (false, t)
    | true ↦ do
      (ok, t) ← join userid mcs_global_channel t
      elim ok [ false ↦ done (false, t) | true ↦ join_channels userid channels t ]
  ]

-- What it returns, g_mcs_userid and the state.
unfoldable pub mcs_connect_finalize :
    (Stream → Option Stream) → ℕ × ℕ → List Vchannel → Stream → ℕ → Tcp → Reply (Bool × ℕ × Tcp)
mcs_connect_finalize sec_process_mcs_data uninit channels mcs_data userid t = do
  t ← mcs_send_connect_initial mcs_data t
  (ok, t) ← mcs_recv_connect_response sec_process_mcs_data uninit t
  if not ok then finalize_failed userid t else (do
    t ← mcs_send_edrq t
    t ← mcs_send_aurq t
    ((ok, userid), t) ← mcs_recv_aucf userid t
    if not ok then finalize_failed userid t else (do
      (ok, t) ← join_all userid channels t
      if ok then done (true, userid, t) else finalize_failed userid t))

unfoldable pub mcs_disconnect : Tcp → Reply Tcp
mcs_disconnect t = iso_disconnect t

unfoldable pub mcs_connect_start :
    Bool → List ℕ → List Attempt → Bool → Tcp → Reply (Bool × Connection)
mcs_connect_start rdp_v5 username attempts g_encryption t =
    iso_connect rdp_v5 username attempts g_encryption t

-- g_mcs_userid, g_encryption and the byte stream.
unfoldable pub mcs_reset_state : Bool → Tcp → ℕ × Bool × Tcp
mcs_reset_state g_encryption_initial t =
    let (g_encryption, t) = iso_reset_state g_encryption_initial t in (0, g_encryption, t)
