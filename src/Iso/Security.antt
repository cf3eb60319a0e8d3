-- ===== src/Iso/Security.antt =====
-- iso_connect turns the encryption of the protocol off only over TLS.
use app_network_rdesktop.Base.{
  ℕ, ◌≡◌, refl, Bool, true, false, ◌==◌, ◌&&◌, ◌||◌, ◌⊎◌, inl, inr, List, [], ◌∷◌, some, Bool-cases,
  Option-cases, eqb→eq, subst,
}
use app_network_rdesktop.Stream.{Stream, s_check_rem}
use app_network_rdesktop.Tcp.State.{Tcp, Reply, done, refused, waiting, fault, lift}
use app_network_rdesktop.Tcp.Outcomes.{Returns, Returns-map, >>=-Returns_any}
use app_network_rdesktop.Iso.{iso_recv_msg}
use app_network_rdesktop.Iso.Packets.{iso_pdu_cc, in_negotiation}
use app_network_rdesktop.Iso.Connect.{
  Attempt, Connection, Next, returned, retry, protocol_rdp, protocol_ssl, rdp_neg_failure,
  rdp_neg_rsp, ssl_not_allowed_by_server, ssl_cert_not_on_server, hang_up, negotiation_failed,
  start_tls, negotiated, confirmed, try_connect, retry_loop, iso_connect,
  iso_send_connection_request, tcp_connected,
}

-- The socket is that of a TLS connection of one of the attempts.
abbrev pub UsesTls : List Attempt → Tcp → Type 0
UsesTls [] t = ⊥
UsesTls (a ∷ attempts) t = (a.tls ≡ some (t.arrivals, t.writes)) ⊎ UsesTls attempts t

-- The encryption setting is as before and plain RDP is selected, or there is a connection over TLS.
abbrev pub Secured : Bool → List Attempt → Bool × Connection → Type 0
Secured enc attempts (ok, c) =
    ((c.g_encryption ≡ enc) × (c.selected_protocol ≡ protocol_rdp))
    ⊎ ((ok ≡ true)
        × (c.g_encryption ≡ false)
        × (c.selected_protocol ≡ protocol_ssl)
        × UsesTls attempts c.tcp)

-- The same of one attempt.
abbrev SecuredNext : Bool → Attempt → Next → Type 0
SecuredNext enc a (returned ok c) = Secured enc (a ∷ []) (ok, c)
SecuredNext enc a (retry c) = c.g_encryption ≡ enc

module _ (a : Attempt) (c : Connection) (plain : c.selected_protocol ≡ protocol_rdp) where
  failed_Secured : (reason : ℕ) → SecuredNext c.g_encryption a (negotiation_failed c reason)
  unfolding negotiation_failed hang_up
  failed_Secured reason =
      elim (Bool-cases (reason == ssl_not_allowed_by_server || reason == ssl_cert_not_on_server)) [
        | inl e ↦ rw e refl
        | inr e ↦ rw e (inl (refl, plain))
      ]

  start_tls-Secured : SecuredNext c.g_encryption a (start_tls a c)
  unfolding start_tls hang_up
  start_tls-Secured = elim (Option-cases a.tls) [
    | inl e ↦ rw e refl
    | inr ((arrivals, writes), e) ↦ rw e (inr (refl, refl, refl, inl refl))
  ]

  negotiated-Secured :
      (type content : ℕ) → SecuredNext c.g_encryption a (negotiated a c type content)
  unfolding negotiated hang_up
  negotiated-Secured type content = elim (Bool-cases (type == rdp_neg_failure)) [
    | inl e ↦ rw e (failed_Secured content)
    | inr e ↦ elim (Bool-cases (type == rdp_neg_rsp)) [
      | inr d ↦ rw (e, d) (inl (refl, plain))
      | inl d ↦ elim (Bool-cases (content == protocol_ssl)) [
        | inl f ↦ rw (e, d, f) start_tls-Secured
        | inr f ↦ elim (Bool-cases (content == protocol_rdp)) [
          | inl g ↦ rw (e, d, f, g) (inl (refl, eqb→eq content 0 g))
          | inr g ↦ rw (e, d, f, g) (inl (refl, plain))
        ]
      ]
    ]
  ]

  confirmed-Secured :
      (rdp_v5 : Bool) (code : ℕ) (s : Stream)
      → Returns (SecuredNext c.g_encryption a) (confirmed rdp_v5 a c code s)
  unfolding confirmed hang_up
  confirmed-Secured rdp_v5 code s = elim (Bool-cases (code == iso_pdu_cc)) [
    | inr e ↦ rw e (inl (refl, plain))
    | inl e ↦ elim (Bool-cases (rdp_v5 && s_check_rem s 8)) [
      | inr d ↦ rw (e, d) (inl (refl, plain))
      | inl d ↦
          rw (e, d)
            (>>=-Returns_any (SecuredNext c.g_encryption a) (lift (in_negotiation s)) _
              λ (type, content). negotiated-Secured type content)
    ]
  ]

answered_Secured :
    (rdp_v5 : Bool) (a : Attempt) (c : Connection) (m : Reply (ℕ × ℕ × Stream × Tcp))
    → c.selected_protocol ≡ protocol_rdp
    → Returns (SecuredNext c.g_encryption a) (elim m [
      | done (_, code, s, t) ↦ confirmed rdp_v5 a (record c { tcp = t }) code s
      | refused t ↦ done (returned false (record c { tcp = t }))
      | waiting ↦ waiting
      | fault ↦ fault
    ])
answered_Secured rdp_v5 a c (done (version, code, s, t)) h =
    confirmed-Secured a (record c { tcp = t }) h rdp_v5 code s
answered_Secured rdp_v5 a c (refused t) h = inl (refl, h)
answered_Secured rdp_v5 a c waiting h = tt
answered_Secured rdp_v5 a c fault h = tt

try_connect-Secured :
    (rdp_v5 : Bool) (username : List ℕ) (a : Attempt) (c : Connection)
    → Returns (SecuredNext c.g_encryption a) (try_connect rdp_v5 username a c)
unfolding try_connect
try_connect-Secured rdp_v5 username a c = elim (Bool-cases a.reached) [
  | inr e ↦ simp e (inl (refl, refl))
  | inl e ↦ simp e (
      >>=-Returns_any (SecuredNext c.g_encryption a)
        (iso_send_connection_request (rdp_v5 && c.negotiate) username c.neg_proto
          (tcp_connected a c.tcp))
        _
        λ t.
          answered_Secured rdp_v5 a (record c { selected_protocol = protocol_rdp })
            (iso_recv_msg 0 t) refl)
]

-- A later attempt is one of the attempts.
later_Secured :
    (enc : Bool) (a : Attempt) (attempts : List Attempt) (r : Bool × Connection)
    → Secured enc attempts r
    → Secured enc (a ∷ attempts) r
later_Secured enc a attempts (ok, c) (inl h) = inl h
later_Secured enc a attempts (ok, c) (inr (h, e, s, u)) = inr (h, e, s, inr u)

-- The loop goes on from what an attempt leaves.
next_Secured :
    (enc : Bool) (a : Attempt) (attempts : List Attempt)
    (again : Connection → Reply (Bool × Connection)) (r : Reply Next)
    → Returns (SecuredNext enc a) r
    → ((c : Connection) → c.g_encryption ≡ enc → Returns (Secured enc attempts) (again c))
    → Returns (Secured enc (a ∷ attempts)) (elim r [
      | done (returned ok c) ↦ done (ok, c)
      | done (retry c) ↦ again c
      | refused t ↦ refused t
      | waiting ↦ waiting
      | fault ↦ fault
    ])
next_Secured enc a attempts again (done (returned ok c)) (inl h) k = inl h
next_Secured enc a attempts again (done (returned ok c)) (inr (h, e, s, inl u)) k =
    inr (h, e, s, inl u)
next_Secured enc a attempts again (done (returned ok c)) (inr (h, e, s, inr u)) k = absurd u
next_Secured enc a attempts again (done (retry c)) h k =
    Returns-map (Secured enc attempts) (Secured enc (a ∷ attempts)) (again c)
      (later_Secured enc a attempts) (k c h)
next_Secured enc a attempts again (refused t) h k = tt
next_Secured enc a attempts again waiting h k = tt
next_Secured enc a attempts again fault h k = tt

retry_loop-Secured :
    (rdp_v5 : Bool) (username : List ℕ) (enc : Bool) (attempts : List Attempt) (c : Connection)
    → c.g_encryption ≡ enc
    → Returns (Secured enc attempts) (retry_loop rdp_v5 username attempts c)
unfolding retry_loop
retry_loop-Secured rdp_v5 username enc [] c h = tt
retry_loop-Secured rdp_v5 username enc (a ∷ attempts) c h =
    next_Secured enc a attempts (retry_loop rdp_v5 username attempts)
      (try_connect rdp_v5 username a c)
      (subst (λ enc. Returns (SecuredNext enc a) (try_connect rdp_v5 username a c)) h
        (try_connect-Secured rdp_v5 username a c))
      (λ c e. retry_loop-Secured rdp_v5 username enc attempts c e)

-- However the connection attempts go and whatever the servers send: when iso_connect returns, then
-- g_encryption is as it was and plain RDP is selected, or it returns True, TLS is selected and the socket
-- is that of a TLS connection which tcp_tls_connect has set up in one of the attempts.
pub iso_connect-Secured :
    (rdp_v5 : Bool) (username : List ℕ) (attempts : List Attempt) (g_encryption : Bool) (t : Tcp)
    → Returns (Secured g_encryption attempts) (iso_connect rdp_v5 username attempts g_encryption t)
unfolding iso_connect
iso_connect-Secured rdp_v5 username attempts g_encryption t =
    retry_loop-Secured rdp_v5 username g_encryption attempts _ refl
