-- ===== src/Rdp/Confirm.antt =====
-- The confirm active PDU: its counts and lengths are those of what is in it.
use app_network_rdesktop.Base.{
  ℕ, ◌+◌, ◌-◌, ◌≤◌, ◌≡◌, refl, ap, sym, subst, ◌∙◌, Bool, true, false, ltb, if◌then◌else◌, List, [],
  ◌∷◌, ◌++◌, Option, some, length, take, drop, arith, Bool-cases, inl, inr, le→ltb, replicate,
  append-nil,
}
use app_network_rdesktop.Stream.{Stream, out_bytes, s_mark_end, bytes16_le, bytes32_le}
use app_network_rdesktop.Stream.Splice.{splice, length-splice, drop-take-splice}
use app_network_rdesktop.Stream.Writing.{wrote, out_all_lem, out_bytes_fits, out_bytes-then}
use app_network_rdesktop.Tcp.State.{Tcp}
use app_network_rdesktop.Tcp.{tcp_init}
use app_network_rdesktop.Tcp.Receiving.{grown-length}
use app_network_rdesktop.Iso.{iso_init}
use app_network_rdesktop.Mcs.{mcs_init}
use app_network_rdesktop.Channels.{sec_encrypt}
use app_network_rdesktop.Rdp.{Rdp, sec_hdrlen, sec_init, handed, rdp_send_confirm_active}
use app_network_rdesktop.Rdp.Capabilities.{
  Settings, caps_0x0d, caps_0x0c, caps_0x0e, caps_0x10, rdp_out_bmpcache_caps,
  rdp_out_bmpcache2_caps, rdp_out_pointer_caps, rdp_out_newpointer_caps, rdp_out_unknown_caps,
}
use app_network_rdesktop.Rdp.Bodies.{
  confirm_length, confirm_pdu, capability_sets, rdp_source, concat,
}
use app_network_rdesktop.Rdp.Sending.{Given}
use app_network_rdesktop.Rdp.Sets.{
  set, general, bitmap, order, bmpcache, bmpcache2, control, activate, pointer, newpointer, share,
  colcache, brushcache, general_written, bitmap_written, order_written, bmpcache_written,
  bmpcache2_written, control_written, activate_written, pointer_written, newpointer_written,
  share_written, colcache_written, brushcache_written,
}

-- The bitmap cache and the pointer of a version of the protocol.
abbrev pub bitmap_cache_set : Settings → List ℕ
bitmap_cache_set c = if c.rdp_v5 then bmpcache2 c else bmpcache c

abbrev pub pointer_set : Settings → List ℕ
pointer_set c = if c.rdp_v5 then newpointer c else pointer c

-- The sets that are sent, in their order.
abbrev pub sets : Settings → List (List ℕ)
sets c =
    general c
    ∷ bitmap c
    ∷ order c
    ∷ bitmap_cache_set c
    ∷ pointer_set c
    ∷ colcache c
    ∷ activate c
    ∷ control c
    ∷ share c
    ∷ brushcache c
    ∷ set 0x0d caps_0x0d
    ∷ set 0x0c caps_0x0c
    ∷ set 0x0e caps_0x0e
    ∷ set 0x10 caps_0x10
    ∷ []

-- Their number, two bytes and the sets.
abbrev pub combined : Settings → List ℕ
combined c = bytes16_le (length (sets c)) ++ (0 ∷ 0 ∷ concat (sets c))

abbrev pub confirm_body : List ℕ → ℕ → List ℕ
confirm_body capabilities shareid =
    bytes32_le shareid
    ++ (bytes16_le 0x3ea
        ++ (bytes16_le (length rdp_source)
            ++ (bytes16_le (length capabilities) ++ (rdp_source ++ capabilities))))

-- The PDU behind a share control header with its length.
abbrev share_pdu : List ℕ → ℕ → ℕ → List ℕ
share_pdu capabilities mcs_userid shareid =
    bytes16_le (6 + length (confirm_body capabilities shareid))
    ++ (0x13 ∷ 0 ∷ (bytes16_le (mcs_userid + 1001) ++ confirm_body capabilities shareid))

abbrev pub confirm_active : Settings → ℕ → ℕ → List ℕ
confirm_active c mcs_userid shareid = share_pdu (combined c) mcs_userid shareid

if_written :
    (b : Bool) (f g : Stream → Option Stream) (xs ys : List ℕ) (s : Stream)
    → f s ≡ out_bytes s xs
    → g s ≡ out_bytes s ys
    → (if b then f s else g s) ≡ out_bytes s (if b then xs else ys)
if_written true f g xs ys s h k = h
if_written false f g xs ys s h k = k

unknown_written :
    (id n : ℕ) (caps : List ℕ) (s : Stream)
    → ltb (length caps) (n - 4) ≡ false
    → rdp_out_unknown_caps id n caps s
      ≡ out_bytes s (bytes16_le id ++ (bytes16_le n ++ take (n - 4) caps))
unfolding rdp_out_unknown_caps
unknown_written id n caps s h = rw h (
    out_all_lem (bytes16_le n ∷ take (n - 4) caps ∷ []) s (bytes16_le id)
    ∙ ap (λ xs. out_bytes s (bytes16_le id ++ (bytes16_le n ++ xs)))
        (append-nil (take (n - 4) caps)))

sets_written : (c : Settings) (s : Stream) → capability_sets c s ≡ out_bytes s (concat (sets c))
unfolding capability_sets
sets_written c s = out_bytes-then s _ _ (general_written c s) λ s.
    out_bytes-then s _ _ (bitmap_written c s) λ s. out_bytes-then s _ _ (order_written c s) λ s.
      out_bytes-then s _ _
        (if_written c.rdp_v5 (rdp_out_bmpcache2_caps c) (rdp_out_bmpcache_caps c) (bmpcache2 c)
          (bmpcache c) s (bmpcache2_written c s) (bmpcache_written c s))
        λ s.
          out_bytes-then s _ _
            (if_written c.rdp_v5 (rdp_out_newpointer_caps c) (rdp_out_pointer_caps c) (newpointer c)
              (pointer c) s (newpointer_written c s) (pointer_written c s))
            λ s. out_bytes-then s _ _ (colcache_written c s) λ s.
              out_bytes-then s _ _ (activate_written c s) λ s.
                out_bytes-then s _ _ (control_written c s) λ s.
                  out_bytes-then s _ _ (share_written c s) λ s.
                    out_bytes-then s _ _ (brushcache_written c s) λ s.
                      out_bytes-then s _ _ (unknown_written 0x0d 0x58 caps_0x0d s refl) λ s.
                        out_bytes-then s _ _ (unknown_written 0x0c 0x08 caps_0x0c s refl) λ s.
                          out_bytes-then s _ _ (unknown_written 0x0e 0x08 caps_0x0e s refl)
                            λ s. unknown_written 0x10 0x34 caps_0x10 s refl

length-combined : (c : Settings) → length (combined c) ≡ confirm_length c
unfolding confirm_length
length-combined c = elim (Bool-cases c.rdp_v5) [ inl e ↦ rw e refl | inr e ↦ rw e refl ]

-- The PDU with the two lengths that it announces.
abbrev announced : List ℕ → ℕ → ℕ → ℕ → ℕ → List ℕ
announced capabilities mcs_userid shareid total caplen =
    bytes16_le total
    ++ (0x13
        ∷ 0
        ∷ (bytes16_le (mcs_userid + 1001)
            ++ (bytes32_le shareid
                ++ (bytes16_le 0x3ea
                    ++ (bytes16_le 6 ++ (bytes16_le caplen ++ (rdp_source ++ capabilities)))))))

announced_lem :
    (capabilities : List ℕ) (mcs_userid shareid caplen : ℕ)
    → length capabilities ≡ caplen
    → announced capabilities mcs_userid shareid (2 + 14 + caplen + 6) caplen
      ≡ share_pdu capabilities mcs_userid shareid
announced_lem capabilities mcs_userid shareid caplen h =
    ap (λ total. announced capabilities mcs_userid shareid total caplen)
      (let e : 2 + 14 + caplen + 6 ≡ 6 + length (confirm_body capabilities shareid) =
          omega (arith, h) in
        e)
    ∙ ap
        (announced capabilities mcs_userid shareid (6 + length (confirm_body capabilities shareid)))
        (sym h)

length-share_pdu :
    (capabilities : List ℕ) (mcs_userid shareid : ℕ)
    → length (share_pdu capabilities mcs_userid shareid) ≡ length capabilities + 22
length-share_pdu capabilities mcs_userid shareid = omega arith

confirm_written :
    (c : Settings) (mcs_userid shareid : ℕ) (s : Stream)
    → confirm_pdu c mcs_userid shareid s ≡ out_bytes s (confirm_active c mcs_userid shareid)
unfolding confirm_pdu
confirm_written c mcs_userid shareid s =
    let caplen = confirm_length c in
    (out_bytes-then s (bytes16_le (2 + 14 + caplen + 6)) _ refl λ s.
      out_bytes-then s (bytes16_le 0x13) _ refl λ s.
        out_bytes-then s (bytes16_le (mcs_userid + 1001)) _ refl λ s.
          out_bytes-then s (bytes32_le shareid) _ refl λ s.
            out_bytes-then s (bytes16_le 0x3ea) _ refl λ s.
              out_bytes-then s (bytes16_le 6) _ refl λ s.
                out_bytes-then s (bytes16_le caplen) _ refl λ s.
                  out_bytes-then s rdp_source _ refl λ s.
                    out_bytes-then s (bytes16_le 0xe) _ refl
                      λ s. out_bytes-then s (replicate 2 0) _ refl λ s. sets_written c s)
    ∙ ap (out_bytes s) (announced_lem (combined c) mcs_userid shareid caplen (length-combined c))

confirm_fits :
    (c : Settings) (mcs_userid shareid : ℕ)
    → length (confirm_active c mcs_userid shareid) ≤ 6 + 14 + confirm_length c + 6
confirm_fits c mcs_userid shareid =
    subst (λ n. n ≤ 6 + 14 + confirm_length c + 6)
      (sym
        (length-share_pdu (combined c) mcs_userid shareid ∙ ap (λ n. n + 22) (length-combined c)))
      (omega arith)

-- A PDU behind the header of the secure layer, of at most the size asked for.
module _ (licensed : Bool) (flags size : ℕ) (bytes : List ℕ) (fits : length bytes ≤ size)
    (t : Tcp) where
  h : ℕ
  h = sec_hdrlen licensed flags

  start : Stream
  start = sec_init licensed flags size t

  start_room : 15 + h + length bytes ≤ length start.buf
  unfolding start sec_init mcs_init iso_init tcp_init h
  start_room = omega (arith, grown-length t.g_out.buf (size + sec_hdrlen licensed flags + 8 + 7))

  start_p : start.p ≡ 15 + h
  unfolding start sec_init mcs_init iso_init tcp_init h
  start_p = omega arith

  start_sec : start.sec_hdr ≡ 15
  unfolding start sec_init mcs_init iso_init tcp_init
  start_sec = refl

  pub sec_written :
      out_bytes (sec_init licensed flags size t) bytes
      ≡ some (wrote (sec_init licensed flags size t) bytes)
  unfolding start
  sec_written = out_bytes_fits start bytes (omega (arith, start_room, start_p))

  pub sec_handed :
      handed licensed flags (s_mark_end (wrote (sec_init licensed flags size t) bytes))
      ≡ some (record { sec_flags = flags; bytes = bytes })
  unfolding handed start h
  sec_handed =
      rw
        (
          le→ltb (length (wrote start bytes).buf) (start.p + length bytes) (
              omega (
                arith,
                length-splice start.p bytes start.buf (omega (arith, start_room, start_p)),
                start_room,
                start_p,
              )),
          ap (λ i. drop (i + h) (take (start.p + length bytes) (splice start.p bytes start.buf)))
                start_sec
              ∙ ap (λ i. drop i (take (start.p + length bytes) (splice start.p bytes start.buf)))
                  (sym start_p)
              ∙ drop-take-splice start.p bytes start.buf (omega (arith, start_room, start_p)),
        )
        refl

-- The flags that the confirm active PDU is sent with.
abbrev pub confirm_flags : Rdp → ℕ
confirm_flags r = if r.encryption then 0x30 + sec_encrypt else 0x30

-- Whatever the settings of the client, the memory of the stream and what sec_send leaves of it: the confirm
-- active PDU is handed to the secure layer, encrypted if the session is, and nothing is written outside the
-- stream. Its total length, the length of the source descriptor, the length of the combined capabilities
-- and their number are those of what is in it, and each of the fourteen capability sets announces its own
-- length.
pub rdp_send_confirm_active_lem :
    (sec_send : ℕ → Stream → Tcp → Tcp) (r : Rdp) (t : Tcp)
    → Given sec_send
        (confirm_flags r)
        (confirm_active r.settings r.mcs_userid r.shareid)
        t
        (rdp_send_confirm_active sec_send r t)
unfolding rdp_send_confirm_active
rdp_send_confirm_active_lem sec_send r t =
    let size = 6 + 14 + confirm_length r.settings + 6 in
    let bytes = confirm_active r.settings r.mcs_userid r.shareid in
    let fits = confirm_fits r.settings r.mcs_userid r.shareid in
    record {
      s = s_mark_end (wrote (sec_init r.licensed (confirm_flags r) size t) bytes);
      answer =
          rw
            (
              confirm_written r.settings r.mcs_userid r.shareid
                  (sec_init r.licensed (confirm_flags r) size t),
              sec_written r.licensed (confirm_flags r) size bytes fits t,
              sec_handed r.licensed (confirm_flags r) size bytes fits t,
            )
            refl;
    }
