-- ===== src/Tcp/Sending.antt =====
-- tcp_send over a socket that works.
use app_network_rdesktop.Base.{
  ℕ, ◌≤◌, ◌≡◌, refl, ap, sym, ◌∙◌, Bool, false, ltb, if◌then◌else◌, List, [], ◌∷◌, ◌++◌, take, drop,
  length, append-nil, append_assoc, take-append-drop, arith,
}
use app_network_rdesktop.Stream.{Stream}
use app_network_rdesktop.Tcp.State.{Write, taken, blocked, failed, stalled, Tcp, done}
use app_network_rdesktop.Tcp.{send_loop, tcp_send}

-- The socket may take bytes in pieces and block, but does not fail, and is ready at last.
abbrev pub Takes : List Write → Type 0
Takes [] = Unit {0}
Takes (taken k ∷ ws) = Takes ws
Takes (blocked ∷ ws) = Takes ws
Takes (failed ∷ ws) = ⊥
Takes (stalled ∷ ws) = ⊥

-- What a send leaves: the packet is on the wire behind what was there, the rest as it was.
pub record Sent (bs : List ℕ) (t t' : Tcp) : Type 0 where
  pub ws : List Write
  pub takes : Takes ws
  pub after : t' ≡ record t { writes = ws; wire = t.wire ++ bs }

send_loop_lem :
    (ws : List Write) (bs : List ℕ) (t : Tcp)
    → Takes ws
    → (t' : Tcp) × (send_loop ws bs t ≡ done t') × Sent bs t t'
unfolding send_loop
send_loop_lem ws [] t h = (
  record t { writes = ws },
  refl,
  record {
    ws = ws;
    takes = h;
    after = ap (λ wire. record t { writes = ws; wire = wire }) (sym (append-nil t.wire));
  },
)
send_loop_lem [] (b ∷ bs) t h = (
  record t { writes = []; wire = t.wire ++ (b ∷ bs) },
  refl,
  record { ws = []; takes = tt; after = refl },
)
send_loop_lem (taken k ∷ ws) (b ∷ bs) t h =
    let (t', sent, rest) =
      send_loop_lem ws (drop k bs) (record t { wire = t.wire ++ (b ∷ take k bs) }) h in
    (
      t',
      sent,
      record {
        ws = rest.ws;
        takes = rest.takes;
        after =
            rest.after
            ∙ ap (λ wire. record t { writes = rest.ws; wire = wire })
                (append_assoc t.wire (b ∷ take k bs) (drop k bs)
                  ∙ ap (λ xs. t.wire ++ (b ∷ xs)) (take-append-drop k bs));
      },
    )
send_loop_lem (blocked ∷ ws) (b ∷ bs) t h =
    let (t', sent, rest) = send_loop_lem ws (b ∷ bs) t h in
    (t', sent, record { ws = rest.ws; takes = rest.takes; after = rest.after })
send_loop_lem (failed ∷ ws) (b ∷ bs) t h = absurd h
send_loop_lem (stalled ∷ ws) (b ∷ bs) t h = absurd h

if_false {ℓ} : {A : Type ℓ} (b : Bool) (x y : A) → b ≡ false → (if b then x else y) ≡ y
if_false b x y e = ap (λ c. if c then x else y) e

-- Without an error so far, the loop sends what stands in memory.
pub tcp_send-working :
    (s : Stream) (t : Tcp)
    → t.g_network_error ≡ false
    → s.end ≤ length s.buf
    → tcp_send s t ≡ send_loop t.writes (take s.end s.buf) (record t { g_out = s })
unfolding tcp_send
tcp_send-working s t e h =
    let inside : ltb (length s.buf) s.end ≡ false = ground arith in
    if_false _ _ _ e ∙ if_false _ _ _ inside

-- A packet that stands in its memory is put on the wire, whole, once and behind what was sent before,
-- in whatever pieces the socket takes it and however often it blocks.
pub tcp_send_lem :
    (s : Stream) (t : Tcp)
    → t.g_network_error ≡ false
    → s.end ≤ length s.buf
    → Takes t.writes
    → (t' : Tcp) × (tcp_send s t ≡ done t') × Sent (take s.end s.buf) (record t { g_out = s }) t'
tcp_send_lem s t e h w =
    let (t', sent, rest) = send_loop_lem t.writes (take s.end s.buf) (record t { g_out = s }) w in
    (t', tcp_send-working s t e h ∙ sent, rest)
