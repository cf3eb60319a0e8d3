-- ===== src/Tcp/Receiving.antt =====
-- tcp_recv gets the same bytes, in whatever pieces they come.
use app_network_rdesktop.Base.{
  ℕ, zero, suc, ◌+◌, ◌-◌, ◌%◌, ◌^◌, ◌<◌, ◌≤◌, ◌≡◌, refl, ap, sym, ◌∙◌, false, ltb, List, [], ◌∷◌,
  ◌++◌, Option, none, some, length, take, drop, length-append, length-take, length-replicate,
  take-length_le, take-take-append, arith, Bool-cases, ltb→lt, not_ltb→le, inl, inr,
  take-append-drop, drop-append_le, drop-append_beyond, take-append_beyond, replicate,
}
use app_network_rdesktop.Stream.{Stream}
use app_network_rdesktop.Stream.Splice.{splice, length-splice}
use app_network_rdesktop.Stream.Writing.{splice-splice}
use app_network_rdesktop.Tcp.State.{
  Arrival, chunk, nothing_yet, quit, closed, broken, Tcp, Reply, done,
}
use app_network_rdesktop.Tcp.{still, store_end, recv_loop, room, tcp_recv, grown}

-- Bytes come, perhaps late, and nothing else happens.
abbrev pub Flows : List Arrival → Type 0
Flows [] = Unit {0}
Flows (chunk b bs ∷ later) = Flows later
Flows (nothing_yet ∷ later) = Flows later
Flows (quit ∷ later) = ⊥
Flows (closed ∷ later) = ⊥
Flows (broken ∷ later) = ⊥

-- The bytes that come, without the places where they are cut.
abbrev pub flat : List Arrival → List ℕ
flat [] = []
flat (chunk b bs ∷ later) = b ∷ (bs ++ flat later)
flat (nothing_yet ∷ later) = flat later
flat (quit ∷ later) = flat later
flat (closed ∷ later) = flat later
flat (broken ∷ later) = flat later

-- The stream with bytes stored behind its end.
abbrev pub received : Stream → List ℕ → Stream
received s bs = record s { buf = splice s.end bs s.buf; end = s.end + length bs }

flat-still : (cs : List ℕ) (later : List Arrival) → flat (still cs later) ≡ cs ++ flat later
flat-still [] later = refl
flat-still (c ∷ cs) later = refl

Flows-still : (cs : List ℕ) (later : List Arrival) → Flows later → Flows (still cs later)
Flows-still [] later f = f
Flows-still (c ∷ cs) later f = f

store_end_lem :
    (s : Stream) (bs : List ℕ)
    → s.end + length bs ≤ length s.buf
    → store_end s bs ≡ done (received s bs)
unfolding store_end
store_end_lem s bs h = ground arith

received-received :
    (s : Stream) (xs ys : List ℕ)
    → s.end + length xs + length ys ≤ length s.buf
    → received (received s xs) ys ≡ received s (xs ++ ys)
received-received s xs ys h = ground (arith, length-append xs ys, splice-splice s.end xs ys s.buf)

-- What tcp_recv's loop gives, of what comes.
pub record Got (n : ℕ) (comes : List Arrival) (s : Stream) (t : Tcp) (r : Reply (Stream × Tcp))
    : Type 0 where
  pub later : List Arrival
  pub answer :
      let s' = received s (take n (flat comes)) in
      r ≡ done (s', record t { arrivals = later; g_in = s' })
  pub left : flat later ≡ drop n (flat comes)
  pub flows : Flows later

received_nil : (s : Stream) → received s [] ≡ s
received_nil s =
    let e : s.end + 0 ≡ s.end = omega arith in
    ap (λ buf. record s { buf = buf; end = s.end + 0 })
      (ap (λ i. take s.end s.buf ++ drop i s.buf) e ∙ take-append-drop s.end s.buf)
    ∙ ap (λ i. record s { end = i }) e

recv_loop_lem :
    (comes : List Arrival) (n : ℕ) (s : Stream) (t : Tcp)
    → Flows comes
    → n ≤ length (flat comes)
    → s.end + n ≤ length s.buf
    → Got n comes s t (recv_loop comes n s t)
unfolding recv_loop
recv_loop_lem comes zero s t f h r = record {
  later = comes;
  answer = ap (λ s'. done (s', record t { arrivals = comes; g_in = s' })) (sym (received_nil s));
  left = refl;
  flows = f;
}
recv_loop_lem [] (suc n) s t f h r = absurd (omega arith)
recv_loop_lem (nothing_yet ∷ later) (suc n) s t f h r =
    let g = recv_loop_lem later (suc n) s t f h r in
    record { later = g.later; answer = g.answer; left = g.left; flows = g.flows }
recv_loop_lem (quit ∷ later) (suc n) s t f h r = absurd f
recv_loop_lem (closed ∷ later) (suc n) s t f h r = absurd f
recv_loop_lem (broken ∷ later) (suc n) s t f h r = absurd f
recv_loop_lem (chunk b bs ∷ later) (suc n) s t f h r = elim (Bool-cases (ltb n (length bs))) [
  | inl e ↦
      let short : n ≤ length bs = omega (arith, ltb→lt n (length bs) e) in
      rw (store_end_lem s (b ∷ take n bs) (omega (arith, length-take n bs)), e, recv_loop)
        (record {
          later = still (drop n bs) later;
          answer = rw (take-take-append n bs (flat later) short) refl;
          left = flat-still (drop n bs) later ∙ sym (drop-append_le n bs (flat later) short);
          flows = Flows-still (drop n bs) later f;
        })
  | inr e ↦
      let long : length bs ≤ n = not_ltb→le n (length bs) e in
      let g =
        recv_loop_lem later (n - length bs) (received s (b ∷ bs)) t f
          (omega (arith, length-append bs (flat later)))
          (omega (arith, length-splice s.end (b ∷ bs) s.buf)) in
      rw (take-length_le n bs long, store_end_lem s (b ∷ bs) (omega arith), e, recv_loop)
        (record {
          later = g.later;
          answer =
              g.answer
              ∙ ap (λ s'. done (s', record t { arrivals = g.later; g_in = s' }))
                  (received-received s (b ∷ bs) (take (n - length bs) (flat later))
                      (omega (arith, length-take (n - length bs) (flat later)))
                    ∙ ap (λ xs. received s (b ∷ xs))
                        (sym (take-append_beyond n bs (flat later) long)));
          left = g.left ∙ sym (drop-append_beyond n bs (flat later) long);
          flows = g.flows;
        })
]

pub grown-length : (buf : List ℕ) (n : ℕ) → n ≤ length (grown buf n)
grown-length buf n = ground (
  arith,
  length-append buf (replicate (n - length buf) 0),
  length-replicate {A = ℕ} (n - length buf) 0,
)

pub room-length :
    (s : Option Stream) (n : ℕ) (t : Tcp)
    → (room s n t).end + n < 2 ^ 32
    → (room s n t).end + n ≤ length (room s n t).buf
unfolding room
room-length none n t h = omega (arith, grown-length t.g_in.buf n)
room-length (some s) n t h =
    let e : (s.end + n) % 2 ^ 32 ≡ s.end + n = omega arith in
    omega (arith, grown-length s.buf ((s.end + n) % 2 ^ 32))

-- tcp_recv into a new stream, or behind what a stream holds, when enough bytes come and nothing goes
-- wrong before: it returns the stream with exactly the next `length` bytes stored at its end, leaves
-- what comes after them for the next call, and does not depend on where the bytes are cut or how long
-- they take.
pub tcp_recv_lem :
    (s : Option Stream) (n : ℕ) (t : Tcp)
    → t.g_network_error ≡ false
    → Flows t.arrivals
    → n ≤ length (flat t.arrivals)
    → (room s n t).end + n < 2 ^ 32
    → Got n t.arrivals (room s n t) t (tcp_recv s n t)
unfolding tcp_recv
tcp_recv_lem s n t e f h small =
    simp e (recv_loop_lem t.arrivals n (room s n t) t f h (room-length s n t small))
