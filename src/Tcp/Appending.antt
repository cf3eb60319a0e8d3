-- ===== src/Tcp/Appending.antt =====
-- tcp_recv keeps what the stream holds and puts behind it what comes.
use app_network_rdesktop.Base.{
  ℕ, ◌+◌, ◌-◌, ◌^◌, ◌<◌, ◌≤◌, ◌≡◌, refl, ap, ◌∙◌, false, ltb, inl, inr, Bool-cases, List, [], ◌++◌,
  Option, none, some, length, take, take-take-append, length-take, replicate, drop, arith,
}
use app_network_rdesktop.Stream.{Stream}
use app_network_rdesktop.Stream.Splice.{take-splice_end, length-splice}
use app_network_rdesktop.Tcp.State.{Arrival, Tcp, Reply, done}
use app_network_rdesktop.Tcp.{grown, room, tcp_recv}
use app_network_rdesktop.Tcp.Receiving.{Flows, flat, received, room-length, tcp_recv_lem}

-- The stream that tcp_recv goes on from, g_in at its start for a new one, and the bytes in it.
abbrev pub start : Option Stream → Tcp → Stream
start none t = record t.g_in { p = 0; end = 0 }
start (some s) t = s

abbrev pub held : Option Stream → List ℕ
held none = []
held (some s) = take s.end s.buf

-- The end of the stream is in its memory.
abbrev pub Stands : Option Stream → Type 0
Stands none = Unit {0}
Stands (some s) = s.end ≤ length s.buf

-- A stream with the bytes that were held and the next `n` of those that come, and the others left.
pub record Appends (s : Option Stream) (n : ℕ) (t : Tcp) (r : Reply (Stream × Tcp)) : Type 0 where
  pub s' : Stream
  pub later : List Arrival
  pub answer : r ≡ done (s', record t { arrivals = later; g_in = s' })
  pub same : s' ≡ record (start s t) { buf = s'.buf; end = s'.end }
  pub inside : s'.end ≤ length s'.buf
  pub size : s'.end ≡ length (held s) + n
  pub bytes : take s'.end s'.buf ≡ held s ++ take n (flat t.arrivals)
  pub left : flat later ≡ drop n (flat t.arrivals)
  pub flows : Flows later

take-grown :
    (k : ℕ) (buf : List ℕ) (size : ℕ) → k ≤ length buf → take k (grown buf size) ≡ take k buf
take-grown k buf size h = elim (Bool-cases (ltb (length buf) size)) [
  | inl e ↦ rw e (take-take-append k buf (replicate (size - length buf) 0) h)
  | inr e ↦ rw e refl
]

room-start :
    (s : Option Stream) (n : ℕ) (t : Tcp)
    → room s n t ≡ record (start s t) { buf = (room s n t).buf }
unfolding room
room-start none n t = refl
room-start (some s) n t = refl

room-held :
    (s : Option Stream) (n : ℕ) (t : Tcp)
    → Stands s
    → take (start s t).end (room s n t).buf ≡ held s
unfolding room
room-held none n t h = refl
room-held (some s) n t h = take-grown s.end s.buf _ h

length-held : (s : Option Stream) (t : Tcp) → Stands s → length (held s) ≡ (start s t).end
length-held none t h = refl
length-held (some s) t h = omega (arith, length-take s.end s.buf, h)

-- tcp_recv into a new stream, or behind what a stream with its end in its memory holds, while
-- g_network_error is not set, over a socket that only brings bytes or waits, `length` of them at least, and
-- for fewer than 2^32 bytes together with those held: it returns a stream that holds exactly what was held,
-- nothing for a new one, and behind it the next `length` bytes; its pointer and its marks are those of
-- the stream, a new one has the pointer at the start. What comes behind these bytes is left for the
-- next call. Where the bytes are cut and how long they take does not matter.
pub tcp_recv-Appends :
    (s : Option Stream) (n : ℕ) (t : Tcp)
    → t.g_network_error ≡ false
    → Flows t.arrivals
    → n ≤ length (flat t.arrivals)
    → length (held s) + n < 2 ^ 32
    → Stands s
    → Appends s n t (tcp_recv s n t)
tcp_recv-Appends s n t e f h small stands =
    let w = room s n t in
    let bs = take n (flat t.arrivals) in
    let at : w.end ≡ (start s t).end = ap (λ r. r.end) (room-start s n t) in
    let count : length bs ≡ n = omega (arith, length-take n (flat t.arrivals), h) in
    let few : w.end + n < 2 ^ 32 = omega (arith, at, length-held s t stands, small) in
    let fits : w.end + length bs ≤ length w.buf = omega (arith, room-length s n t few, count) in
    let got = tcp_recv_lem s n t e f h few in
    record {
      s' = received w bs;
      later = got.later;
      answer = got.answer;
      same =
          λ i. record (room-start s n t i) { buf = (received w bs).buf; end = (received w bs).end };
      inside = omega (arith, length-splice w.end bs w.buf fits, fits);
      size = omega (arith, at, count, length-held s t stands);
      bytes =
          take-splice_end w.end bs w.buf fits
          ∙ ap (λ (xs : List ℕ). xs ++ bs) (ap (λ k. take k w.buf) at ∙ room-held s n t stands);
      left = got.left;
      flows = got.flows;
    }
