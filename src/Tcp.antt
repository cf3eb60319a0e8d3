-- ===== src/Tcp.antt =====
-- tcp.c: the byte stream under the protocol. The sockets and OpenSSL are not part of it; what they
-- give and take is the script of the state.
pub mod State
pub mod Outcomes
pub mod Receiving
pub mod Appending
pub mod Sending
pub mod Broken
pub mod Runs
use app_network_rdesktop.Base.{
  ℕ, zero, suc, ◌+◌, ◌-◌, ◌%◌, ◌^◌, Bool, true, false, ltb, leb, if◌then◌else◌, List, [], ◌∷◌, ◌++◌,
  Option, none, some, length, take, drop, replicate,
}
use app_network_rdesktop.Stream.{Stream, of_bytes, out_bytes}
use State.{
  Arrival, chunk, nothing_yet, quit, closed, broken, Write, taken, blocked, failed, stalled, Tcp,
  Reply, done, refused, waiting, fault, lift,
}

-- `xrealloc` where the memory is smaller; the bytes that it adds are taken to be 0.
abbrev pub grown : List ℕ → ℕ → List ℕ
grown buf size = if ltb (length buf) size then buf ++ replicate (size - length buf) 0 else buf

unfoldable pub tcp_init : ℕ → Tcp → Stream
tcp_init maxlen t =
    let buf = grown t.g_out.buf maxlen in record t.g_out { buf = buf; p = 0; end = length buf }

-- The loop of tcp_send, with the bytes still to be sent.
unfoldable pub send_loop : List Write → List ℕ → Tcp → Reply Tcp
send_loop ws [] t = done (record t { writes = ws })
send_loop [] (b ∷ bs) t = done (record t { writes = []; wire = t.wire ++ (b ∷ bs) })
send_loop (taken k ∷ ws) (b ∷ bs) t =
    send_loop ws (drop k bs) (record t { wire = t.wire ++ (b ∷ take k bs) })
send_loop (blocked ∷ ws) (b ∷ bs) t = send_loop ws (b ∷ bs) t
send_loop (failed ∷ ws) (b ∷ bs) t = done (record t { writes = ws; g_network_error = true })
send_loop (stalled ∷ ws) (b ∷ bs) t = waiting

-- `s` is g_out.
unfoldable pub tcp_send : Stream → Tcp → Reply Tcp
tcp_send s t =
    if t.g_network_error
    then done (record t { g_out = s })
    else if ltb (length s.buf) s.end
    then fault
    else send_loop t.writes (take s.end s.buf) (record t { g_out = s })

-- Bytes that arrive are stored at `s->end`.
unfoldable pub store_end : Stream → List ℕ → Reply Stream
store_end s bs =
    if ltb (length s.buf) (s.end + length bs)
    then fault
    else done (record s {
      buf = take s.end s.buf ++ (bs ++ drop (s.end + length bs) s.buf);
      end = s.end + length bs;
    })

-- What the socket keeps when more has come than was asked for.
abbrev pub still : List ℕ → List Arrival → List Arrival
still [] later = later
still (c ∷ cs) later = chunk c cs ∷ later

-- The loop of tcp_recv, with the number of bytes still to come.
unfoldable pub recv_loop : List Arrival → ℕ → Stream → Tcp → Reply (Stream × Tcp)
recv_loop later zero s t = done (s, record t { arrivals = later; g_in = s })
recv_loop [] (suc n) s t = waiting
recv_loop (chunk b bs ∷ later) (suc n) s t = elim (store_end s (b ∷ take n bs)) [
  | done s' ↦ elim (ltb n (length bs)) [
    | true ↦ done (s', record t { arrivals = still (drop n bs) later; g_in = s' })
    | false ↦ recv_loop later (n - length bs) s' t
  ]
  | refused t' ↦ refused t'
  | waiting ↦ waiting
  | fault ↦ fault
]
recv_loop (nothing_yet ∷ later) (suc n) s t = recv_loop later (suc n) s t
recv_loop (quit ∷ later) (suc n) s t =
    refused (record t { arrivals = later; g_in = s; g_user_quit = true })
recv_loop (closed ∷ later) (suc n) s t = refused (record t { arrivals = later; g_in = s })
recv_loop (broken ∷ later) (suc n) s t =
    refused (record t { arrivals = later; g_in = s; g_network_error = true })

-- Where the bytes go: into g_in from its start, or behind what `s` has.
unfoldable pub room : Option Stream → ℕ → Tcp → Stream
room none length' t = record t.g_in { buf = grown t.g_in.buf length'; p = 0; end = 0 }
room (some s) length' t = record s { buf = grown s.buf ((s.end + length') % 2 ^ 32) }

unfoldable pub tcp_recv : Option Stream → ℕ → Tcp → Reply (Stream × Tcp)
tcp_recv s length' t =
    if t.g_network_error then refused t else recv_loop t.arrivals length' (room s length' t) t

-- On a closed socket recv() and send() fail.
unfoldable pub tcp_disconnect : Tcp → Tcp
tcp_disconnect t = record t { arrivals = broken ∷ []; writes = failed ∷ [] }

-- The memory of both streams is given back and their fields are NULL.
unfoldable pub tcp_reset_state : Tcp → Tcp
tcp_reset_state t = record t { g_in = of_bytes []; g_out = of_bytes [] }
