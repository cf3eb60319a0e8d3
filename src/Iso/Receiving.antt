-- ===== src/Iso/Receiving.antt =====
-- iso_recv_msg gets a whole packet, in whatever pieces its bytes come.
use app_network_rdesktop.Base.{
  ℕ, ◌+◌, ◌-◌, ◌*◌, ◌%◌, ◌/◌, ◌^◌, ◌<◌, ◌≤◌, ◌≡◌, refl, ap, sym, ◌∙◌, false, List, ◌∷◌, ◌++◌, none,
  some, length, take, drop, arith, length-append, drop_step, take-append, drop-append, le→ltb,
}
use app_network_rdesktop.Stream.{Stream, bytes16_be, in_uint8, in_uint8s}
use app_network_rdesktop.Stream.Unread.{unread, At}
use app_network_rdesktop.Stream.Reading.{ahead, in_uint8_ahead, in_uint16_be_ahead}
use app_network_rdesktop.Stream.Splice.{splice, length-splice, drop-take-splice}
use app_network_rdesktop.Tcp.State.{Arrival, Tcp, Reply, done}
use app_network_rdesktop.Tcp.{tcp_recv, room}
use app_network_rdesktop.Tcp.Receiving.{Flows, Got, flat, received, tcp_recv_lem, room-length}
use app_network_rdesktop.Iso.{recv_packet, packet_length}

-- A packet with its header.
abbrev pub tpkt : List ℕ → List ℕ
tpkt body = 3 ∷ 0 ∷ (bytes16_be (length body + 4) ++ body)

module _ (s : Stream) (a b : ℕ) {rest : List ℕ} (h : ahead s ≡ 3 ∷ 0 ∷ a ∷ b ∷ rest) where
  version_read : in_uint8 s ≡ some (3, in_uint8s s 1)
  version_read = in_uint8_ahead s 3 h

  length_read : packet_length 3 (in_uint8s s 1) ≡ some (a * 2 ^ 8 + b, in_uint8s s 4)
  unfolding packet_length
  length_read =
      in_uint16_be_ahead (in_uint8s (in_uint8s s 1) 1) a b
        (drop_step (s.p + 1) s.buf (drop_step s.p s.buf h).1).1
      ∙ ap (λ i. some (a * 2 ^ 8 + b, record s { p = i }))
          (let e : s.p + 1 + 1 + 2 ≡ s.p + 4 = omega arith in e)

-- What is got when a packet with a body comes.
pub record Packet (body rest : List ℕ) (t : Tcp) (r : Reply (ℕ × Stream × Tcp)) : Type 0 where
  pub s : Stream
  pub t' : Tcp
  pub answer : r ≡ done (3, s, t')
  pub at : At body s
  pub left : flat t'.arrivals ≡ rest
  pub flows : Flows t'.arrivals
  pub same : t' ≡ record t { g_in = t'.g_in; arrivals = t'.arrivals }

module _ (n : ℕ) (t : Tcp) where
  fresh_end : (room none n t).end ≡ 0
  unfolding room
  fresh_end = refl

  fresh_p : (room none n t).p ≡ 0
  unfolding room
  fresh_p = refl

  behind_end : (s : Stream) → (room (some s) n t).end ≡ s.end
  unfolding room
  behind_end s = refl

  behind_p : (s : Stream) → (room (some s) n t).p ≡ s.p
  unfolding room
  behind_p s = refl

-- The stream that tcp_recv gives for the header.
header_stream : List ℕ → Tcp → Stream
header_stream body t = received (room none 4 t) (3 ∷ 0 ∷ bytes16_be (length body + 4))

module _ (body rest : List ℕ) (t : Tcp) (e : t.g_network_error ≡ false) (f : Flows t.arrivals)
    (h : flat t.arrivals ≡ tpkt body ++ rest) (small : length body + 4 < 2 ^ 16) where
  header-Got : Got 4 t.arrivals (room none 4 t) t (tcp_recv none 4 t)
  header-Got = tcp_recv_lem none 4 t e f (rw h (omega arith)) (omega (arith, fresh_end 4 t))

  abbrev later : List Arrival
  later = header-Got.later

  abbrev middle : Tcp
  middle = record t { arrivals = header-Got.later; g_in = header_stream body t }

  header_answer : tcp_recv none 4 t ≡ done (header_stream body t, middle)
  unfolding header_stream
  header_answer =
      header-Got.answer
      ∙ ap
          (λ bs.
            let s = received (room none 4 t) (take 4 bs) in
            done (s, record t { arrivals = header-Got.later; g_in = s }))
          h

  body_comes : flat later ≡ body ++ rest
  body_comes = header-Got.left ∙ ap (drop 4) h

  opened : Stream
  opened = in_uint8s (header_stream body t) 4

  opened_end : opened.end ≡ 4
  unfolding opened header_stream
  opened_end = omega (arith, fresh_end 4 t)

  opened_p : opened.p ≡ 4
  unfolding opened header_stream
  opened_p = omega (arith, fresh_p 4 t)

  body_room : Stream
  body_room = room (some opened) (length body) middle

  body_room_end : body_room.end ≡ 4
  unfolding body_room
  body_room_end = behind_end (length body) middle opened ∙ opened_end

  body_small : body_room.end + length body < 2 ^ 32
  body_small = omega (arith, body_room_end)

  body-Got : Got (length body) later body_room middle (tcp_recv (some opened) (length body) middle)
  unfolding body_room
  body-Got =
      tcp_recv_lem (some opened) (length body) middle e header-Got.flows
        (rw body_comes (omega (arith, length-append body rest))) (let b = body_small in b)

  -- The stream that iso_recv_msg goes on with, and the state.
  body_stream : Stream
  body_stream = received body_room body

  packet_state : Tcp
  unfolding body_stream
  packet_state = record t { arrivals = body-Got.later; g_in = body_stream }

  body_answer : tcp_recv (some opened) (length body) middle ≡ done (body_stream, packet_state)
  unfolding body_stream packet_state
  body_answer =
      body-Got.answer
      ∙ ap
          (λ bs.
            let s = received body_room bs in
            done (s, record t { arrivals = body-Got.later; g_in = s }))
          (ap (take (length body)) body_comes ∙ take-append body rest)

  header_ahead :
      ahead (header_stream body t)
      ≡ 3 ∷ 0 ∷ (bytes16_be (length body + 4) ++ drop 4 (room none 4 t).buf)
  unfolding header_stream room
  header_ahead = refl

  length_value : (length body + 4) / 256 % 256 * 256 + (length body + 4) % 256 ≡ length body + 4
  length_value = omega arith

  recv_packet_answer : recv_packet t ≡ done (3, body_stream, packet_state)
  unfolding recv_packet opened
  recv_packet_answer =
      rw
        (
          header_answer,
          version_read (header_stream body t) _ _ header_ahead,
          length_read (header_stream body t) _ _ header_ahead,
          length_value,
          le→ltb (length body + 4) 4 (omega arith),
          (let e : length body + 4 - 4 ≡ length body = omega arith in e),
          body_answer,
        )
        refl

  body_stream_p : body_stream.p ≡ 4
  unfolding body_stream body_room
  body_stream_p = behind_p (length body) middle opened ∙ opened_p

  body_stream_end : body_stream.end ≡ 4 + length body
  unfolding body_stream
  body_stream_end = ap (λ i. i + length body) body_room_end

  enough_room : body_room.end + length body ≤ length body_room.buf
  unfolding body_room
  enough_room = room-length (some opened) (length body) middle (let b = body_small in b)

  body-unread : unread body_stream ≡ body
  unfolding body_stream
  body-unread =
      ap
        (λ i. drop i (take (body_room.end + length body) (splice body_room.end body body_room.buf)))
        ((let e = body_stream_p in e) ∙ sym body_room_end)
      ∙ drop-take-splice body_room.end body body_room.buf enough_room

  body_inside : body_stream.end ≤ length body_stream.buf
  unfolding body_stream
  body_inside =
      omega (arith, length-splice body_room.end body body_room.buf enough_room, enough_room)

  -- A packet whose bytes come, in whatever pieces and however late, is read as its version and body.
  pub recv_packet_lem : Packet body rest t (recv_packet t)
  unfolding packet_state
  recv_packet_lem = record {
    s = body_stream;
    t' = packet_state;
    answer = recv_packet_answer;
    at = record {
      order = omega (arith, body_stream_p, body_stream_end);
      inside = body_inside;
      is = body-unread;
    };
    left = body-Got.left ∙ ap (drop (length body)) body_comes ∙ drop-append body rest;
    flows = body-Got.flows;
    same = refl;
  }
