-- ===== src/Channels/RoundTrip.antt =====
-- The chunks that `channel_send` makes of a message, taken in by `channel_process` one by one.
use app_network_rdesktop.Base.{
  ℕ, zero, suc, ◌+◌, ◌-◌, ◌^◌, ◌≤◌, ◌<◌, ◌≡◌, refl, ap, ◌∙◌, min, Bool, true, false, has, ◌==◌, ltb,
  ltb→lt, not_ltb→le, List, [], ◌∷◌, ◌++◌, Option, some, ◌>>=◌, arith, length, take, drop,
  replicate, length-replicate, length-append, length-take, length-drop, take-add, append_assoc, inl,
  inr, Bool-cases, Option-cases,
}
use app_network_rdesktop.Stream.{Stream, of_bytes}
use app_network_rdesktop.Stream.Splice.{length-splice, take-splice_end}
use app_network_rdesktop.Stream.Writing.{wrote}
use app_network_rdesktop.Channels.{
  Vchannel, Packet, Channels, Call, show_protocol, find_channel, restart, channel_process,
  channel_send,
}
use app_network_rdesktop.Channels.Segment.{packet, segments}
use app_network_rdesktop.Channels.Receiving.{
  with_input, process_single, process_first, process_middle, process_last,
}
use app_network_rdesktop.Channels.Sending.{packets, packets_single, packets_many, channel_send_lem}

-- The peer hands every packet to its `channel_process`, in the order of sending.
unfoldable pub deliver : Channels → List Packet → Option (Channels × List Call)
deliver c [] = some (c, [])
deliver c (p ∷ ps) = do
  (c, calls) ← channel_process c (of_bytes p.bytes) p.channel
  (c, more) ← deliver c ps
  some (c, calls ++ more)

deliver_step :
    (c : Channels) (p : Packet) (ps : List Packet) {c1 c2 : Channels} {xs ys : List Call}
    → channel_process c (of_bytes p.bytes) p.channel ≡ some (c1, xs)
    → deliver c1 ps ≡ some (c2, ys)
    → deliver c (p ∷ ps) ≡ some (c2, xs ++ ys)
unfolding deliver
deliver_step c p ps h k = rw (h, k)

find_channel-replaced :
    (chs : List Vchannel) (id : ℕ) (front : List Vchannel) (rc : Vchannel) (back : List Vchannel)
    (input : Stream)
    → find_channel chs id ≡ some (front, rc, back)
    → find_channel (front ++ (record rc { input = input } ∷ back)) id
      ≡ some (front, record rc { input = input }, back)
find_channel-replaced [] id front rc back input h = cc
find_channel-replaced (ch ∷ chs) id front rc back input h =
    elim (Option-cases (find_channel chs id)) [
      | inl e ↦ ground (arith, e)
      | inr ((f, r, b), e) ↦ ground (arith, e, find_channel-replaced chs id f r b input e)
    ]

-- The flags of a chunk, whether or not the channel shows the protocol.
flag_facts :
    (ch : Vchannel)
    → (has (0 + show_protocol ch) 1 ≡ false)
      × (has (0 + show_protocol ch) 2 ≡ false)
      × (has (1 + show_protocol ch) 1 ≡ true)
      × (has (1 + show_protocol ch) 2 ≡ false)
      × (has (2 + show_protocol ch) 1 ≡ false)
      × (has (2 + show_protocol ch) 2 ≡ true)
      × (has (3 + show_protocol ch) 1 ≡ true)
      × (has (3 + show_protocol ch) 2 ≡ true)
      × (3 + show_protocol ch < 2 ^ 32)
flag_facts ch = elim (Bool-cases (has ch.flags 0x00200000)) [
  | inl e ↦ rw e (refl, refl, refl, refl, refl, refl, refl, refl, omega arith)
  | inr e ↦ rw e (refl, refl, refl, refl, refl, refl, refl, refl, omega arith)
]

module _ (encryption : Bool) (ch : Vchannel) where
  segments_none : (fuel total : ℕ) (xs : List ℕ) → segments encryption ch fuel total 0 xs ≡ []
  unfolding segments
  segments_none zero total xs = refl
  segments_none (suc fuel) total xs = refl

  segments_last :
      (fuel total n : ℕ) (xs : List ℕ)
      → 0 < n
      → n ≤ 1600
      → segments encryption ch (suc fuel) total n xs ≡ packet encryption ch total 2 (take n xs) ∷ []
  segments_last fuel total n xs h k =
      let nonzero : (n == 0) ≡ false = ground arith in
      let this : min n 1600 ≡ n = omega arith in
      let left : n - n ≡ 0 = omega arith in
      unfold segments in
      rw (nonzero, segments, this, left) (simp (segments_none fuel total (drop n xs)))

  segments_more :
      (fuel total n : ℕ) (xs : List ℕ)
      → 1600 < n
      → segments encryption ch (suc fuel) total n xs
        ≡ packet encryption ch total 0 (take 1600 xs)
          ∷ segments encryption ch fuel total (n - 1600) (drop 1600 xs)
  segments_more fuel total n xs h =
      let nonzero : (n == 0) ≡ false = ground arith in
      let this : min n 1600 ≡ 1600 = omega arith in
      let left : (n - 1600 == 0) ≡ false = ground arith in
      unfold segments in rw (nonzero, segments, this, left)

  module _ (total n : ℕ) (xs : List ℕ) (c : Channels) (front : List Vchannel) (rc : Vchannel)
      (back : List Vchannel) (hx : n ≤ length xs) (ht : total < 2 ^ 32)
      (found : find_channel c.channels ch.mcs_id ≡ some (front, rc, back)) where
    length-part : (k : ℕ) → k ≤ length xs → length (take k xs) ≡ k
    length-part k h = omega (arith, length-take k xs)

    deliver_last :
        rc.input.p + n ≤ length rc.input.buf
        → (c' : Channels) × (deliver c (packet encryption ch total 2 (take n xs) ∷ [])
            ≡ some (
              c',
              record { mcs_id = rc.mcs_id; bytes = take rc.input.p rc.input.buf ++ take n xs } ∷ [],
            ))
    unfolding deliver
    deliver_last room =
        let facts = flag_facts ch in
        let done =
          process_last total (2 + show_protocol ch) (take n xs) ht (omega (arith, facts)) c
            ch.mcs_id front rc back found facts.4 facts.5 (omega (arith, length-part n hx)) in
        (
          with_input c front rc back (record (wrote rc.input (take n xs)) {
            end = rc.input.p + length (take n xs);
            p = 0;
          }),
          rw done refl,
        )

    module _ (more : 1600 < n) (room : rc.input.p + n ≤ length rc.input.buf) where
      input' : Stream
      input' = wrote rc.input (take 1600 xs)

      later : Channels
      unfolding input'
      later = with_input c front rc back input'

      deliver_middle :
          channel_process c (of_bytes (packet encryption ch total 0 (take 1600 xs)).bytes) ch.mcs_id
          ≡ some (later, [])
      unfolding later input'
      deliver_middle =
          let facts = flag_facts ch in
          process_middle total (0 + show_protocol ch) (take 1600 xs) ht (omega (arith, facts)) c
            ch.mcs_id front rc back found facts.0 facts.1
            (omega (arith, length-part 1600 (omega arith)))

      found_later :
          find_channel later.channels ch.mcs_id ≡ some (front, record rc { input = input' }, back)
      unfolding later
      found_later = find_channel-replaced c.channels ch.mcs_id front rc back input' found

      input_facts :
          (input'.p ≡ rc.input.p + 1600)
          × (length input'.buf ≡ length rc.input.buf)
          × (take input'.p input'.buf ≡ take rc.input.p rc.input.buf ++ take 1600 xs)
      unfolding input'
      input_facts =
          let k = length-part 1600 (omega arith) in
          let fits : rc.input.p + length (take 1600 xs) ≤ length rc.input.buf = omega (arith, k) in
          (
            ap (λ i. rc.input.p + i) k,
            length-splice rc.input.p (take 1600 xs) rc.input.buf fits,
            take-splice_end rc.input.p (take 1600 xs) rc.input.buf fits,
          )

  count : (n : ℕ) → 1600 < n → 1600 + (n - 1600) ≡ n
  count n h = omega arith

  -- What is delivered when the chunks for `n` more bytes come in: what was there, and those bytes.
  deliver-segments :
      (fuel total n : ℕ) (xs : List ℕ) (c : Channels) (front : List Vchannel) (rc : Vchannel)
      (back : List Vchannel)
      → n ≤ fuel
      → 0 < n
      → n ≤ length xs
      → total < 2 ^ 32
      → rc.input.p + n ≤ length rc.input.buf
      → find_channel c.channels ch.mcs_id ≡ some (front, rc, back)
      → (c' : Channels) × (deliver c (segments encryption ch fuel total n xs)
          ≡ some (
            c',
            record { mcs_id = rc.mcs_id; bytes = take rc.input.p rc.input.buf ++ take n xs } ∷ [],
          ))
  deliver-segments zero total n xs c front rc back hf hn hx ht room found = absurd (omega arith)
  deliver-segments (suc fuel) total n xs c front rc back hf hn hx ht room found =
      elim (Bool-cases (ltb 1600 n)) [
        | inr e ↦
            rw (segments_last fuel total n xs hn (not_ltb→le 1600 n e))
              (deliver_last total n xs c front rc back hx ht found room)
        | inl e ↦
            let more = ltb→lt 1600 n e in
            let facts = input_facts total n xs c front rc back hx ht found more room in
            let inp = input' total n xs c front rc back hx ht found more room in
            let whole : take inp.p inp.buf ++ take (n - 1600) (drop 1600 xs)
                ≡ take rc.input.p rc.input.buf ++ take n xs =
              rw (facts.2, append_assoc, take-add 1600 (n - 1600) xs, count n more) in
            let (c', ih) =
              deliver-segments fuel total (n - 1600) (drop 1600 xs)
                (later total n xs c front rc back hx ht found more room) front
                (record rc { input = inp }) back (omega arith) (omega arith)
                (omega (arith, length-drop 1600 xs)) ht (omega (arith, facts))
                (found_later total n xs c front rc back hx ht found more room) in
            (
              c',
              rw (segments_more fuel total n xs more) (
                  deliver_step c (packet encryption ch total 0 (take 1600 xs)) _
                    (deliver_middle total n xs c front rc back hx ht found more room) ih
                  ∙ cc whole),
            )
      ]

module _ (scramble : List ℕ → List ℕ) (same : (bs : List ℕ) → length (scramble bs) ≡ length bs)
    (encryption : Bool) (ch : Vchannel) (s : Stream) (total : ℕ)
    (ended : s.channel_hdr + 8 + total ≡ s.end) (inside : s.end ≤ length s.buf)
    (small : total < 2 ^ 32) (c : Channels) (front : List Vchannel) (rc : Vchannel)
    (back : List Vchannel)
    (found : find_channel c.channels ch.mcs_id ≡ some (front, rc, back)) where
  sent : List Packet
  sent = packets scramble same encryption ch s total ended inside small

  body : List ℕ
  body = drop (s.channel_hdr + 8) s.buf

  abbrev Delivered : Channels → Type 0
  Delivered c' =
      deliver c sent ≡ some (c', record { mcs_id = rc.mcs_id; bytes = take total body } ∷ [])

  Delivered-single : total ≤ 1600 → (c' : Channels) × Delivered c'
  unfolding sent body
  Delivered-single h =
      let facts = flag_facts ch in
      let up =
        process_single total (3 + show_protocol ch) (take total (drop (s.channel_hdr + 8) s.buf))
          small facts.8 c ch.mcs_id front rc back found facts.6 facts.7 in
      (
        c,
        rw (packets_single scramble same encryption ch s total ended inside small h)
            (deliver_step c _ [] up (unfold deliver in refl)),
      )

  module _ (more : 1600 < total) where
    opened : Stream
    opened = restart rc.input total

    opened_room : total ≤ length opened.buf
    unfolding opened
    opened_room = ground (
      arith,
      length-append rc.input.buf (replicate (total - length rc.input.buf) 0),
      length-replicate {A = ℕ} (total - length rc.input.buf) 0,
    )

    head_part : List ℕ
    unfolding body
    head_part = take 1600 body

    body_long : total ≤ length body
    unfolding body
    body_long = omega (arith, length-drop (s.channel_hdr + 8) s.buf)

    length-head_part : length head_part ≡ 1600
    unfolding head_part
    length-head_part = omega (arith, length-take 1600 body, body_long)

    begun : Stream
    begun = wrote opened head_part

    begun_facts :
        (begun.p ≡ 1600)
        × (length begun.buf ≡ length opened.buf)
        × (take begun.p begun.buf ≡ head_part)
    unfolding begun opened
    begun_facts = (
      omega (arith, length-head_part),
      length-splice 0 head_part opened.buf (omega (arith, length-head_part, opened_room)),
      take-splice_end 0 head_part opened.buf (omega (arith, length-head_part, opened_room)),
    )

    first_taken :
        channel_process c (of_bytes (packet encryption ch total 1 head_part).bytes) ch.mcs_id
        ≡ some (with_input c front rc back begun, [])
    unfolding begun opened
    first_taken =
        let facts = flag_facts ch in
        process_first total (1 + show_protocol ch) head_part small (omega (arith, facts.8)) c
          ch.mcs_id front rc back found facts.2 facts.3
          (omega (arith, length-head_part, opened_room))

    rest_taken :
        (c' : Channels) × (deliver
            (with_input c front rc back begun)
            (segments encryption ch (total - 1600) total (total - 1600) (drop 1600 body))
          ≡ some (
            c',
            record {
              mcs_id = rc.mcs_id;
              bytes = take begun.p begun.buf ++ take (total - 1600) (drop 1600 body);
            }
                ∷ [],
          ))
    rest_taken =
        deliver-segments encryption ch (total - 1600) total (total - 1600) (drop 1600 body)
          (with_input c front rc back begun) front (record rc { input = begun }) back (omega arith)
          (omega arith) (omega (arith, length-drop 1600 body, body_long)) small
          (omega (arith, begun_facts, opened_room))
          (find_channel-replaced c.channels ch.mcs_id front rc back begun found)

    whole : take begun.p begun.buf ++ take (total - 1600) (drop 1600 body) ≡ take total body
    unfolding head_part
    whole =
        rw (begun_facts.2, take-add 1600 (total - 1600) body)
          (ap (λ i. take i body) (let e : 1600 + (total - 1600) ≡ total = omega arith in e))

    Delivered-many : (c' : Channels) × Delivered c'
    unfolding sent body head_part
    Delivered-many = (
      rest_taken.0,
      rw (packets_many scramble same encryption ch s total ended inside small more)
          (deliver_step c _ _ first_taken rest_taken.1 ∙ cc whole),
    )

  delivered : (c' : Channels) × Delivered c'
  delivered = elim (Bool-cases (ltb 1600 total)) [
    | inl e ↦ Delivered-many (ltb→lt 1600 total e)
    | inr e ↦ Delivered-single (not_ltb→le 1600 total e)
  ]

  -- `channel_send` returns on every stream that holds a message of less than 2^32 bytes behind its
  -- 8 bytes of channel header, and when a peer's `channel_process` takes in the packets in order,
  -- its channel of that id, which it has, is called back once, with exactly the bytes of the message.
  -- This holds whatever the secure layer writes over the memory in front of `end`, byte for byte, and
  -- whatever the peer's reassembly buffer held.
  pub channel_process-channel_send :
      (ps : List Packet) × (t : Stream) × (c' : Channels) × (channel_send scramble encryption ch s
        ≡ some (ps, t))
      × (deliver c ps
          ≡ some (
            c',
            record { mcs_id = rc.mcs_id; bytes = take total (drop (s.channel_hdr + 8) s.buf) } ∷ [],
          ))
  unfolding sent body
  channel_process-channel_send =
      let (t, e) = channel_send_lem scramble same encryption ch s total ended inside small in
      (sent, t, delivered.0, e, delivered.1)
