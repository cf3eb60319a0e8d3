-- ===== src/Mppc.antt =====
-- mppc.c: decompression of bulk data into the history buffer.
-- `walker` is an int of 32 bits, kept as its bit pattern; it is negative where the pattern is 2^31
-- or more. `hist` is a function, of which the program owns the first RDP_MPPC_DICT_SIZE bytes.
pub mod Runs
pub mod Endings
pub mod Progress
pub mod Safety
pub mod Expand
pub mod Literals
use Prim.Native.Nat.{bit_or}
use app_network_rdesktop.Base.{
  ℕ, zero, suc, ◌+◌, ◌-◌, ◌*◌, ◌/◌, ◌%◌, ◌^◌, Bool, true, false, not, ltb, leb, ◌==◌, has, ◌||◌,
  ◌&&◌, if◌then◌else◌, List, Option, none, some, get_elem?,
}
use Endings.{Outcome, value, minus_one, fault, stuck, ◌>>=◌}

abbrev pub rdp_mppc_big : ℕ
rdp_mppc_big = 0x01

abbrev pub rdp_mppc_compressed : ℕ
rdp_mppc_compressed = 0x20

abbrev pub rdp_mppc_reset : ℕ
rdp_mppc_reset = 0x40

abbrev pub rdp_mppc_flush : ℕ
rdp_mppc_flush = 0x80

abbrev pub rdp_mppc_dict_size : ℕ
rdp_mppc_dict_size = 65536

-- RDPCOMP: `hist` and the history offset.
pub record Rdpcomp : Type 0 where
  pub roff : ℕ
  pub hist : ℕ → ℕ

-- The bits that are read and not used yet: the top `walker_len` bits of `walker`, then data from `i`.
pub record Walk : Type 0 where
  pub walker : ℕ
  pub walker_len : ℕ
  pub i : ℕ

abbrev pub is_negative : ℕ → Bool
is_negative w = leb (2 ^ 31) w

-- `walker <<= n; walker_len -= n`.
abbrev pub consume : ℕ → Walk → Walk
consume n w = record w { walker = w.walker * 2 ^ n % 2 ^ 32; walker_len = w.walker_len - n }

abbrev pub store : (ℕ → ℕ) → ℕ → ℕ → ℕ → ℕ
store hist at v j = if j == at then v else hist j

module _ (data' : List ℕ) (clen : ℕ) where
  -- `if (i >= clen) return -1; ... data[i++]`.
  unfoldable pub next_byte : ℕ → Outcome ℕ
  next_byte i =
      if leb clen i
      then minus_one
      else elim (get_elem? data' i) [ none ↦ fault | some b ↦ value (b % 256) ]

  -- `walker = data[i++] << 24; walker_len = 8;`
  unfoldable pub fetch : Walk → Outcome Walk
  unfolding next_byte
  fetch w = do
    b ← next_byte w.i
    value (record { walker = b * 2 ^ 24; walker_len = 8; i = w.i + 1 })

  -- `walker |= (data[i++] & 0xff) << (24 - walker_len); walker_len += 8;`
  unfoldable pub refill : Walk → Outcome Walk
  unfolding next_byte
  refill w = do
    b ← next_byte w.i
    value (record {
      walker = bit_or w.walker (b * 2 ^ (24 - w.walker_len));
      walker_len = w.walker_len + 8;
      i = w.i + 1;
    })

  unfoldable pub fetch_if_empty : Walk → Outcome Walk
  fetch_if_empty w = if w.walker_len == 0 then fetch w else value w

  unfoldable pub refill_below : ℕ → Walk → Outcome Walk
  refill_below n w = if ltb w.walker_len n then refill w else value w

  -- `for (; walker_len < n; walker_len += 8)`: n is 17 at most, so three rounds do.
  unfoldable pub refill_to : ℕ → Walk → Outcome Walk
  refill_to n w = do w ← refill_below n w; w ← refill_below n w; refill_below n w

  -- One arm of the switches: the bits needed, the bits of the prefix, the bits of the value, and
  -- what is added to it.
  unfoldable pub offset_arm : ℕ → ℕ → ℕ → ℕ → Walk → Outcome (ℕ × Walk)
  offset_arm need prefix bits base w = do
    w ← refill_to need w
    let w = consume prefix w
    value (w.walker / 2 ^ (32 - bits) + base, consume bits w)

  unfoldable pub decode_offset : Bool → Walk → Outcome (ℕ × Walk)
  decode_offset true w =
      let top = w.walker / 2 ^ 29 in
      if top == 7
      then offset_arm 9 3 6 0 w
      else if top == 6
      then offset_arm 11 3 8 64 w
      else if (top == 5) || (top == 4)
      then offset_arm 13 2 11 320 w
      else offset_arm 17 1 16 2368 w
  decode_offset false w =
      let top = w.walker / 2 ^ 30 in
      if top == 3
      then offset_arm 8 2 6 0 w
      else if top == 2
      then offset_arm 10 2 8 64 w
      else offset_arm 14 0 14 320 w

  -- The loop that counts the ones of a length's prefix; `match_bits` rounds at most.
  unfoldable pub length_prefix : ℕ → Walk → Outcome (ℕ × Walk)
  length_prefix zero w = minus_one
  length_prefix (suc match_bits) w = do
    w ← fetch_if_empty (consume 1 w)
    elim (is_negative w.walker) [
      | true ↦ length_prefix match_bits w
      | false ↦ value (suc match_bits, w)
    ]

  unfoldable pub decode_length : Bool → Walk → Outcome (ℕ × Walk)
  decode_length big w =
      if is_negative w.walker
      then (do
        (match_bits, w) ← length_prefix (if big then 14 else 11) w
        let bits = (if big then 16 else 13) - match_bits
        w ← refill_to bits (consume 1 w)
        value (w.walker / 2 ^ (32 - bits) % 2 ^ bits + 2 ^ bits, consume bits w))
      else value (3, consume 1 w)

-- `do { dict[next_offset++] = dict[k++]; } while (--match_len != 0);`
unfoldable pub copy_match : ℕ → (ℕ → ℕ) → ℕ → ℕ → Outcome (ℕ → ℕ)
copy_match zero hist next_offset k = value hist
copy_match (suc match_len) hist next_offset k =
    elim (leb rdp_mppc_dict_size k || leb rdp_mppc_dict_size next_offset) [
      | true ↦ fault
      | false ↦ copy_match match_len (store hist next_offset (hist k)) (next_offset + 1) (k + 1)
    ]

-- The state of the main loop.
pub record Expansion : Type 0 where
  pub walk : Walk
  pub next_offset : ℕ
  pub hist : ℕ → ℕ

-- A round of the main loop goes on, or leaves it.
pub data Turn : Type 0 where
  again over : Expansion → Turn

-- A literal: `if (next_offset >= RDP_MPPC_DICT_SIZE) return -1; dict[next_offset++] = ...`.
unfoldable pub put_literal : Expansion → Walk → ℕ → Outcome Turn
put_literal e w v =
    if leb rdp_mppc_dict_size e.next_offset
    then minus_one
    else value (
        again (record {
          walk = consume 8 w;
          next_offset = e.next_offset + 1;
          hist = store e.hist e.next_offset v;
        }))

module _ (data' : List ℕ) (clen : ℕ) (big : Bool) where
  -- A match: offset, length, and the copy inside the history.
  unfoldable pub put_match : Expansion → Walk → Outcome Turn
  put_match e w = do
    w ← refill_below data' clen (if big then 3 else 2) (consume 1 w)
    (match_off, w) ← decode_offset data' clen big w
    w ← fetch_if_empty data' clen w
    (match_len, w) ← decode_length data' clen big w
    if leb rdp_mppc_dict_size (e.next_offset + match_len) then minus_one else (do
      let k = (e.next_offset + 2 ^ 32 - match_off) % (if big then 65536 else 8192)
      hist ← copy_match match_len e.hist e.next_offset k
      value (again (record { walk = w; next_offset = e.next_offset + match_len; hist = hist })))

  -- The walker starts with two bits 1 0, or with 1 1.
  unfoldable pub put_marked : Expansion → Walk → Outcome Turn
  put_marked e w = do
    w ← fetch_if_empty data' clen (consume 1 w)
    if is_negative w.walker
        then put_match e w
        else (do w ← refill_below data' clen 8 w; put_literal e w (bit_or (w.walker / 2 ^ 24) 0x80))

  -- The walker starts with a bit 0; a walker of zeros at the end of the data is padding.
  unfoldable pub put_plain : Expansion → Walk → Outcome Turn
  put_plain e w =
      if ltb w.walker_len 8 && leb clen w.i
      then if w.walker == 0 then value (over (record e { walk = w })) else minus_one
      else (do w ← refill_below data' clen 8 w; put_literal e w (w.walker / 2 ^ 24))

  unfoldable pub turn : Expansion → Outcome Turn
  turn e = if (e.walk.walker_len == 0) && leb clen e.walk.i then value (over e) else (do
    w ← fetch_if_empty data' clen e.walk
    if is_negative w.walker then put_marked e w else put_plain e w)

  unfoldable pub expand_loop : ℕ → Expansion → Outcome Expansion
  expand_loop zero e = stuck
  expand_loop (suc fuel) e = do
    t ← turn e
    elim t [ again e' ↦ expand_loop fuel e' | over e' ↦ value e' ]

-- What the caller sees: g_mppc_dict, `*roff` and `*rlen`. A call that returns -1 is `minus_one`; what it
-- leaves in g_mppc_dict is mppc_left.
pub record Expanded : Type 0 where
  pub dict : Rdpcomp
  pub roff : ℕ
  pub rlen : ℕ

abbrev pub start : Rdpcomp → Expansion
start d = record {
  walk = record { walker = d.roff; walker_len = 0; i = 0 };
  next_offset = d.roff;
  hist = d.hist;
}

-- RDP_MPPC_RESET restarts the history's offset, RDP_MPPC_FLUSH clears the history as well.
unfoldable pub prepare : ℕ → Rdpcomp → Rdpcomp
prepare ctype d =
    let d : Rdpcomp = if has ctype rdp_mppc_reset then record d { roff = 0 } else d in
    if has ctype rdp_mppc_flush then record { roff = 0; hist = λ _. 0 } else d

-- Each round uses up a bit at least, so `8 * clen + 1` rounds are enough.
unfoldable pub mppc_expand : Rdpcomp → List ℕ → ℕ → ℕ → Outcome Expanded
mppc_expand d data' clen ctype =
    if not (has ctype rdp_mppc_compressed)
    then value (record { dict = d; roff = 0; rlen = clen })
    else (let d = prepare ctype d in
        if clen == 0 then value (record { dict = d; roff = d.roff; rlen = 0 }) else (do
          e ← expand_loop data' clen (has ctype rdp_mppc_big) (8 * clen + 1) (start d)
          value (record {
            dict = record { roff = e.next_offset; hist = e.hist };
            roff = d.roff;
            rlen = e.next_offset - d.roff;
          })))

-- The history where the loop returns -1: a round writes only behind its last test.
unfoldable pub left_loop : List ℕ → ℕ → Bool → ℕ → Expansion → ℕ → ℕ
left_loop data' clen big zero e = e.hist
left_loop data' clen big (suc fuel) e = elim (turn data' clen big e) [
  | value (again e') ↦ left_loop data' clen big fuel e'
  | value (over e') ↦ e'.hist
  | minus_one ↦ e.hist
  | fault ↦ e.hist
  | stuck ↦ e.hist
]

-- g_mppc_dict when mppc_expand returns -1: `*roff` is its offset then, and `*rlen` is 0.
unfoldable pub mppc_left : Rdpcomp → List ℕ → ℕ → ℕ → Rdpcomp
unfolding left_loop
mppc_left d data' clen ctype =
    let d = prepare ctype d in
    record d { hist = left_loop data' clen (has ctype rdp_mppc_big) (8 * clen + 1) (start d) }
