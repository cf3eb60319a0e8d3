-- ===== src/Mppc/Safety.antt =====
-- The main loop of mppc_expand: the rounds that it takes, and the bounds of its arrays.
use native.Mathlib.Nat.{pow-le-pow_right, mod-lt}
use app_network_rdesktop.Base.{
  ℕ, zero, suc, ◌+◌, ◌-◌, ◌/◌, ◌%◌, ◌^◌, ◌≤◌, ◌<◌, ◌≡◌, refl, ◌⊎◌, inl, inr, Bool, true, false, ltb,
  leb, ◌==◌, ◌&&◌, ◌||◌, if◌then◌else◌, List, arith, length, Bool-cases, not_leb→lt,
}
use app_network_rdesktop.Mppc.Progress.{
  Ends, Ends-bind, Ends-weaken, bits, fetch_if_empty-Ends, refill_below-Ends, refill_to-Ends,
  decode_offset-Ends,
}
use app_network_rdesktop.Mppc.{
  Walk, Expansion, Turn, again, over, consume, is_negative, fetch_if_empty, refill_below, refill_to,
  length_prefix, decode_length, decode_offset, copy_match, put_literal, put_match, put_marked,
  put_plain, turn, expand_loop, store,
}

copy_match-Ends :
    (F : Type 0) (len : ℕ) (hist : ℕ → ℕ) (next k : ℕ)
    → next + len ≤ 65536
    → (k + len ≤ 65536) ⊎ F
    → Ends F (λ _. Unit {0}) (copy_match len hist next k)
unfolding copy_match
copy_match-Ends F zero hist next k h r = tt
copy_match-Ends F (suc len) hist next k h r = elim (Bool-cases (leb 65536 k || leb 65536 next)) [
  | inl e ↦ rw (e, copy_match) (elim r [ inl room ↦ absurd (ground arith) | inr f ↦ f ])
  | inr e ↦
      rw (e, copy_match)
        (copy_match-Ends F len (store hist next (hist k)) (next + 1) (k + 1) (omega arith)
          (elim r [ inl room ↦ inl (omega arith) | inr f ↦ inr f ]))
]

copy_room :
    {F : Type 0} (big : Bool) (a len : ℕ)
    → (big ≡ false) ⊎ F
    → (big ≡ true) ⊎ (len < 8192)
    → (a % (if big then 65536 else 8192) + len ≤ 65536) ⊎ F
copy_room true a len (inl wrong) s = absurd (grind arith)
copy_room true a len (inr f) s = inr f
copy_room false a len w (inl wrong) = absurd (grind arith)
copy_room false a len w (inr s) = inl (omega arith)

module _ (F : Type 0) (data' : List ℕ) (clen : ℕ) (held : (clen ≤ length data') ⊎ F) where
  length_prefix-Ends :
      (m : ℕ) (w : Walk)
      → Ends F
          (λ r. (bits clen r.1 ≤ bits clen w) × (1 ≤ r.0) × (r.0 ≤ m))
          (length_prefix data' clen m w)
  unfolding length_prefix
  length_prefix-Ends zero w = tt
  length_prefix-Ends (suc m) w =
      Ends-bind F (λ w'. (bits clen w' ≤ bits clen (consume 1 w)) × (0 < w'.walker_len))
        (λ r. (bits clen r.1 ≤ bits clen w) × (1 ≤ r.0) × (r.0 ≤ suc m))
        (fetch_if_empty data' clen (consume 1 w)) _
        (fetch_if_empty-Ends F data' clen held (consume 1 w))
        λ w1 h. elim (Bool-cases (is_negative w1.walker)) [
          | inl e ↦ rw e (
              Ends-weaken F _ _ (length_prefix data' clen m w1) (length_prefix-Ends m w1)
                (λ r k. omega arith))
          | inr e ↦ rw e (omega arith)
        ]

  pow_positive : (b : ℕ) → 0 < 2 ^ b
  pow_positive b =
      pow-le-pow_right (let e : 0 < 2 = omega arith in e) (let e : 0 ≤ b = omega arith in e)

  pow_bound : (b : ℕ) → b ≤ 12 → 2 ^ b ≤ 4096
  pow_bound b h = pow-le-pow_right (let e : 0 < 2 = omega arith in e) h

  decode_length-Ends :
      (big : Bool) (w : Walk)
      → Ends F
          (λ r. (bits clen r.1 ≤ bits clen w) × ((big ≡ true) ⊎ (r.0 < 8192)))
          (decode_length data' clen big w)
  unfolding decode_length
  decode_length-Ends big w = elim (Bool-cases (is_negative w.walker)) [
    | inr e ↦ rw e (omega arith, inr (omega arith))
    | inl e ↦ rw e (
        Ends-bind F _ _ (length_prefix data' clen (if big then 14 else 11) w) _
          (length_prefix-Ends (if big then 14 else 11) w)
          λ r h.
            Ends-bind F _ _ (refill_to data' clen ((if big then 16 else 13) - r.0) (consume 1 r.1))
              _ (refill_to-Ends F data' clen held ((if big then 16 else 13) - r.0) (consume 1 r.1))
              λ w1 k. (omega arith, short big r.0 w1.walker h.1))
  ]
    where
      short :
          (big : Bool) (m v : ℕ)
          → 1 ≤ m
          → (big ≡ true)
            ⊎ (v / 2 ^ (32 - ((if big then 16 else 13) - m)) % 2 ^ ((if big then 16 else 13) - m)
                  + 2 ^ ((if big then 16 else 13) - m)
                < 8192)
      short true m v h = inl refl
      short false m v h =
          let b = 13 - m in
          let few : 13 - m ≤ 12 = omega arith in
          let below : v / 2 ^ (32 - b) % 2 ^ b < 2 ^ b =
            mod-lt (v / 2 ^ (32 - b)) (pow_positive b) in
          let small = pow_bound b few in inr (omega (arith, below, small))

  abbrev Advanced : Expansion → Turn → Type 0
  Advanced e (again e') =
      (bits clen e'.walk < bits clen e.walk)
      × (e.next_offset ≤ e'.next_offset)
      × (e'.next_offset ≤ 65536)
  Advanced e (over e') = (e.next_offset ≤ e'.next_offset) × (e'.next_offset ≤ 65536)

  put_literal-Ends :
      (e : Expansion) (w : Walk) (v : ℕ)
      → 0 < w.walker_len
      → bits clen w ≤ bits clen e.walk
      → Ends F (Advanced e) (put_literal e w v)
  unfolding put_literal
  put_literal-Ends e w v h k = elim (Bool-cases (leb 65536 e.next_offset)) [
    | inl full ↦ rw full tt
    | inr room ↦ rw room (omega (arith, not_leb→lt 65536 e.next_offset room))
  ]

  module _ (big : Bool) (within : (big ≡ false) ⊎ F) where
    put_match-Ends :
        (e : Expansion) (w : Walk)
        → 0 < w.walker_len
        → bits clen w ≤ bits clen e.walk
        → Ends F (Advanced e) (put_match data' clen big e w)
    unfolding put_match
    put_match-Ends e w h k =
        Ends-bind F _ (Advanced e) (refill_below data' clen (if big then 3 else 2) (consume 1 w)) _
          (refill_below-Ends F data' clen held (if big then 3 else 2) (consume 1 w))
          λ w1 h1.
            Ends-bind F _ (Advanced e) (decode_offset data' clen big w1) _
              (decode_offset-Ends F data' clen held big w1)
              λ off h2.
                Ends-bind F _ (Advanced e) (fetch_if_empty data' clen off.1) _
                  (fetch_if_empty-Ends F data' clen held off.1)
                  λ w3 h3.
                    Ends-bind F _ (Advanced e) (decode_length data' clen big w3) _
                      (decode_length-Ends big w3)
                      λ len h4. elim (Bool-cases (leb 65536 (e.next_offset + len.0))) [
                        | inl full ↦ rw full tt
                        | inr room ↦ rw room (
                            Ends-bind F (λ _. Unit {0}) (Advanced e)
                              (copy_match len.0 e.hist e.next_offset
                                ((e.next_offset + 2 ^ 32 - off.0) % (if big then 65536 else 8192)))
                              _
                              (copy_match-Ends F len.0 e.hist e.next_offset _
                                (omega (arith, not_leb→lt 65536 (e.next_offset + len.0) room))
                                (copy_room big _ len.0 within h4.1))
                              λ hist' _.
                                omega (arith, not_leb→lt 65536 (e.next_offset + len.0) room))
                      ]

    put_marked-Ends :
        (e : Expansion) (w : Walk)
        → 0 < w.walker_len
        → bits clen w ≤ bits clen e.walk
        → Ends F (Advanced e) (put_marked data' clen big e w)
    unfolding put_marked
    put_marked-Ends e w h k =
        Ends-bind F _ (Advanced e) (fetch_if_empty data' clen (consume 1 w)) _
          (fetch_if_empty-Ends F data' clen held (consume 1 w))
          λ w1 h1. elim (Bool-cases (is_negative w1.walker)) [
            | inl neg ↦ rw neg (put_match-Ends e w1 h1.1 (omega arith))
            | inr pos ↦ rw pos (
                Ends-bind F _ (Advanced e) (refill_below data' clen 8 w1) _
                  (refill_below-Ends F data' clen held 8 w1)
                  (λ w2 h2. put_literal-Ends e w2 _ (omega arith) (omega arith)))
          ]

    put_plain-Ends :
        (e : Expansion) (w : Walk)
        → 0 < w.walker_len
        → bits clen w ≤ bits clen e.walk
        → e.next_offset ≤ 65536
        → Ends F (Advanced e) (put_plain data' clen big e w)
    unfolding put_plain
    put_plain-Ends e w h k n = elim (Bool-cases (ltb w.walker_len 8 && leb clen w.i)) [
      | inl dry ↦
          rw dry
            (elim (Bool-cases (w.walker == 0)) [ inl z ↦ rw z (omega arith) | inr z ↦ rw z tt ])
      | inr more ↦ rw more (
          Ends-bind F _ (Advanced e) (refill_below data' clen 8 w) _
            (refill_below-Ends F data' clen held 8 w)
            (λ w2 h2. put_literal-Ends e w2 _ (omega arith) (omega arith)))
    ]

    turn-Ends :
        (e : Expansion) → e.next_offset ≤ 65536 → Ends F (Advanced e) (turn data' clen big e)
    unfolding turn
    turn-Ends e n = elim (Bool-cases ((e.walk.walker_len == 0) && leb clen e.walk.i)) [
      | inl dry ↦ rw dry (omega arith)
      | inr more ↦ rw more (
          Ends-bind F _ (Advanced e) (fetch_if_empty data' clen e.walk) _
            (fetch_if_empty-Ends F data' clen held e.walk)
            λ w h. elim (Bool-cases (is_negative w.walker)) [
              | inl neg ↦ rw neg (put_marked-Ends e w h.1 h.0)
              | inr pos ↦ rw pos (put_plain-Ends e w h.1 h.0 n)
            ])
    ]

    pub expand_loop-Ends :
        (fuel : ℕ) (e : Expansion)
        → bits clen e.walk < fuel
        → e.next_offset ≤ 65536
        → Ends F
            (λ e'. (e.next_offset ≤ e'.next_offset) × (e'.next_offset ≤ 65536))
            (expand_loop data' clen big fuel e)
    unfolding expand_loop
    expand_loop-Ends zero e h n = absurd (omega arith)
    expand_loop-Ends (suc fuel) e h n =
        Ends-bind F (Advanced e) _ (turn data' clen big e) _ (turn-Ends e n) (elim [
          | again e' ↦ λ a.
              Ends-weaken F _ _ (expand_loop data' clen big fuel e')
                (expand_loop-Ends fuel e' (omega arith) a.2) (λ e'' b. omega arith)
          | over e' ↦ λ a. a
        ])
