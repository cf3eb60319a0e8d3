-- ===== src/Mppc/Progress.antt =====
-- Every piece of mppc_expand that returns a value has used up bits, never added some.
use Prim.Native.Nat.{bit_or}
use app_network_rdesktop.Base.{
  ℕ, ◌+◌, ◌-◌, ◌*◌, ◌^◌, ◌≤◌, ◌<◌, ◌⊎◌, inl, inr, Bool, true, false, ltb, leb, ◌==◌, List, arith,
  length, get_elem?, get_elem?-lt, Bool-cases, Option-cases, not_leb→lt, eqb→eq, not_eqb→ne,
}
use app_network_rdesktop.Mppc.Endings.{Outcome, value, minus_one, fault, stuck, ◌>>=◌}
use app_network_rdesktop.Mppc.{
  Walk, next_byte, fetch, refill, fetch_if_empty, refill_below, refill_to, offset_arm,
  decode_offset,
}

-- The end of a piece, where `F` says what is known at a fault: a value with P, or `return -1`.
abbrev pub Ends : {A : Type 0} → Type 0 → (A → Type 0) → Outcome A → Type 0
Ends F P (value a) = P a
Ends F P minus_one = Unit {0}
Ends F P fault = F
Ends F P stuck = ⊥

pub Ends-bind :
    {A B : Type 0} (F : Type 0) (P : A → Type 0) (Q : B → Type 0) (m : Outcome A)
    (f : A → Outcome B)
    → Ends F P m
    → ((a : A) → P a → Ends F Q (f a))
    → Ends F Q (m >>= f)
Ends-bind F P Q (value a) f h k = k a h
Ends-bind F P Q minus_one f h k = tt
Ends-bind F P Q fault f h k = h
Ends-bind F P Q stuck f h k = absurd h

pub Ends-weaken :
    {A : Type 0} (F : Type 0) (P Q : A → Type 0) (m : Outcome A)
    → Ends F P m
    → ((a : A) → P a → Q a)
    → Ends F Q m
Ends-weaken F P Q (value a) h k = k a h
Ends-weaken F P Q minus_one h k = tt
Ends-weaken F P Q fault h k = h
Ends-weaken F P Q stuck h k = absurd h

-- How many bits are not used yet, of `clen` bytes.
abbrev pub bits : ℕ → Walk → ℕ
bits clen w = w.walker_len + 8 * (clen - w.i)

module _ (F : Type 0) (data' : List ℕ) (clen : ℕ) (held : (clen ≤ length data') ⊎ F) where
  next_byte-Ends : (i : ℕ) → Ends F (λ b. i < clen) (next_byte data' clen i)
  unfolding next_byte
  next_byte-Ends i = elim (Bool-cases (leb clen i)) [
    | inl e ↦ rw e tt
    | inr e ↦ rw e (elim held [
      | inl long ↦
          let (b, got) = get_elem?-lt data' i (omega (arith, not_leb→lt clen i e)) in
          rw (got, next_byte) (not_leb→lt clen i e)
      | inr f ↦ elim (Option-cases (get_elem? data' i)) [
        | inl missing ↦ rw (missing, next_byte) f
        | inr (b, got) ↦ rw (got, next_byte) (not_leb→lt clen i e)
      ]
    ])
  ]

  pub fetch_if_empty-Ends :
      (w : Walk)
      → Ends F
          (λ w'. (bits clen w' ≤ bits clen w) × (0 < w'.walker_len))
          (fetch_if_empty data' clen w)
  unfolding fetch_if_empty fetch
  fetch_if_empty-Ends w = elim (Bool-cases (w.walker_len == 0)) [
    | inl e ↦ rw e (
        Ends-bind F (λ b. w.i < clen) (λ w'. (bits clen w' ≤ bits clen w) × (0 < w'.walker_len))
          (next_byte data' clen w.i)
          (λ b. value (record { walker = b * 2 ^ 24; walker_len = 8; i = w.i + 1 }))
          (next_byte-Ends w.i) (λ b h. omega (arith, eqb→eq w.walker_len 0 e)))
    | inr e ↦ rw e (omega (arith, not_eqb→ne w.walker_len 0 e))
  ]

  pub refill_below-Ends :
      (n : ℕ) (w : Walk)
      → Ends F
          (λ w'. (bits clen w' ≤ bits clen w) × (w.walker_len ≤ w'.walker_len))
          (refill_below data' clen n w)
  unfolding refill_below refill
  refill_below-Ends n w = elim (Bool-cases (ltb w.walker_len n)) [
    | inl e ↦ rw e (
        Ends-bind F (λ b. w.i < clen)
          (λ w'. (bits clen w' ≤ bits clen w) × (w.walker_len ≤ w'.walker_len))
          (next_byte data' clen w.i)
          (λ b. value (record {
            walker = bit_or w.walker (b * 2 ^ (24 - w.walker_len));
            walker_len = w.walker_len + 8;
            i = w.i + 1;
          }))
          (next_byte-Ends w.i) (λ b h. omega arith))
    | inr e ↦ rw e (omega arith)
  ]

  pub refill_to-Ends :
      (n : ℕ) (w : Walk) → Ends F (λ w'. bits clen w' ≤ bits clen w) (refill_to data' clen n w)
  unfolding refill_to
  refill_to-Ends n w =
      Ends-bind F _ (λ w'. bits clen w' ≤ bits clen w) (refill_below data' clen n w) _
        (refill_below-Ends n w)
        λ w1 h1.
          Ends-bind F _ (λ w'. bits clen w' ≤ bits clen w) (refill_below data' clen n w1) _
            (refill_below-Ends n w1)
            λ w2 h2.
              Ends-weaken F _ (λ w'. bits clen w' ≤ bits clen w) (refill_below data' clen n w2)
                (refill_below-Ends n w2) (λ w3 h3. omega arith)

  offset_arm-Ends :
      (need prefix n base : ℕ) (w : Walk)
      → Ends F (λ r. bits clen r.1 ≤ bits clen w) (offset_arm data' clen need prefix n base w)
  unfolding offset_arm
  offset_arm-Ends need prefix n base w =
      Ends-bind F (λ w'. bits clen w' ≤ bits clen w) (λ r. bits clen r.1 ≤ bits clen w)
        (refill_to data' clen need w) _ (refill_to-Ends need w) (λ w1 h. omega arith)

  pub decode_offset-Ends :
      (big : Bool) (w : Walk)
      → Ends F (λ r. bits clen r.1 ≤ bits clen w) (decode_offset data' clen big w)
  unfolding decode_offset
  decode_offset-Ends true w = ground (
    arith,
    offset_arm-Ends 9 3 6 0 w,
    offset_arm-Ends 11 3 8 64 w,
    offset_arm-Ends 13 2 11 320 w,
    offset_arm-Ends 17 1 16 2368 w,
  )
  decode_offset-Ends false w =
      ground (
        arith,
        offset_arm-Ends 8 2 6 0 w,
        offset_arm-Ends 10 2 8 64 w,
        offset_arm-Ends 14 0 14 320 w,
      )
