-- ===== src/Orders/Secondary.antt =====
-- Where a secondary order ends, and what its handler gets.
use app_network_rdesktop.Base.{
  ℕ, ◌+◌, ◌-◌, ◌*◌, ◌/◌, ◌%◌, ◌^◌, ◌<◌, ◌≡◌, refl, Bool, Bool-cases, inl, inr, leb, List, ◌∷◌, ◌++◌,
  Option, none, some, ◌>>=◌, arith,
}
use app_network_rdesktop.Stream.{bytes16_le, in_uint8s}
use app_network_rdesktop.Stream.Reading.{
  ahead, in_uint16_le_ahead, in_uint8_ahead, ahead-in_uint8s_two,
}
use app_network_rdesktop.Cache.Bitmaps.{Bmpcache}
use app_network_rdesktop.Orders.Dispatch.{Session, Work, next_order, process_secondary_order}

-- The length on the wire of an order with `size` bytes behind its type: 7 less, as a signed number.
abbrev pub length_field : ℕ → ℕ
length_field size = (size + 2 ^ 16 - 7) % 2 ^ 16

next_order-length_field :
    (p size : ℕ) → size < 2 ^ 15 + 7 → next_order p (length_field size) ≡ some (p + size)
unfolding next_order
next_order-length_field p size h = elim (Bool-cases (leb 7 size)) [
  | inl long ↦ ground (arith, long, h)
  | inr short ↦ ground (arith, short, h)
]

-- Behind the handler: its state, read on at `next`, and its calls.
abbrev pub read_on : ℕ → Option Work → Option Work
read_on next none = none
read_on next (some (e, calls)) = some (record e { s = record (e.s) { p = next } }, calls)

read_on_lem :
    (next : ℕ) (m : Option Work)
    → (m >>= λ done. some (record done.0 { s = record (done.0.s) { p = next } }, done.1))
      ≡ read_on next m
read_on_lem next none = refl
read_on_lem next (some (e, calls)) = refl

module _ (load : ℕ → ℕ → Bmpcache → Option Bmpcache) (persistent : ℕ → Bool)
    (handle : ℕ → ℕ → Session → Option Work) where
  -- A secondary order of `size` bytes, up to 2^15 + 6, behind its header of 5 bytes: the handler of its
  -- type gets the flags and the input behind the header, and the order does what the handler does, but
  -- that the next order is read directly behind those bytes, wherever the handler stopped; it faults
  -- only where the handler does. Orders of less than 7 bytes have a negative length on the wire.
  pub process_secondary_order_lem :
      (e : Session) (size f0 f1 type : ℕ) (rest : List ℕ)
      → size < 2 ^ 15 + 7
      → ahead e.s ≡ bytes16_le (length_field size) ++ (f0 ∷ f1 ∷ type ∷ rest)
      → process_secondary_order load persistent handle e
        ≡ read_on
            (e.s.p + 5 + size)
            (handle type (f0 + f1 * 2 ^ 8) (record e { s = in_uint8s (e.s) 5 }))
  unfolding process_secondary_order
  process_secondary_order_lem e size f0 f1 type rest small h =
      let n = length_field size in
      let l0 = n % 256 in
      let l1 = n / 256 % 256 in
      let h2 = ahead-in_uint8s_two e.s l0 l1 h in
      let h4 = ahead-in_uint8s_two (in_uint8s (e.s) 2) f0 f1 h2 in
      let len : l0 + l1 * 2 ^ 8 ≡ n = omega arith in
      let five : e.s.p + 2 + 2 + 1 ≡ e.s.p + 5 = omega arith in
      rw
        (
          in_uint16_le_ahead e.s l0 l1 h,
          in_uint16_le_ahead (in_uint8s (e.s) 2) f0 f1 h2,
          in_uint8_ahead (in_uint8s (in_uint8s (e.s) 2) 2) type h4,
          len,
          five,
          next_order-length_field (e.s.p + 5) size small,
        )
        (read_on_lem (e.s.p + 5 + size)
          (handle type (f0 + f1 * 2 ^ 8) (record e { s = in_uint8s (e.s) 5 })))
