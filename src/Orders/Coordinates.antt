-- ===== src/Orders/Coordinates.antt =====
-- The coordinates of a DESTBLT order, absolute or as differences to those of the last one.
use app_network_rdesktop.Base.{
  ℕ, ◌+◌, ◌*◌, ◌/◌, ◌%◌, ◌^◌, ◌≡◌, ◌-◌, ◌<◌, ◌≤◌, refl, ◌∙◌, true, false, List, ◌∷◌, some, arith,
}
use app_network_rdesktop.Stream.{Stream, in_uint8s}
use app_network_rdesktop.Stream.Reading.{
  ahead, in_uint16_le_ahead, in_uint8_ahead, ahead-in_uint8s, ahead-in_uint8s_two,
}
use app_network_rdesktop.Orders.State.{DestbltOrder}
use app_network_rdesktop.Orders.Fields.{rdp_in_coord, widen}
use app_network_rdesktop.Orders.Blits.{parse_destblt}

-- A coordinate in the form that it is sent in: two bytes, or the difference to the last one.
abbrev pub coord_bytes : ℕ → List ℕ → List ℕ
coord_bytes v rest = v % 256 ∷ v / 256 ∷ rest

rdp_in_coord_absolute :
    (old v : ℕ) (s : Stream) (rest : List ℕ)
    → ahead s ≡ coord_bytes v rest
    → (rdp_in_coord false old s ≡ some (v, in_uint8s s 2)) × (ahead (in_uint8s s 2) ≡ rest)
unfolding rdp_in_coord
rdp_in_coord_absolute old v s rest h =
    let e : v % 256 + v / 256 * 2 ^ 8 ≡ v = omega arith in
    (
      in_uint16_le_ahead s (v % 256) (v / 256) h ∙ rw e refl,
      ahead-in_uint8s_two s (v % 256) (v / 256) h,
    )

rdp_in_coord_delta :
    (old change : ℕ) (s : Stream) (rest : List ℕ)
    → ahead s ≡ change ∷ rest
    → (rdp_in_coord true old s ≡ some ((old + widen change) % 2 ^ 16, in_uint8s s 1))
      × (ahead (in_uint8s s 1) ≡ rest)
unfolding rdp_in_coord
rdp_in_coord_delta old change s rest h =
    (rw (in_uint8_ahead s change h) refl, ahead-in_uint8s s change h)

-- The bytes of a destblt order with all its fields, the coordinates absolute.
abbrev pub absolute_bytes : DestbltOrder → List ℕ → List ℕ
absolute_bytes o rest =
    coord_bytes o.x (coord_bytes o.y (coord_bytes o.cx (coord_bytes o.cy (o.opcode ∷ rest))))

-- A difference: up to 127 on, or up to 128 back, which has a byte of its own, 256 less.
pub data Step : Type 0 where
  on : ℕ → Step
  back : ℕ → Step

abbrev pub IsStep : Step → Type 0
IsStep (on n) = n < 128
IsStep (back n) = (0 < n) × (n ≤ 128)

abbrev pub byte_of : Step → ℕ
byte_of (on n) = n
byte_of (back n) = 256 - n

-- A coordinate of 16 bits moved by a step.
abbrev pub stepped : ℕ → Step → ℕ
stepped v (on n) = (v + n) % 2 ^ 16
stepped v (back n) = (v + 2 ^ 16 - n) % 2 ^ 16

stepped_lem : (v : ℕ) (d : Step) → IsStep d → (v + widen (byte_of d)) % 2 ^ 16 ≡ stepped v d
stepped_lem v (on n) h = ground (arith, h)
stepped_lem v (back n) h = ground (arith, h)

abbrev pub moved : DestbltOrder → Step → Step → Step → Step → ℕ → DestbltOrder
moved o dx dy dcx dcy opcode = record {
  x = stepped o.x dx;
  y = stepped o.y dy;
  cx = stepped o.cx dcx;
  cy = stepped o.cy dcy;
  opcode = opcode;
}

-- Whatever the last order was: a destblt order that brings all fields, its coordinates absolute, is
-- read as the order that was sent, 9 bytes long.
pub parse_destblt-absolute :
    (o old : DestbltOrder) (s : Stream) (rest : List ℕ)
    → ahead s ≡ absolute_bytes o rest
    → parse_destblt 0x1f false old s ≡ some (o, in_uint8s s 9)
unfolding parse_destblt
parse_destblt-absolute o old s rest h =
    let (r1, h1) = rdp_in_coord_absolute old.x o.x s _ h in
    let (r2, h2) = rdp_in_coord_absolute old.y o.y (in_uint8s s 2) _ h1 in
    let (r3, h3) = rdp_in_coord_absolute old.cx o.cx (in_uint8s (in_uint8s s 2) 2) _ h2 in
    let (r4, h4) =
      rdp_in_coord_absolute old.cy o.cy (in_uint8s (in_uint8s (in_uint8s s 2) 2) 2) _ h3 in
    let r5 = in_uint8_ahead (in_uint8s (in_uint8s (in_uint8s (in_uint8s s 2) 2) 2) 2) o.opcode h4 in
    let total : s.p + 2 + 2 + 2 + 2 + 1 ≡ s.p + 9 = omega arith in
    rw (r1, r2, r3, r4, r5, total) refl

-- A destblt order that brings all fields, its coordinates as differences of one byte, moves the sides of
-- the last order by them, up to 127 on or up to 128 back, within 16 bits; it is 5 bytes long.
pub parse_destblt-delta :
    (old : DestbltOrder) (s : Stream) (dx dy dcx dcy : Step) (opcode : ℕ) (rest : List ℕ)
    → IsStep dx
    → IsStep dy
    → IsStep dcx
    → IsStep dcy
    → ahead s ≡ byte_of dx ∷ byte_of dy ∷ byte_of dcx ∷ byte_of dcy ∷ opcode ∷ rest
    → parse_destblt 0x1f true old s ≡ some (moved old dx dy dcx dcy opcode, in_uint8s s 5)
unfolding parse_destblt
parse_destblt-delta old s dx dy dcx dcy opcode rest kx ky kcx kcy h =
    let (r1, h1) = rdp_in_coord_delta old.x (byte_of dx) s _ h in
    let (r2, h2) = rdp_in_coord_delta old.y (byte_of dy) (in_uint8s s 1) _ h1 in
    let (r3, h3) = rdp_in_coord_delta old.cx (byte_of dcx) (in_uint8s (in_uint8s s 1) 1) _ h2 in
    let (r4, h4) =
      rdp_in_coord_delta old.cy (byte_of dcy) (in_uint8s (in_uint8s (in_uint8s s 1) 1) 1) _ h3 in
    let r5 = in_uint8_ahead (in_uint8s (in_uint8s (in_uint8s (in_uint8s s 1) 1) 1) 1) opcode h4 in
    let total : s.p + 1 + 1 + 1 + 1 + 1 ≡ s.p + 5 = omega arith in
    rw (r1, r2, r3, r4, r5, total)
      (λ i. some (
        record {
          x = stepped_lem old.x dx kx i;
          y = stepped_lem old.y dy ky i;
          cx = stepped_lem old.cx dcx kcx i;
          cy = stepped_lem old.cy dcy kcy i;
          opcode = opcode;
        },
        in_uint8s s 5,
      ))
