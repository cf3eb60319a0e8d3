-- ===== src/Orders/Points.antt =====
-- orders.c: the points of a polygon or polyline, which are sent as differences. `data'` has MAX_DATA
-- bytes; a read behind them is a fault.
use app_network_rdesktop.Base.{
  ℕ, zero, suc, ◌+◌, ◌-◌, ◌*◌, ◌/◌, ◌%◌, ◌^◌, Bool, true, false, has, ltb, ◌==◌, if◌then◌else◌,
  List, [], ◌∷◌, Option, none, some, ◌>>=◌, get_elem?,
}

abbrev pub max_data : ℕ
max_data = 256

-- `value` as the 16 bits that the point keeps of it, before a second byte.
abbrev pub delta_head : ℕ → ℕ
delta_head value = if has value 0x40 then value % 64 + (2 ^ 16 - 64) else value % 64

unfoldable pub parse_delta : List ℕ → ℕ → Option (ℕ × ℕ)
parse_delta buffer offset = do
  value ← get_elem? buffer offset
  elim (has value 0x80) [
    | false ↦ some (delta_head value, offset + 1)
    | true ↦ (do
      low ← get_elem? buffer (offset + 1)
      some (delta_head value * 2 ^ 8 % 2 ^ 16 + low, offset + 2))
  ]

-- A coordinate that the flags leave out is 0.
unfoldable pub point_delta : Bool → List ℕ → ℕ → Option (ℕ × ℕ)
point_delta true buffer offset = some (0, offset)
point_delta false buffer offset = parse_delta buffer offset

-- `if ((next - 1) % 4 == 0) flags = data[index++];`
unfoldable pub point_flags : List ℕ → ℕ → ℕ → ℕ → Option (ℕ × ℕ)
point_flags buffer next index flags = elim ((next - 1) % 4 == 0) [
  | true ↦ (do flags ← get_elem? buffer index; some (flags, index + 1))
  | false ↦ some (flags, index)
]

-- The loop, with `left` points still to come: the points, or nothing where the data ends too early.
-- At most 255 points come, so `next < 256` always holds.
unfoldable pub read_points : ℕ → List ℕ → ℕ → ℕ → ℕ → ℕ → ℕ → Option (Option (List (ℕ × ℕ)))
read_points zero buffer datasize next index data' flags = some (some [])
read_points (suc left) buffer datasize next index data' flags = elim (ltb data' datasize) [
  | false ↦ some none
  | true ↦ (do
    (flags, index) ← point_flags buffer next index flags
    (x, data') ← point_delta (has flags 0x80) buffer data'
    (y, data') ← point_delta (has flags 0x40) buffer data'
    rest ← read_points left buffer datasize (next + 1) index data' (flags * 4 % 256)
    some (elim rest [ none ↦ none | some points ↦ some ((x, y) ∷ points) ]))
]

-- All points, from the first one on: `points[0]` is the order's own.
unfoldable pub order_points : ℕ → ℕ → ℕ → List ℕ → ℕ → Option (Option (List (ℕ × ℕ)))
order_points x y npoints buffer datasize = do
  rest ← read_points npoints buffer datasize 1 0 ((npoints - 1) / 4 + 1) 0
  some (elim rest [ none ↦ none | some points ↦ some ((x, y) ∷ points) ])
