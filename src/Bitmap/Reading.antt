-- ===== src/Bitmap/Reading.antt =====
-- bitmap.c: the state of a decompression, and how the head of an order is read.
-- `out` is the picture by pixels, a pixel the number of its bytes with the first one lowest; `line` and
-- `prevline` are places in the picture, `i` is one in the input.
use app_network_rdesktop.Base.{
  ℕ, zero, suc, ◌+◌, ◌-◌, ◌*◌, ◌/◌, ◌%◌, ◌^◌, Bool, true, false, not, ltb, leb, ◌==◌, ◌||◌, ◌&&◌,
  if◌then◌else◌, List, Option, none, some, get_elem?,
}
use app_network_rdesktop.Bitmap.Endings.{Outcome, value, over_read, ◌>>=◌}

-- What an order draws with.
pub record Inks : Type 0 where
  pub colour1 : ℕ
  pub colour2 : ℕ
  pub mix : ℕ
  pub mask : ℕ
  pub mixmask : ℕ
  pub fom_mask : ℕ
  pub bicolour : Bool
  pub insertmix : Bool
  pub lastopcode : Option ℕ

pub record Run : Type 0 where
  pub out : ℕ → ℕ
  pub line : Option ℕ
  pub prevline : Option ℕ
  pub x : ℕ
  pub height : ℕ
  pub i : ℕ
  pub count : ℕ
  pub inks : Inks

-- An order's first byte and count.
pub record BitmapOrder : Type 0 where
  pub opcode : ℕ
  pub count : ℕ
  pub i : ℕ

-- All bits of a pixel.
abbrev pub white : ℕ → ℕ
white bpp = 256 ^ bpp - 1

abbrev pub is_null : Option ℕ → Bool
is_null none = true
is_null (some p) = false

abbrev pub is_fill : Option ℕ → Bool
is_fill none = false
is_fill (some opcode) = opcode == 0

abbrev pub reinked : Run → Inks → Run
reinked r k = record r { inks = k }

module _ (input : List ℕ) where
  -- CVAL.
  unfoldable pub cval : ℕ → Outcome (ℕ × ℕ)
  cval i = elim (get_elem? input i) [ none ↦ over_read | some b ↦ value (b, i + 1) ]

  -- CVAL, CVAL2 or three times CVAL.
  unfoldable pub pixel_at : ℕ → ℕ → Outcome (ℕ × ℕ)
  unfolding cval
  pixel_at zero i = value (0, i)
  pixel_at (suc n) i = do (b, i) ← cval i; (v, i) ← pixel_at n i; value (b + 256 * v, i)

  -- "Handle strange cases for counts".
  unfoldable pub strange_count : ℕ → ℕ → ℕ → ℕ → Outcome BitmapOrder
  unfolding cval
  strange_count opcode count offset i =
      let isfillormix = opcode == 2 || opcode == 7 in
      if count == 0
      then (do
        (b, i) ← cval i
        value (record { opcode = opcode; count = b + (if isfillormix then 1 else offset); i = i }))
      else value
          (record { opcode = opcode; count = if isfillormix then count * 8 else count; i = i })

  -- A count of 16 bits.
  unfoldable pub long_count : ℕ → ℕ → Outcome BitmapOrder
  unfolding cval
  long_count opcode i = do
    (a, i) ← cval i
    (b, i) ← cval i
    value (record { opcode = opcode; count = a + b * 2 ^ 8; i = i })

  -- "Handle different opcode forms".
  unfoldable pub order_form : ℕ → ℕ → Outcome BitmapOrder
  unfolding strange_count long_count
  order_form code i =
      let top = code / 16 in
      let low = code % 16 in
      if leb 0xc top && leb top 0xe
      then strange_count (top - 6) low 16 i
      else if top == 0xf
      then (if ltb low 9
          then long_count low i
          else value (record { opcode = low; count = if ltb low 0xb then 8 else 1; i = i }))
      else strange_count (top / 2) (code % 32) 32 i

  unfoldable pub read_order : ℕ → Outcome BitmapOrder
  unfolding cval order_form
  read_order i = do (code, i) ← cval i; order_form code i

  module _ (bpp width : ℕ) where
    -- "Read preliminary data": the opcode that draws, what it draws with, and the input behind it.
    unfoldable pub preliminary : BitmapOrder → Run → Outcome (ℕ × Run)
    unfolding pixel_at
    preliminary o r =
        let k = r.inks in
        if o.opcode == 0
        then value (
          0,
          reinked r (record k {
            insertmix =
                k.insertmix || (is_fill k.lastopcode && not ((r.x == width) && is_null r.prevline));
          }),
        )
        else if o.opcode == 8
        then (do
          (c1, i) ← pixel_at bpp r.i
          (c2, i) ← pixel_at bpp i
          value (8, record r { i = i; inks = record k { colour1 = c1; colour2 = c2 } }))
        else if o.opcode == 3
        then (do
          (c2, i) ← pixel_at bpp r.i
          value (3, record r { i = i; inks = record k { colour2 = c2 } }))
        else if o.opcode == 6 || o.opcode == 7
        then (do
          (m, i) ← pixel_at bpp r.i
          value (o.opcode - 5, record r { i = i; inks = record k { mix = m } }))
        else if o.opcode == 9
        then value (2, reinked r (record k { mask = 0x03; fom_mask = 3 }))
        else if o.opcode == 0x0a
        then value (2, reinked r (record k { mask = 0x05; fom_mask = 5 }))
        else value (o.opcode, r)
