-- ===== src/Bitmap/Planes.antt =====
-- bitmap.c: bitmaps of 4 bytes per pixel, a plane of bytes after the other (process_plane), and
-- bitmap_decompress.
-- `out` is the picture by bytes, of which the program owns `area`. `color`, an int that is only added to
-- a byte, is kept modulo 2^8.
use app_network_rdesktop.Base.{
  ℕ, zero, suc, ◌+◌, ◌-◌, ◌*◌, ◌/◌, ◌%◌, ltb, leb, ◌==◌, has, ◌&&◌, if◌then◌else◌, List, Option,
  none, some, length,
}
use app_network_rdesktop.Bitmap.Endings.{Outcome, value, failed, outside, stuck, ◌>>=◌}
use app_network_rdesktop.Bitmap.Reading.{cval}
use app_network_rdesktop.Bitmap.{bitmap_decompress1, bitmap_decompress2, bitmap_decompress3}

pub record Plane : Type 0 where
  pub bytes : ℕ → ℕ
  pub i : ℕ
  pub out : ℕ
  pub indexw : ℕ
  pub color : ℕ

-- collen and replen.
pub record RunLengths : Type 0 where
  pub collen : ℕ
  pub replen : ℕ

unfoldable pub run_lengths : ℕ → RunLengths
run_lengths code =
    let replen = code % 16 in
    let collen = code / 16 % 16 in
    let revcode = replen * 16 + collen in
    if leb revcode 47 && leb 16 revcode
    then record { collen = 0; replen = revcode }
    else record { collen = collen; replen = replen }

-- The difference that a byte stands for: the last bit is its sign.
unfoldable pub difference : ℕ → ℕ
difference x = if has x 1 then (256 - (x / 2 + 1)) % 256 else x / 2

module _ (input : List ℕ) (area : ℕ) where
  -- The byte of the line before, or 0 in the first one, whose bytes are not differences.
  unfoldable pub last_byte : Option ℕ → Plane → Outcome ℕ
  last_byte none p = value 0
  last_byte (some last_line) p =
      let place = last_line + p.indexw * 4 in
      if ltb place area then value (p.bytes place) else outside

  -- `*out = x; out += 4; indexw++`, where `x` is the colour and the byte of the line before.
  unfoldable pub put_byte : Option ℕ → Plane → Outcome Plane
  unfolding last_byte
  put_byte last_line p = do
    x ← last_byte last_line p
    if ltb p.out area
        then value (record p {
          bytes = λ j. if j == p.out then (x + p.color) % 256 else p.bytes j;
          out = p.out + 4;
          indexw = p.indexw + 1;
        })
        else outside

  unfoldable pub colour_of : Option ℕ → ℕ → ℕ
  colour_of none b = b
  colour_of (some last_line) b = difference b

  -- `while (collen > 0)`.
  unfoldable pub put_colours : Option ℕ → ℕ → Plane → Outcome Plane
  unfolding put_byte cval
  put_colours last_line zero p = value p
  put_colours last_line (suc collen) p = do
    (b, i) ← cval input p.i
    p ← put_byte last_line (record p { i = i; color = colour_of last_line b })
    put_colours last_line collen p

  -- `while (replen > 0)`.
  unfoldable pub put_repeats : Option ℕ → ℕ → Plane → Outcome Plane
  unfolding put_byte
  put_repeats last_line zero p = value p
  put_repeats last_line (suc replen) p = do p ← put_byte last_line p; put_repeats last_line replen p

  -- One code and its bytes.
  unfoldable pub put_runs : Option ℕ → Plane → Outcome Plane
  unfolding put_colours put_repeats cval
  put_runs last_line p = do
    (code, i) ← cval input p.i
    let r = run_lengths code
    p ← put_colours last_line r.collen (record p { i = i })
    put_repeats last_line r.replen p

  -- `while (indexw < width)`: each turn takes a byte of input at least, which ends.
  unfoldable pub plane_line : ℕ → ℕ → Option ℕ → Plane → Outcome Plane
  unfolding put_runs
  plane_line zero width last_line p = stuck
  plane_line (suc fuel) width last_line p =
      let rest = put_runs last_line p >>= plane_line fuel width last_line in
      if ltb p.indexw width then rest else value p

  -- `while (indexh < height)`, with `rows` still to come, the last one first in memory.
  unfoldable pub plane_lines : ℕ → ℕ → ℕ → Option ℕ → Plane → Outcome Plane
  unfolding plane_line
  plane_lines origin width zero last_line p = value p
  plane_lines origin width (suc rows) last_line p =
      let this_line = origin + rows * width * 4 in
      plane_line (suc (length input)) width last_line
        (record p { out = this_line; indexw = 0; color = 0 })
      >>= plane_lines origin width rows (some this_line)

  -- The picture with the plane, and where the input goes on.
  unfoldable pub process_plane : ℕ → ℕ → ℕ → (ℕ → ℕ) → ℕ → Outcome ((ℕ → ℕ) × ℕ)
  unfolding plane_lines
  process_plane i width height bytes origin = do
    p ←
        plane_lines origin width height none
          (record { bytes = bytes; i = i; out = origin; indexw = 0; color = 0 })
    value (p.bytes, p.i)

-- The four planes, the last byte of each pixel first.
unfoldable pub planes : (ℕ → ℕ) → ℕ → ℕ → List ℕ → ℕ → Outcome ((ℕ → ℕ) × ℕ)
unfolding process_plane
planes output width height input i = do
  let area = width * height * 4
  (output, i) ← process_plane input area i width height output 3
  (output, i) ← process_plane input area i width height output 2
  (output, i) ← process_plane input area i width height output 1
  process_plane input area i width height output 0

-- The picture by bytes, if the planes took all `size` bytes.
unfoldable pub bitmap_decompress4 : (ℕ → ℕ) → ℕ → ℕ → List ℕ → ℕ → Outcome (ℕ → ℕ)
unfolding planes cval
bitmap_decompress4 output width height input size = do
  (code, i) ← cval input 0
  (output, total_pro) ← if code == 0x10 then planes output width height input i else failed
  if size == total_pro then value output else failed

-- The picture, by pixels for 1 to 3 bytes per pixel and by bytes for 4.
unfoldable pub bitmap_decompress : (ℕ → ℕ) → ℕ → ℕ → List ℕ → ℕ → ℕ → Outcome (ℕ → ℕ)
bitmap_decompress output width height input size bpp =
    if bpp == 1
    then bitmap_decompress1 output width height input size
    else if bpp == 2
    then bitmap_decompress2 output width height input size
    else if bpp == 3
    then bitmap_decompress3 output width height input size
    else if bpp == 4
    then bitmap_decompress4 output width height input size
    else failed
