-- ===== src/Bitmap/Statements.antt =====
-- bitmap.c: what an order does to each pixel.
use Prim.Native.Nat.{bit_xor}
use app_network_rdesktop.Base.{
  ℕ, ◌+◌, ◌*◌, ◌%◌, true, false, ltb, ◌==◌, has, if◌then◌else◌, List, Option, none, some,
}
use app_network_rdesktop.Bitmap.Endings.{Outcome, value, outside, ◌>>=◌}
use app_network_rdesktop.Bitmap.Reading.{Run, white, reinked, cval, pixel_at}

module _ (area : ℕ) where
  -- `line[x] = v`.
  unfoldable pub put_pixel : ℕ → Run → Outcome Run
  put_pixel v r = elim r.line [
    | none ↦ outside
    | some l ↦
        if ltb (l + r.x) area
        then value (record r { out = λ j. if j == l + r.x then v else r.out j })
        else outside
  ]

  -- `prevline[x]`, and what stands for it if there is no line before: `without`.
  unfoldable pub above : (ℕ → ℕ) → ℕ → Run → Outcome ℕ
  above f without r = elim r.prevline [
    | none ↦ value without
    | some p ↦ if ltb (p + r.x) area then value (f (r.out (p + r.x))) else outside
  ]

  unfoldable pub fill : Run → Outcome Run
  unfolding above put_pixel
  fill r = do v ← above (λ v. v) 0 r; put_pixel v r

  unfoldable pub mix_pixel : Run → Outcome Run
  unfolding above put_pixel
  mix_pixel r = do v ← above (λ v. bit_xor v r.inks.mix) r.inks.mix r; put_pixel v r

  unfoldable pub bicolour_pixel : Run → Outcome Run
  unfolding put_pixel
  bicolour_pixel r =
      let k = r.inks in
      if k.bicolour
      then put_pixel k.colour2 (reinked r (record k { bicolour = false }))
      else put_pixel k.colour1
          (record r { count = r.count + 1; inks = record k { bicolour = true } })

module _ (input : List ℕ) where
  -- MASK_UPDATE.
  unfoldable pub mask_update : Run → Outcome Run
  unfolding cval
  mask_update r =
      let k = r.inks in
      let mixmask = k.mixmask * 2 % 256 in
      if mixmask == 0
      then (if k.fom_mask == 0
          then (do
            (mask, i) ← cval input r.i
            value (record r { i = i; inks = record k { mask = mask; mixmask = 1 } }))
          else value (reinked r (record k { mask = k.fom_mask; mixmask = 1 })))
      else value (reinked r (record k { mixmask = mixmask }))

  module _ (area : ℕ) where
    unfoldable pub fill_or_mix : Run → Outcome Run
    unfolding mask_update fill mix_pixel
    fill_or_mix r = do
      r ← mask_update r
      if has r.inks.mask r.inks.mixmask then mix_pixel area r else fill area r

    module _ (bpp : ℕ) where
      unfoldable pub copy_pixel : Run → Outcome Run
      unfolding pixel_at put_pixel
      copy_pixel r = do (v, i) ← pixel_at input bpp r.i; put_pixel area v (record r { i = i })

      -- What an order does to each pixel; none for an opcode that is not known.
      unfoldable pub statement : ℕ → Option (Run → Outcome Run)
      unfolding fill mix_pixel fill_or_mix put_pixel copy_pixel bicolour_pixel
      statement opcode =
          if opcode == 0
          then some (fill area)
          else if opcode == 1
          then some (mix_pixel area)
          else if opcode == 2
          then some fill_or_mix
          else if opcode == 3
          then some (λ r. put_pixel area r.inks.colour2 r)
          else if opcode == 4
          then some copy_pixel
          else if opcode == 8
          then some (bicolour_pixel area)
          else if opcode == 0xd
          then some (put_pixel area (white bpp))
          else if opcode == 0xe
          then some (put_pixel area 0)
          else none
