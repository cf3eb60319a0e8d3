-- ===== src/Bitmap/Unrolling.antt =====
-- REPEAT of bitmap.c: its loop over eight pixels at a time does what the loop over one pixel does.
use app_network_rdesktop.Base.{
  ℕ, zero, suc, ◌+◌, ◌-◌, ◌≤◌, ◌<◌, ◌≡◌, refl, sym, ap, ◌∙◌, inl, inr, ltb, leb, ◌&&◌, List, some,
  arith, Bool-cases, lt→ltb,
}
use app_network_rdesktop.Bitmap.Endings.{
  Outcome, ◌>>=◌, Ends, Ends-bind, Ends-weaken, bind_agree, bind_assoc,
}
use app_network_rdesktop.Bitmap.Reading.{Run}
use app_network_rdesktop.Bitmap.Statements.{statement}
use app_network_rdesktop.Bitmap.Keeping.{Kept, statement-Ends}
use app_network_rdesktop.Bitmap.{draw_pixel, unroll8, repeat_ones, repeat_eights, repeat}

-- `n + 1` turns in a row.
turns : ℕ → (Run → Outcome Run) → Run → Outcome Run
turns zero act r = draw_pixel act r
turns (suc n) act r = draw_pixel act r >>= turns n act

unroll8-turns : (act : Run → Outcome Run) (r : Run) → unroll8 act r ≡ turns 7 act r
unfolding unroll8 turns
unroll8-turns act r = refl

-- One pixel further, with a pixel less to draw.
abbrev pub Further : ℕ → Run → Run → Type 0
Further n r r' = (r'.x ≡ r.x + n) × (r.count ≤ r'.count + n)

module _ (width : ℕ) (act : Run → Outcome Run)
    (keeps : (r : Run) → Ends (Unit {0}) (Kept r) (act r)) where
  draw_pixel-Further : (r : Run) → Ends (Unit {0}) (Further 1 r) (draw_pixel act r)
  unfolding draw_pixel
  draw_pixel-Further r =
      Ends-bind (Unit {0}) (Kept r) (Further 1 r) (act r) _ (keeps r)
        λ r' k. (omega (arith, k.x), omega (arith, k.count))

  turns-Further : (n : ℕ) (r : Run) → Ends (Unit {0}) (Further (suc n) r) (turns n act r)
  unfolding turns
  turns-Further zero r = draw_pixel-Further r
  turns-Further (suc n) r =
      Ends-bind (Unit {0}) (Further 1 r) (Further (suc (suc n)) r) (draw_pixel act r) _
        (draw_pixel-Further r)
        λ r' k.
          Ends-weaken (Unit {0}) (Further (suc n) r') (Further (suc (suc n)) r) (turns n act r')
            (turns-Further n r') λ r'' k'. (omega arith, omega arith)

  -- A turn of the loop over one pixel.
  ones_turn :
      (fuel : ℕ) (r : Run)
      → 0 < r.count
      → r.x < width
      → repeat_ones width (suc fuel) act r ≡ (draw_pixel act r >>= repeat_ones width fuel act)
  unfolding repeat_ones
  ones_turn fuel r h k = rw (lt→ltb 0 r.count h, lt→ltb r.x width k) refl

  -- Any fuel that is enough gives the same.
  ones_fuel :
      (f g : ℕ) (r : Run)
      → width - r.x < f
      → width - r.x < g
      → repeat_ones width f act r ≡ repeat_ones width g act r
  unfolding repeat_ones
  ones_fuel zero g r h k = absurd (omega arith)
  ones_fuel (suc f) zero r h k = absurd (omega arith)
  ones_fuel (suc f) (suc g) r h k = elim (Bool-cases (ltb 0 r.count && ltb r.x width)) [
    | inl e ↦ rw e (
        bind_agree (Unit {0}) (Further 1 r) (draw_pixel act r) (repeat_ones width f act)
          (repeat_ones width g act) (draw_pixel-Further r)
          λ r' k'.
            let below : r.x < width = ground (arith, e) in
            ones_fuel f g r' (omega arith) (omega arith))
    | inr e ↦ rw e refl
  ]

  -- Turns that the tests would pass are turns of the loop.
  turns_ones :
      (n fuel : ℕ) (r : Run)
      → n < r.count
      → r.x + n < width
      → (turns n act r >>= repeat_ones width fuel act) ≡ repeat_ones width (suc n + fuel) act r
  unfolding turns
  turns_ones zero fuel r h k =
      let one : suc 0 + fuel ≡ suc fuel = omega arith in
      rw one (sym (ones_turn fuel r (omega arith) (omega arith)))
  turns_ones (suc n) fuel r h k =
      let more : suc (suc n) + fuel ≡ suc (suc n + fuel) = omega arith in
      bind_assoc (draw_pixel act r) (turns n act) (repeat_ones width fuel act)
      ∙ bind_agree (Unit {0}) (Further 1 r) (draw_pixel act r) _
          (repeat_ones width (suc n + fuel) act) (draw_pixel-Further r)
          (λ r' k'. turns_ones n fuel r' (omega arith) (omega arith))
      ∙ sym (ones_turn (suc n + fuel) r (omega arith) (omega arith))
      ∙ ap (λ f. repeat_ones width f act r) (sym more)

  eights_ones :
      (fuel : ℕ) (r : Run)
      → width - r.x < fuel
      → repeat_eights width fuel act r ≡ repeat_ones width (suc (width - r.x)) act r
  unfolding repeat_eights
  eights_ones zero r h = absurd (omega arith)
  eights_ones (suc fuel) r h = elim (Bool-cases (leb 8 r.count && ltb (r.x + 8) width)) [
    | inl e ↦
        let many : 8 ≤ r.count = ground (arith, e) in
        let wide : r.x + 8 < width = ground (arith, e) in
        let enough : ℕ = suc (width - r.x) in
        rw (e, unroll8-turns act r)
          (bind_agree (Unit {0}) (Further 8 r) (turns 7 act r) (repeat_eights width fuel act)
              (repeat_ones width enough act) (turns-Further 7 r)
              (λ r' k'.
                eights_ones fuel r' (omega arith)
                ∙ ones_fuel (suc (width - r'.x)) enough r' (omega arith) (omega arith))
            ∙ turns_ones 7 enough r (omega arith) (omega arith)
            ∙ ones_fuel (8 + enough) enough r (omega arith) (omega arith))
    | inr e ↦ rw e refl
  ]

  repeat-ones : (r : Run) → repeat width act r ≡ repeat_ones width (suc (width - r.x)) act r
  unfolding repeat
  repeat-ones r = eights_ones (suc (width - r.x)) r (omega arith)

-- For every known opcode, wherever the line and the input are and however much is left to draw: REPEAT
-- with its loop over eight pixels at a time is the loop over one pixel at a time, faults included.
pub repeat_lem :
    (input : List ℕ) (area bpp width opcode : ℕ) (act : Run → Outcome Run) (r : Run)
    → statement input area bpp opcode ≡ some act
    → repeat width act r ≡ repeat_ones width (suc (width - r.x)) act r
repeat_lem input area bpp width opcode act r e =
    repeat-ones width act
      (λ r'. statement-Ends (Unit {0}) width area input bpp opcode act r' e (inr tt)) r
