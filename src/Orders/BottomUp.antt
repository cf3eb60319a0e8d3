-- ===== src/Orders/BottomUp.antt =====
-- Raw bitmap orders: the rows are turned upside down, and the bitmap is put into its cell.
use app_network_rdesktop.Base.{
  ℕ, zero, suc, ◌+◌, ◌-◌, ◌*◌, ◌/◌, ◌^◌, ◌≤◌, ◌<◌, ◌≡◌, refl, sym, ap, ◌∙◌, Bool, false, ◌==◌,
  leb-true, lt→ltb, Bool-cases, eqb→eq, inl, inr, ◌&&◌, Option, if◌then◌else◌, List, [], ◌∷◌, ◌++◌,
  some, arith, length, take, drop, window, paste, window-add, window-paste, drop-drop, length-drop,
  length-take,
}
use app_network_rdesktop.Stream.{Stream, in_uint8s}
use app_network_rdesktop.Stream.Reading.{
  ahead, in_uint8_ahead, ahead-in_uint8s, in_uint16_le_ahead, ahead-in_uint8s_two,
}
use mathlib.Core.List.{map}
use app_network_rdesktop.Cache.Bitmaps.{Bmpcache, destroy_bitmap, cache_put_bitmap, bmpcache_cells}
use app_network_rdesktop.Orders.Draw.{World, ui_create_bitmap, cache_effect}
use app_network_rdesktop.Orders.Dispatch.{Session, Work}
use app_network_rdesktop.Orders.Pictures.{
  bytes_at, invert_rows, put_picture, store_bitmap, process_raw_bmpcache,
}

-- The rows of `row` bytes, the last one first.
abbrev pub bottom_up : ℕ → ℕ → List ℕ → List ℕ
bottom_up row zero data' = []
bottom_up row (suc height) data' = bottom_up row height (drop row data') ++ take row data'

window_agree_from :
    (f g : ℕ → ℕ) (at n : ℕ) → ((j : ℕ) → at ≤ j → f j ≡ g j) → window f at n ≡ window g at n
window_agree_from f g at zero h = refl
window_agree_from f g at (suc n) h =
    rw (h at (omega arith), window_agree_from f g (at + 1) n (λ j k. h j (omega arith))) refl

pub paste_above :
    (to : ℕ → ℕ) (at : ℕ) (bytes : List ℕ) (j : ℕ)
    → at + length bytes ≤ j
    → paste to at bytes j ≡ to j
paste_above to at [] j h = refl
paste_above to at (b ∷ bytes) j h =
    let e : (j == at) ≡ false = ground arith in
    paste_above (λ j. if j == at then b else to j) (at + 1) bytes j (omega arith) ∙ rw e refl

last_line :
    (row : ℕ) (inverted after : ℕ → ℕ) (left : ℕ) (line : List ℕ)
    → length line ≡ row
    → ((j : ℕ) → left * row ≤ j → after j ≡ paste inverted (left * row) line j)
    → window after (0 + left * row) row ≡ line
last_line row inverted after left line size kept =
    let at : 0 + left * row ≡ left * row = omega arith in
    rw at (
      window_agree_from after (paste inverted (left * row) line) (left * row) row kept
      ∙ ap (window (paste inverted (left * row) line) (left * row)) (sym size)
      ∙ window-paste inverted (left * row) line)

times_suc : (n row : ℕ) → suc n * row ≡ n * row + row
times_suc n row = grind arith

module _ (s : Stream) (data' row height : ℕ) where
  invert_row :
      (left y : ℕ) (inverted : ℕ → ℕ)
      → y + suc left ≡ height
      → data' + y * row + row ≤ length s.buf
      → invert_rows s data' height row (suc left) y inverted
        ≡ invert_rows s data' height row left
            (y + 1)
            (paste inverted (left * row) (take row (drop (data' + y * row) s.buf)))
  unfolding invert_rows bytes_at
  invert_row left y inverted e fits =
      let place : height - y - 1 ≡ left = omega arith in
      rw (leb-true (data' + y * row + row) (length s.buf) fits, place) refl

  join_rows :
      (left y : ℕ) (inverted after : ℕ → ℕ)
      → data' + y * row + row ≤ length s.buf
      → window after 0 (left * row) ≡ bottom_up row left (drop (data' + (y + 1) * row) s.buf)
      → ((j : ℕ)
          → left * row ≤ j
          → after j ≡ paste inverted (left * row) (take row (drop (data' + y * row) s.buf)) j)
      → window after 0 (suc left * row) ≡ bottom_up row (suc left) (drop (data' + y * row) s.buf)
  join_rows left y inverted after fits rows kept =
      let line = take row (drop (data' + y * row) s.buf) in
      let n : suc left * row ≡ left * row + row = times_suc left row in
      let m : data' + (y + 1) * row ≡ data' + y * row + row = grind arith in
      let size : length line ≡ row = omega (
        arith,
        length-take row (drop (data' + y * row) s.buf),
        length-drop (data' + y * row) s.buf,
        fits,
      ) in
      ap (window after 0) n
      ∙ window-add after 0 (left * row) row
      ∙ ap (λ (xs : List ℕ). xs ++ window after (0 + left * row) row) rows
      ∙ ap (λ (xs : List ℕ). bottom_up row left (drop (data' + (y + 1) * row) s.buf) ++ xs)
          (last_line row inverted after left line size kept)
      ∙ ap (λ (xs : List ℕ). bottom_up row left xs ++ line)
          (ap (λ k. drop k s.buf) m ∙ sym (drop-drop (data' + y * row) row s.buf))

  invert_rows-bottom_up :
      (left y : ℕ) (inverted : ℕ → ℕ)
      → y + left ≡ height
      → data' + y * row + left * row ≤ length s.buf
      → (after : ℕ → ℕ) × (invert_rows s data' height row left y inverted ≡ some after)
        × (window after 0 (left * row) ≡ bottom_up row left (drop (data' + y * row) s.buf))
        × ((j : ℕ) → left * row ≤ j → after j ≡ inverted j)
  unfolding invert_rows
  invert_rows-bottom_up zero y inverted e held =
      let nothing : 0 * row ≡ 0 = omega arith in
      (inverted, refl, ap (window inverted 0) nothing, λ j h. refl)
  invert_rows-bottom_up (suc left) y inverted e held =
      let line = take row (drop (data' + y * row) s.buf) in
      let n : suc left * row ≡ left * row + row = times_suc left row in
      let m : data' + (y + 1) * row ≡ data' + y * row + row = grind arith in
      let fits : data' + y * row + row ≤ length s.buf = omega (arith, held, n) in
      let size : length line ≤ row =
        omega (arith, length-take row (drop (data' + y * row) s.buf)) in
      let (after, done, rows, kept) =
        invert_rows-bottom_up left (y + 1) (paste inverted (left * row) line) (omega arith)
          (omega (arith, held, m, n)) in
      (
        after,
        invert_row left y inverted e fits ∙ done,
        join_rows left y inverted after fits rows kept,
        λ j h.
            kept j (omega (arith, h, n))
            ∙ paste_above inverted (left * row) line j (omega (arith, h, n, size)),
      )

-- The rows at the pointer, turned over.
inverted_ahead :
    (s : Stream) (row height : ℕ) (fresh : ℕ → ℕ) (rows : List ℕ)
    → ahead s ≡ rows
    → height * row ≤ length rows
    → 0 < length rows
    → (after : ℕ → ℕ) × (invert_rows s s.p height row height 0 fresh ≡ some after)
      × (window after 0 (height * row) ≡ bottom_up row height rows)
inverted_ahead s row height fresh rows h held some_rows =
    let none_yet : s.p + 0 * row ≡ s.p = grind arith in
    let (after, done, is, kept) =
      invert_rows-bottom_up s s.p row height height 0 fresh (omega arith)
        (omega (arith, none_yet, held, ap length h, length-drop s.p s.buf, some_rows)) in
    (
      after,
      done,
      is ∙ ap (λ k. bottom_up row height (drop k s.buf)) none_yet ∙ ap (bottom_up row height) h,
    )

raw_bitmap_put :
    (persistent : ℕ → Bool) (create : ℕ → ℕ → List ℕ → ℕ) (fresh : ℕ → ℕ) (e : Session)
    (cache_id pad width height bpp b0 b1 i0 i1 : ℕ) (rows : List ℕ)
    → ahead e.s ≡ cache_id ∷ pad ∷ width ∷ height ∷ bpp ∷ b0 ∷ b1 ∷ i0 ∷ i1 ∷ rows
    → height * (width * ((bpp + 7) / 8)) ≤ length rows
    → 0 < length rows
    → process_raw_bmpcache persistent create fresh e
      ≡ put_picture persistent create fresh cache_id
          (i0 + i1 * 2 ^ 8)
          width
          height
          (bottom_up (width * ((bpp + 7) / 8)) height rows)
          (record e { s = in_uint8s (e.s) (9 + (b0 + b1 * 2 ^ 8)) })
unfolding process_raw_bmpcache
raw_bitmap_put persistent create fresh e cache_id pad width height bpp b0 b1 i0 i1 rows h held
      some_rows =
    let s = e.s in
    let h1 = ahead-in_uint8s s cache_id h in
    let s2 = in_uint8s (in_uint8s s 1) 1 in
    let h2 = ahead-in_uint8s (in_uint8s s 1) pad h1 in
    let h3 = ahead-in_uint8s s2 width h2 in
    let s3 = in_uint8s s2 1 in
    let h4 = ahead-in_uint8s s3 height h3 in
    let s4 = in_uint8s s3 1 in
    let h5 = ahead-in_uint8s s4 bpp h4 in
    let s5 = in_uint8s s4 1 in
    let h7 = ahead-in_uint8s_two s5 b0 b1 h5 in
    let s7 = in_uint8s s5 2 in
    let h9 = ahead-in_uint8s_two s7 i0 i1 h7 in
    let s9 = in_uint8s s7 2 in
    let (after, done, is) =
      inverted_ahead s9 (width * ((bpp + 7) / 8)) height fresh rows h9 held some_rows in
    let place : s9.p + (b0 + b1 * 2 ^ 8) ≡ s.p + (9 + (b0 + b1 * 2 ^ 8)) = omega arith in
    rw
      (
        in_uint8_ahead s cache_id h,
        in_uint8_ahead s2 width h2,
        in_uint8_ahead s3 height h3,
        in_uint8_ahead s4 bpp h4,
        in_uint16_le_ahead s5 b0 b1 h5,
        in_uint16_le_ahead s7 i0 i1 h7,
        done,
        is,
      )
      (ap
        (λ p.
          put_picture persistent create fresh cache_id (i0 + i1 * 2 ^ 8) width height
            (bottom_up (width * ((bpp + 7) / 8)) height rows) (record e { s = record s { p = p } }))
        place)

-- What a cache id and a cell hold after the order: the new bitmap in its place, all others as before.
abbrev pub holds : World → ℕ → ℕ → ℕ → ℕ → ℕ → ℕ
holds w id idx new j k = if j == id && k == idx then new else (w.bitmaps j).bitmap k

-- The order's work: where the stream goes on, what is drawn, which calls are made, and what the caches
-- hold.
pub record Put (e : Session) (id idx width height next new : ℕ) (picture : List ℕ) (r : Option Work)
    : Type 0 where
  pub w : World
  pub answer :
      r
      ≡ some (
        record e { s = record (e.s) { p = next }; w = w },
        ui_create_bitmap width height picture
            ∷ map cache_effect (
                if (e.w.bitmaps id).bitmap idx == 0
                then []
                else destroy_bitmap ((e.w.bitmaps id).bitmap idx) ∷ []),
      )
  pub caches : w.caches ≡ e.w.caches
  pub held : (j k : ℕ) → (w.bitmaps j).bitmap k ≡ holds e.w id idx new j k

put_picture-Put :
    (persistent : ℕ → Bool) (create : ℕ → ℕ → List ℕ → ℕ) (fresh : ℕ → ℕ) (e : Session)
    (id idx width height next : ℕ) (picture : List ℕ)
    → id < 3
    → idx < bmpcache_cells
    → persistent id ≡ false
    → Put e id idx width height next (create width height picture) picture (
        put_picture persistent create fresh id idx width height picture
          (record e { s = record (e.s) { p = next } }))
unfolding put_picture store_bitmap cache_put_bitmap
put_picture-Put persistent create fresh e id idx width height next picture h k volatile =
    let new = create width height picture in
    let b = e.w.bitmaps id in
    let c : Bmpcache = record b { bitmap = λ i. if i == idx then new else b.bitmap i } in
    record {
      w = record (e.w) { bitmaps = λ j. if j == id then c else e.w.bitmaps j };
      answer = rw (lt→ltb id 3 h, volatile, lt→ltb idx bmpcache_cells k) refl;
      caches = refl;
      held = λ j k. held_at (e.w) id idx new j k;
    }
  where
    held_at :
        (w : World) (id idx new j k : ℕ)
        → (let b = w.bitmaps id in
            let c : Bmpcache = record b { bitmap = λ i. if i == idx then new else b.bitmap i } in
            (if j == id then c else w.bitmaps j).bitmap k)
          ≡ holds w id idx new j k
    held_at w id idx new j k = elim (Bool-cases (j == id)) [
      | inl t ↦ rw (t, sym (eqb→eq j id t)) refl
      | inr f ↦ rw f refl
    ]

-- A raw bitmap order with its header and all its rows, of a byte at least, in memory, for a cell of a
-- cache that is not persistent: the user interface is given the rows with the last one first, with the
-- width and the height of the order, and the bitmap that it makes of them is what that cell of that
-- cache holds afterwards. All other cells hold what they held, the bitmap that stood in the cell is given
-- back if there was one, and reading goes on behind the size that the order gives.
pub process_raw_bmpcache_lem :
    (persistent : ℕ → Bool) (create : ℕ → ℕ → List ℕ → ℕ) (fresh : ℕ → ℕ) (e : Session)
    (cache_id pad width height bpp b0 b1 i0 i1 : ℕ) (rows : List ℕ)
    → ahead e.s ≡ cache_id ∷ pad ∷ width ∷ height ∷ bpp ∷ b0 ∷ b1 ∷ i0 ∷ i1 ∷ rows
    → height * (width * ((bpp + 7) / 8)) ≤ length rows
    → 0 < length rows
    → cache_id < 3
    → i0 + i1 * 2 ^ 8 < bmpcache_cells
    → persistent cache_id ≡ false
    → (let picture = bottom_up (width * ((bpp + 7) / 8)) height rows in
        Put e cache_id
          (i0 + i1 * 2 ^ 8)
          width
          height
          (e.s.p + (9 + (b0 + b1 * 2 ^ 8)))
          (create width height picture)
          picture
          (process_raw_bmpcache persistent create fresh e))
process_raw_bmpcache_lem persistent create fresh e cache_id pad width height bpp b0 b1 i0 i1 rows h
      held some_rows id_in cell_in volatile =
    let put =
      put_picture-Put persistent create fresh e cache_id (i0 + i1 * 2 ^ 8) width height
        (e.s.p + (9 + (b0 + b1 * 2 ^ 8))) (bottom_up (width * ((bpp + 7) / 8)) height rows) id_in
        cell_in volatile in
    record {
      w = put.w;
      answer =
          raw_bitmap_put persistent create fresh e cache_id pad width height bpp b0 b1 i0 i1 rows h
            held some_rows
          ∙ put.answer;
      caches = put.caches;
      held = put.held;
    }
