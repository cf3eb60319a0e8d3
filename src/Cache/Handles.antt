-- ===== src/Cache/Handles.antt =====
-- Moving a bitmap in its list changes no handle; what is stored is found again.
use app_network_rdesktop.Base.{
  ℕ, ◌-◌, ◌<◌, ◌≡◌, ◌≢◌, refl, ap, ◌∙◌, inl, inr, Bool, true, false, ltb, ◌==◌, if◌then◌else◌,
  Option, none, some, Bool-cases, Option-cases, lt→ltb, arith,
}
use app_network_rdesktop.Cache.Bitmaps.{
  Bmpcache, same, set_next, set_previous, target, unlink, insert, cache_bump_bitmap,
  cache_get_bitmap, cache_put_bitmap, give_back, bmpcache_cells, bump_count,
}

set_next-bitmap : (at to : Option ℕ) (c : Bmpcache) → (set_next at to c).bitmap ≡ c.bitmap
set_next-bitmap none to c = refl
set_next-bitmap (some p) to c = refl

set_previous-bitmap : (at to : Option ℕ) (c : Bmpcache) → (set_previous at to c).bitmap ≡ c.bitmap
set_previous-bitmap none to c = refl
set_previous-bitmap (some n) to c = refl

unlink-bitmap : (idx : ℕ) (c : Bmpcache) → (unlink idx c).0.bitmap ≡ c.bitmap
unfolding unlink
unlink-bitmap idx c = elim (Option-cases (c.next idx)) [
  | inl e ↦ rw (e, unlink) refl
  | inr (n, e) ↦
      rw (e, unlink) (set_next-bitmap (c.previous idx) (some n) (record c { count = c.count - 1 }))
]

insert-bitmap :
    (idx : ℕ) (c : Bmpcache) (at : Option ℕ × Option ℕ) → (insert idx c at).bitmap ≡ c.bitmap
unfolding insert
insert-bitmap idx c at = set_previous-bitmap at.1 (some idx) _ ∙ set_next-bitmap at.0 (some idx) _

pub cache_bump_bitmap-bitmap :
    (persistent : Bool) (idx : ℕ) (bump : Option ℕ) (c : Bmpcache)
    → (cache_bump_bitmap persistent idx bump c).bitmap ≡ c.bitmap
unfolding cache_bump_bitmap
cache_bump_bitmap-bitmap false idx bump c = refl
cache_bump_bitmap-bitmap true idx bump c = elim (Bool-cases (same c.mru idx)) [
  | inl e ↦ rw e refl
  | inr e ↦ rw e (
      insert-bitmap idx (unlink idx c).0
        (target bump (unlink idx c).0 (unlink idx c).1.0 (unlink idx c).1.1)
      ∙ unlink-bitmap idx c)
]

-- A bitmap that the cache has is found without a load, persistent or not, and every other handle of
-- the cache stays where it is.
pub cache_get_bitmap-held :
    (load : ℕ → Bmpcache → Option Bmpcache) (persistent : Bool) (idx : ℕ) (c : Bmpcache)
    → idx < bmpcache_cells
    → c.bitmap idx ≢ 0
    → ((cache_get_bitmap load persistent idx c).0 ≡ c.bitmap idx)
      × ((cache_get_bitmap load persistent idx c).1.bitmap ≡ c.bitmap)
unfolding cache_get_bitmap
cache_get_bitmap-held load persistent idx c h held =
    let e1 : ltb idx bmpcache_cells ≡ true = lt→ltb idx bmpcache_cells h in
    let e2 : (c.bitmap idx == 0) ≡ false = ground arith in
    let e3 = cache_bump_bitmap-bitmap persistent idx (some bump_count) c in
    rw (e1, e2) (ap (λ table. table idx) e3, e3)

-- In a cache that is not persistent, a bitmap stored at a cell is the one found there, no other cell
-- changes, and the handle that stood in the cell, if there was one, is given back.
pub cache_get_bitmap-cache_put_bitmap :
    (load : ℕ → Bmpcache → Option Bmpcache) (idx new : ℕ) (c : Bmpcache)
    → idx < bmpcache_cells
    → new ≢ 0
    → (after : Bmpcache) × (cache_put_bitmap false idx new c
        ≡ some (after, give_back (c.bitmap idx)))
      × ((cache_get_bitmap load false idx after).0 ≡ new)
      × ((j : ℕ) → j ≢ idx → after.bitmap j ≡ c.bitmap j)
unfolding cache_put_bitmap
cache_get_bitmap-cache_put_bitmap load idx new c h set' =
    let e1 : ltb idx bmpcache_cells ≡ true = lt→ltb idx bmpcache_cells h in
    let after : Bmpcache = record c { bitmap = λ j. if j == idx then new else c.bitmap j } in
    let here : after.bitmap idx ≡ new = ground arith in
    let there = cache_get_bitmap-held load false idx after h (ground arith) in
    rw e1 (after, refl, there.0 ∙ here, λ j k. ground arith)
