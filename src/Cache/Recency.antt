-- ===== src/Cache/Recency.antt =====
-- cache.c: the list of a bitmap cache, when a bitmap is put into a free cell.
use app_network_rdesktop.Base.{
  ℕ, ◌-◌, ◌<◌, ◌≡◌, refl, ap, sym, ◌∙◌, inl, inr, Bool, Option, true, false, ltb, ◌==◌,
  if◌then◌else◌, List, [], ◌∷◌, ◌++◌, none, some, Bool-cases, lt→ltb, ltb→lt, arith, length,
  length-append, drop,
}
use app_network_rdesktop.Cache.Handles.{cache_bump_bitmap-bitmap}
use app_network_rdesktop.Cache.Bitmaps.{
  Bmpcache, Effect, destroy_bitmap, touch_bitmap, link, same, unlink, insert, cache_bump_bitmap,
  cache_evict_bitmap, cache_put_bitmap, bmpcache_cells, bmpcache2_c2_cells,
}
use app_network_rdesktop.Cache.Order.{
  head_of, last_of, Absent, Listed, link_here, Linked-outside, Linked-previous, Linked-append,
  Distinct-append, last-append, Absent-last_other, last_cases,
}

bump_top :
    (c : Bmpcache) (idx : ℕ)
    → same c.mru idx ≡ false
    → c.next idx ≡ none
    → cache_bump_bitmap true idx none c ≡ insert idx c (c.mru, none)
unfolding cache_bump_bitmap
bump_top c idx h n = rw (h, n, unlink) refl

insert_first :
    (c : Bmpcache) (idx : ℕ) → Listed c [] → Listed (insert idx c (none, none)) (idx ∷ [])
unfolding insert
insert_first c idx l = record {
  first = refl;
  last = refl;
  linked = (link_here c.previous idx none, link_here c.next idx none, tt);
  distinct = (tt, tt);
  counted = omega (arith, l.counted);
}

insert_last :
    (c : Bmpcache) (x : ℕ) (xs : List ℕ) (m idx : ℕ)
    → Listed c (x ∷ xs)
    → Absent idx (x ∷ xs)
    → last_of (x ∷ xs) ≡ some m
    → Listed (insert idx c (some m, none)) ((x ∷ xs) ++ (idx ∷ []))
unfolding insert
insert_last c x xs m idx l a e = record {
  first = l.first;
  last = sym (last-append idx (x ∷ xs));
  linked = Linked-append c.next c.previous none (x ∷ xs) m idx a l.distinct e l.linked;
  distinct = Distinct-append idx (x ∷ xs) a l.distinct;
  counted = omega (arith, l.counted, length-append (x ∷ xs) (idx ∷ []));
}

-- A bitmap that is not in the list and has no link goes to its end.
cache_bump_bitmap-Listed :
    (c : Bmpcache) (xs : List ℕ) (idx : ℕ)
    → Listed c xs
    → Absent idx xs
    → c.next idx ≡ none
    → Listed (cache_bump_bitmap true idx none c) (xs ++ (idx ∷ []))
cache_bump_bitmap-Listed c xs idx l a n =
    let other : same c.mru idx ≡ false = rw l.last (Absent-last_other idx xs a) in
    let top : cache_bump_bitmap true idx none c ≡ insert idx c (last_of xs, none) =
      bump_top c idx other n ∙ ap (λ at. insert idx c (at, none)) l.last in
    rw top (go xs l a)
  where
    go :
        (xs : List ℕ)
        → Listed c xs
        → Absent idx xs
        → Listed (insert idx c (last_of xs, none)) (xs ++ (idx ∷ []))
    go [] l a = insert_first c idx l
    go (x ∷ xs) l a = let (m, e) = last_cases x xs in rw e (insert_last c x xs m idx l a e)

-- Eviction takes the first of two or more bitmaps off the list.
cache_evict_bitmap-Listed :
    (c : Bmpcache) (x y : ℕ) (xs : List ℕ)
    → Listed c (x ∷ y ∷ xs)
    → (after : Bmpcache) × (cache_evict_bitmap true c
        ≡ some (after, destroy_bitmap (c.bitmap x) ∷ touch_bitmap x 0 ∷ []))
      × Listed after (y ∷ xs)
      × ((j : ℕ) → after.bitmap j ≡ (if j == x then 0 else c.bitmap j))
unfolding cache_evict_bitmap
cache_evict_bitmap-Listed c x y xs l =
    rw (l.first, l.linked.1)
      (
        record c {
          count = c.count - 1;
          bitmap = λ j. if j == x then 0 else c.bitmap j;
          lru = some y;
          previous = link c.previous y none;
        },
        refl,
        record {
          first = refl;
          last = l.last;
          linked = (
            link_here c.previous y none,
            l.linked.2.1,
            Linked-previous c.next c.previous (some y) xs y none l.distinct.1.0 l.linked.2.2,
          );
          distinct = l.distinct.1;
          counted = omega (arith, l.counted);
        },
        λ j. refl,
      )

-- What stays in the list: all, or all but the least recently used where they are too many.
abbrev pub within_limit : List ℕ → List ℕ
within_limit xs = if ltb bmpcache2_c2_cells (length xs) then drop 1 xs else xs

-- The least recently used one, where they are too many.
abbrev pub overflow : List ℕ → Option ℕ
overflow xs = if ltb bmpcache2_c2_cells (length xs) then head_of xs else none

-- What goes out when a cell is evicted: its handle is destroyed and its stamp cleared.
abbrev pub evictions : Bmpcache → Option ℕ → List Effect
evictions c none = []
evictions c (some x) = destroy_bitmap (c.bitmap x) ∷ touch_bitmap x 0 ∷ []

module _ (c : Bmpcache) (idx new : ℕ) where
  abbrev stored : Bmpcache
  stored = record c {
    bitmap = λ j. if j == idx then new else c.bitmap j;
    previous = link c.previous idx none;
    next = link c.next idx none;
  }

  abbrev bumped : Bmpcache
  bumped = cache_bump_bitmap true idx none stored

  module _ (xs : List ℕ) (l : Listed c xs) (a : Absent idx xs) where
    bumped-Listed : Listed bumped (xs ++ (idx ∷ []))
    bumped-Listed =
        cache_bump_bitmap-Listed stored xs idx
          (record {
            first = l.first;
            last = l.last;
            linked = Linked-outside c.next c.previous none xs idx none none a l.linked;
            distinct = l.distinct;
            counted = l.counted;
          })
          a (link_here c.next idx none)

    bumped_new : bumped.bitmap idx ≡ new
    bumped_new =
        ap (λ table. table idx) (cache_bump_bitmap-bitmap true idx none stored) ∙ ground arith

  -- What the cells hold, when one of them may be evicted.
  abbrev pub holds : Option ℕ → ℕ → ℕ
  holds gone j = if same gone j then 0 else if j == idx then new else c.bitmap j

  bumped_holds : (j : ℕ) → bumped.bitmap j ≡ (if j == idx then new else c.bitmap j)
  bumped_holds j = ap (λ table. table j) (cache_bump_bitmap-bitmap true idx none stored)

  evicted :
      (xs : List ℕ) (l : Listed c xs) (a : Absent idx xs)
      → ltb bmpcache2_c2_cells bumped.count ≡ true
      → (after : Bmpcache) × (cache_evict_bitmap true bumped
          ≡ some (after, evictions c (head_of (xs ++ (idx ∷ [])))))
        × Listed after (drop 1 (xs ++ (idx ∷ [])))
        × ((j : ℕ) → after.bitmap j ≡ holds (head_of (xs ++ (idx ∷ []))) j)
        × (after.bitmap idx ≡ new)
  evicted [] l a e =
      absurd
        (omega (arith, ltb→lt bmpcache2_c2_cells bumped.count e, (bumped-Listed [] l a).counted))
  evicted (x ∷ []) l a e = absurd (
      omega (arith, ltb→lt bmpcache2_c2_cells bumped.count e, (bumped-Listed (x ∷ []) l a).counted))
  evicted (x ∷ y ∷ ys) l a e =
      let (after, gone, left, handles) =
        cache_evict_bitmap-Listed bumped x y (ys ++ (idx ∷ [])) (bumped-Listed (x ∷ y ∷ ys) l a) in
      let other : (idx == x) ≡ false = ground arith in
      let other' : (x == idx) ≡ false = ground arith in
      let handle : bumped.bitmap x ≡ c.bitmap x = bumped_holds x ∙ if_false other' in
      (
        after,
        gone ∙ ap (λ h. some (after, destroy_bitmap h ∷ touch_bitmap x 0 ∷ [])) handle,
        left,
        λ j. handles j ∙ at_cell x j,
        handles idx ∙ rw other (bumped_new (x ∷ y ∷ ys) l a),
      )
    where
      if_false : {b : Bool} → b ≡ false → (if b then new else c.bitmap x) ≡ c.bitmap x
      if_false e = ap (λ b. if b then new else c.bitmap x) e

      at_cell : (x j : ℕ) → (if j == x then 0 else bumped.bitmap j) ≡ holds (some x) j
      at_cell x j = elim (Bool-cases (j == x)) [
        | inl t ↦ let t' : (x == j) ≡ true = ground (arith, t) in rw (t, t') refl
        | inr f ↦ let f' : (x == j) ≡ false = ground (arith, f) in rw (f, f') (bumped_holds j)
      ]

  -- A bitmap put into a free cell of a persistent cache, whose links are those of a list that does not
  -- have the cell, is found in that cell and is the most recently used. Where the list gets longer than
  -- BMPCACHE2_C2_CELLS, the least recently used one is evicted: its handle is destroyed and its stamp
  -- cleared, its cell is empty, and the links are those of the list that is left. Nothing else is given
  -- back, and every other cell holds what it held.
  pub cache_put_bitmap-Listed :
      (xs : List ℕ)
      → Listed c xs
      → Absent idx xs
      → idx < bmpcache_cells
      → c.bitmap idx ≡ 0
      → (after : Bmpcache) × (cache_put_bitmap true idx new c
          ≡ some (after, evictions c (overflow (xs ++ (idx ∷ [])))))
        × Listed after (within_limit (xs ++ (idx ∷ [])))
        × ((j : ℕ) → after.bitmap j ≡ holds (overflow (xs ++ (idx ∷ []))) j)
        × (after.bitmap idx ≡ new)
  unfolding cache_put_bitmap
  cache_put_bitmap-Listed xs l a h free = elim (Bool-cases (ltb bmpcache2_c2_cells bumped.count)) [
    | inr e ↦
        let size : ltb bmpcache2_c2_cells (length (xs ++ (idx ∷ []))) ≡ false =
          rw⁻¹ (bumped-Listed xs l a).counted e in
        rw (inside, free, e, size)
          (bumped, refl, bumped-Listed xs l a, bumped_holds, bumped_new xs l a)
    | inl e ↦
        let size : ltb bmpcache2_c2_cells (length (xs ++ (idx ∷ []))) ≡ true =
          rw⁻¹ (bumped-Listed xs l a).counted e in
        let (after, gone, left, handles, found) = evicted xs l a e in
        rw (inside, free, e, size, gone) (after, refl, left, handles, found)
  ]
    where
      inside : ltb idx bmpcache_cells ≡ true
      inside = lt→ltb idx bmpcache_cells h
