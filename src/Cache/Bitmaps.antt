-- ===== src/Cache/Bitmaps.antt =====
-- cache.c: the bitmap caches and their lists from least to most recently used.
-- An index that may be NOT_SET is an `Option ℕ`; indices that the code stores are below 0xa00, so
-- neither sint16 nor int cuts them. A write at index -1 is a fault (`none`). The model is of one `id`
-- below 3. A linked bitmap is counted, so the count is not 0 where it is decremented.
use app_network_rdesktop.Base.{
  ℕ, zero, suc, ◌+◌, ◌-◌, Bool, true, false, not, ltb, ◌==◌, if◌then◌else◌, List, [], ◌∷◌, Option,
  none, some, ◌>>=◌,
}

-- g_bmpcache[id], its list's ends and its count, and g_volatile_bc[id].
pub record Bmpcache : Type 0 where
  pub bitmap : ℕ → ℕ
  pub previous : ℕ → Option ℕ
  pub next : ℕ → Option ℕ
  pub lru : Option ℕ
  pub mru : Option ℕ
  pub count : ℕ
  pub volatile_bc : ℕ

-- What goes out of the cache: handles to ui_destroy_bitmap, and calls of pstcache_touch_bitmap.
pub data Effect : Type 0 where
  destroy_bitmap : ℕ → Effect
  touch_bitmap : ℕ → ℕ → Effect

abbrev pub bmpcache_cells : ℕ
bmpcache_cells = 0xa00

abbrev pub bmpcache2_c2_cells : ℕ
bmpcache2_c2_cells = 0x150

abbrev pub bump_count : ℕ
bump_count = 40

abbrev pub same : Option ℕ → ℕ → Bool
same none j = false
same (some i) j = i == j

abbrev pub link : (ℕ → Option ℕ) → ℕ → Option ℕ → ℕ → Option ℕ
link table i v j = if j == i then v else table j

-- `if (IS_SET(p_idx)) g_bmpcache[id][p_idx].next = to; else g_bmpcache_lru[id] = to;`
abbrev pub set_next : Option ℕ → Option ℕ → Bmpcache → Bmpcache
set_next none to c = record c { lru = to }
set_next (some p) to c = record c { next = link c.next p to }

-- `if (IS_SET(n_idx)) g_bmpcache[id][n_idx].previous = to; else g_bmpcache_mru[id] = to;`
abbrev pub set_previous : Option ℕ → Option ℕ → Bmpcache → Bmpcache
set_previous none to c = record c { mru = to }
set_previous (some n) to c = record c { previous = link c.previous n to }

-- `for (n = 0; n < bump && IS_SET(n_idx); n++)`.
abbrev pub advance : ℕ → (ℕ → Option ℕ) → Option ℕ → Option ℕ → Option ℕ × Option ℕ
advance zero next p_idx n_idx = (p_idx, n_idx)
advance (suc bump) next p_idx none = (p_idx, none)
advance (suc bump) next p_idx (some n) = advance bump next (some n) (next n)

-- Where the bitmap goes: `some bump` places on, or at the top (TO_TOP).
abbrev pub target : Option ℕ → Bmpcache → Option ℕ → Option ℕ → Option ℕ × Option ℕ
target none c p_idx n_idx = (c.mru, none)
target (some bump) c p_idx n_idx = advance bump c.next p_idx n_idx

-- The removal from the list: the cache and the neighbours the insertion starts from.
unfoldable pub unlink : ℕ → Bmpcache → Bmpcache × (Option ℕ × Option ℕ)
unlink idx c = elim (c.next idx) [
  | none ↦ (c, (none, c.lru))
  | some n ↦
      let p_idx = c.previous idx in
      let d : Bmpcache = set_next p_idx (some n) (record c { count = c.count - 1 }) in
      (set_previous (some n) p_idx d, (p_idx, some n))
]

unfoldable pub insert : ℕ → Bmpcache → Option ℕ × Option ℕ → Bmpcache
insert idx c at =
    let d : Bmpcache = record c {
      count = c.count + 1;
      previous = link c.previous idx at.0;
      next = link c.next idx at.1;
    } in
    set_previous at.1 (some idx) (set_next at.0 (some idx) d)

-- `persistent` is IS_PERSISTENT(id).
unfoldable pub cache_bump_bitmap : Bool → ℕ → Option ℕ → Bmpcache → Bmpcache
unfolding unlink insert
cache_bump_bitmap persistent idx bump c =
    if not persistent
    then c
    else if same c.mru idx
    then c
    else (let out = unlink idx c in insert idx out.0 (target bump out.0 out.1.0 out.1.1))

unfoldable pub cache_evict_bitmap : Bool → Bmpcache → Option (Bmpcache × List Effect)
cache_evict_bitmap persistent c = if not persistent then some (c, []) else (do
  idx ← c.lru
  n ← c.next idx
  some (
    record c {
      count = c.count - 1;
      bitmap = λ j. if j == idx then 0 else c.bitmap j;
      lru = some n;
      previous = link c.previous n none;
    },
    destroy_bitmap (c.bitmap idx) ∷ touch_bitmap idx 0 ∷ [],
  ))

-- `load` is pstcache_load_bitmap: the cache with the bitmap loaded, if there was one.
unfoldable pub cache_get_bitmap :
    (ℕ → Bmpcache → Option Bmpcache) → Bool → ℕ → Bmpcache → ℕ × Bmpcache
cache_get_bitmap load persistent idx c =
    if ltb idx bmpcache_cells
    then elim (if c.bitmap idx == 0 then load idx c else some c) [
      | none ↦ (0, c)
      | some c' ↦
          let bumped = cache_bump_bitmap persistent idx (some bump_count) c' in
          (bumped.bitmap idx, bumped)
    ]
    else if idx == 0x7fff
    then (c.volatile_bc, c)
    else (0, c)

abbrev pub give_back : ℕ → List Effect
give_back old = if old == 0 then [] else destroy_bitmap old ∷ []

unfoldable pub cache_put_bitmap : Bool → ℕ → ℕ → Bmpcache → Option (Bmpcache × List Effect)
cache_put_bitmap persistent idx new c =
    if ltb idx bmpcache_cells
    then (let old = c.bitmap idx in
        let d : Bmpcache = record c { bitmap = λ j. if j == idx then new else c.bitmap j } in
        if not persistent
        then some (d, give_back old)
        else (let e : Bmpcache =
              if old == 0
              then record d { previous = link d.previous idx none; next = link d.next idx none }
              else d in
            let f : Bmpcache = cache_bump_bitmap true idx none e in
            if ltb bmpcache2_c2_cells f.count
            then (do
              (g, gone) ← cache_evict_bitmap true f
              some (g, if old == 0 then gone else destroy_bitmap old ∷ gone))
            else some (f, give_back old)))
    else if idx == 0x7fff
    then some (record c { volatile_bc = new }, give_back c.volatile_bc)
    else some (c, [])
