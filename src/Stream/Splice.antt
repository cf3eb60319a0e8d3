-- ===== src/Stream/Splice.antt =====
-- A run of bytes laid over the memory at an offset.
use app_network_rdesktop.Base.{
  ℕ, ◌+◌, ◌-◌, ◌≤◌, ◌≡◌, sym, ap, ◌∙◌, List, ◌++◌, arith, length, take, drop, length-append,
  length-take, length-drop, take-append_add, drop-append_add, drop-drop, drop-append, take-append,
}

abbrev pub splice : ℕ → List ℕ → List ℕ → List ℕ
splice n bs m = take n m ++ (bs ++ drop (n + length bs) m)

module _ (n : ℕ) (bs m : List ℕ) (fits : n + length bs ≤ length m) where
  pub length-splice : length (splice n bs m) ≡ length m
  length-splice = omega (
    arith,
    length-append (take n m) (bs ++ drop (n + length bs) m),
    length-append bs (drop (n + length bs) m),
    length-take n m,
    length-drop (n + length bs) m,
  )

  take_all : length (take n m) ≡ n
  take_all = omega (arith, length-take n m)

  pub take-splice :
      (k : ℕ) → take (n + k) (splice n bs m) ≡ take n m ++ take k (bs ++ drop (n + length bs) m)
  take-splice k =
      ap (λ i. take (i + k) (splice n bs m)) (sym take_all)
      ∙ take-append_add (take n m) (bs ++ drop (n + length bs) m) k

  pub drop-splice : (k : ℕ) → drop (n + k) (splice n bs m) ≡ drop k (bs ++ drop (n + length bs) m)
  drop-splice k =
      ap (λ i. drop (i + k) (splice n bs m)) (sym take_all)
      ∙ drop-append_add (take n m) (bs ++ drop (n + length bs) m) k

  pub drop-splice_zero : drop n (splice n bs m) ≡ bs ++ drop (n + length bs) m
  drop-splice_zero =
      ap (λ i. drop i (splice n bs m)) (let e : n ≡ n + 0 = omega arith in e) ∙ drop-splice 0

  -- Memory behind the run is as it was.
  pub drop-splice_behind : (k : ℕ) → n + length bs ≤ k → drop k (splice n bs m) ≡ drop k m
  drop-splice_behind k h =
      ap (λ i. drop i (splice n bs m))
        (let e : k ≡ n + (length bs + (k - (n + length bs))) = omega arith in e)
      ∙ drop-splice (length bs + (k - (n + length bs)))
      ∙ drop-append_add bs (drop (n + length bs) m) (k - (n + length bs))
      ∙ drop-drop (n + length bs) (k - (n + length bs)) m
      ∙ ap (λ i. drop i m) (let e : n + length bs + (k - (n + length bs)) ≡ k = omega arith in e)

  -- The run itself.
  pub drop-take-splice : drop n (take (n + length bs) (splice n bs m)) ≡ bs
  drop-take-splice =
      rw (take-splice (length bs), take-append bs (drop (n + length bs) m))
        (ap (λ i. drop i (take n m ++ bs)) (sym take_all) ∙ drop-append (take n m) bs)

  -- The run and some of what stands behind it.
  pub drop-take-splice_more :
      (k : ℕ)
      → drop n (take (n + length bs + k) (splice n bs m)) ≡ bs ++ take k (drop (n + length bs) m)
  drop-take-splice_more k =
      ap (λ i. drop n (take i (splice n bs m)))
        (let e : n + length bs + k ≡ n + (length bs + k) = omega arith in e)
      ∙ ap (drop n) (take-splice (length bs + k))
      ∙ ap (λ i. drop i (take n m ++ take (length bs + k) (bs ++ drop (n + length bs) m)))
          (sym take_all)
      ∙ drop-append (take n m) (take (length bs + k) (bs ++ drop (n + length bs) m))
      ∙ take-append_add bs (drop (n + length bs) m) k

  -- The memory up to the end of the run.
  pub take-splice_end : take (n + length bs) (splice n bs m) ≡ take n m ++ bs
  take-splice_end =
      take-splice (length bs) ∙ ap (◌++◌ (take n m)) (take-append bs (drop (n + length bs) m))
