-- ===== src/Stream/Writing.antt =====
-- Writes at the pointer: what is in memory after them, and that they run together.
use app_network_rdesktop.Base.{
  ℕ, ◌+◌, ◌<◌, ◌≤◌, ◌≡◌, ap, List, ◌++◌, append_assoc, append-nil, sym, ◌∙◌, [], ◌∷◌, Option, some,
  none, arith, length, drop, ◌>>=◌, length-append, take-append, drop-append, drop-drop,
}
use app_network_rdesktop.Stream.{Stream, out_bytes}
use app_network_rdesktop.Stream.Splice.{splice, length-splice, take-splice, drop-splice}

-- The stream after a write that fits.
abbrev pub wrote : Stream → List ℕ → Stream
wrote s bs = record s { buf = splice s.p bs s.buf; p = s.p + length bs }

pub out_bytes_fits :
    (s : Stream) (bs : List ℕ) → s.p + length bs ≤ length s.buf → out_bytes s bs ≡ some (wrote s bs)
unfolding out_bytes
out_bytes_fits s bs h = ground arith

pub out_bytes_fault :
    (s : Stream) (bs : List ℕ) → length s.buf < s.p + length bs → out_bytes s bs ≡ none
unfolding out_bytes
out_bytes_fault s bs h = ground arith

pub splice-splice :
    (n : ℕ) (xs ys m : List ℕ)
    → n + length xs + length ys ≤ length m
    → splice (n + length xs) ys (splice n xs m) ≡ splice n (xs ++ ys) m
splice-splice n xs ys m h =
    rw
      (
        take-splice n xs m (omega arith) (length xs),
        take-append xs (drop (n + length xs) m),
        ap (λ i. drop i (splice n xs m)) shift,
        drop-splice n xs m (omega arith) (length xs + length ys),
        ← drop-drop (length xs) (length ys) (xs ++ drop (n + length xs) m),
        drop-append xs (drop (n + length xs) m),
        drop-drop (n + length xs) (length ys) m,
        ap (λ i. drop i m) total,
      )
      (simp append_assoc)
  where
    shift : n + length xs + length ys ≡ n + (length xs + length ys)
    shift = omega arith

    total : n + length xs + length ys ≡ n + length (xs ++ ys)
    total = omega (arith, length-append xs ys)

-- Two writes in a row are one.
pub out_bytes-append :
    (s : Stream) (xs ys : List ℕ)
    → (out_bytes s xs >>= λ t. out_bytes t ys) ≡ out_bytes s (xs ++ ys)
unfolding out_bytes
out_bytes-append s xs ys =
    ground (arith, length-append xs ys, length-splice s.p xs s.buf, splice-splice s.p xs ys s.buf)

-- A write that returned fitted.
pub out_bytes_returned :
    (s t : Stream) (bs : List ℕ)
    → out_bytes s bs ≡ some t
    → (t ≡ wrote s bs) × (s.p + length bs ≤ length s.buf)
unfolding out_bytes
out_bytes_returned s t bs h = ground arith

pub wrote-wrote :
    (s : Stream) (xs ys : List ℕ)
    → s.p + length xs + length ys ≤ length s.buf
    → wrote (wrote s xs) ys ≡ wrote s (xs ++ ys)
wrote-wrote s xs ys h = ground (arith, length-append xs ys, splice-splice s.p xs ys s.buf)

-- Writes in a row.
abbrev pub out_all : Stream → List ℕ → List (List ℕ) → Option Stream
out_all s bs [] = out_bytes s bs
out_all s bs (next ∷ more) = out_bytes s bs >>= λ t. out_all t next more

abbrev pub joined : List (List ℕ) → List ℕ
joined [] = []
joined (bs ∷ more) = bs ++ joined more

pub out_all_lem :
    (more : List (List ℕ)) (s : Stream) (bs : List ℕ)
    → out_all s bs more ≡ out_bytes s (bs ++ joined more)
out_all_lem [] s bs = ap (out_bytes s) (sym (append-nil bs))
out_all_lem (next ∷ more) s bs =
    (λ i. out_bytes s bs >>= λ t. out_all_lem more t next i)
    ∙ out_bytes-append s bs (next ++ joined more)

-- A write of some bytes, and then what writes some more.
pub out_bytes-then :
    (s : Stream) (xs ys : List ℕ) {m : Option Stream} {g : Stream → Option Stream}
    → m ≡ out_bytes s xs
    → ((t : Stream) → g t ≡ out_bytes t ys)
    → (m >>= g) ≡ out_bytes s (xs ++ ys)
out_bytes-then s xs ys {g = g} h k =
    ap (λ m. m >>= g) h ∙ (λ i. out_bytes s xs >>= λ t. k t i) ∙ out_bytes-append s xs ys
