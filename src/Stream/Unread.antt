-- ===== src/Stream/Unread.antt =====
-- Streams whose bytes between the pointer and the end are known, and how reading steps over them.
use app_network_rdesktop.Base.{
  ℕ, ◌+◌, ◌*◌, ◌/◌, ◌%◌, ◌^◌, ◌≤◌, ◌<◌, ◌≡◌, ap, sym, ◌∙◌, true, List, [], ◌∷◌, ◌++◌, some, length,
  take, drop, arith, drop-drop, drop-append, take-append-drop, drop-append_le, length-take,
  length-drop, length-append,
}
use app_network_rdesktop.Stream.{
  Stream, in_uint8, in_uint8s, in_uint16_be, in_uint16_le, bytes16_le, s_check_end,
}
use app_network_rdesktop.Stream.Reading.{
  ahead, in_uint8_ahead, in_uint16_be_ahead, in_uint16_le_ahead,
}

-- What is between the pointer and the end.
abbrev pub unread : Stream → List ℕ
unread s = drop s.p (take s.end s.buf)

-- The pointer and the end are in memory, and some bytes are between them.
pub record At (content : List ℕ) (s : Stream) : Type 0 where
  pub order : s.p ≤ s.end
  pub inside : s.end ≤ length s.buf
  pub is : unread s ≡ content

module _ (s : Stream) (content : List ℕ) (at : At content s) where
  -- Such bytes are in memory at the pointer.
  pub ahead-At : ahead s ≡ content ++ drop s.end s.buf
  ahead-At =
      ap (drop s.p) (sym (take-append-drop s.end s.buf))
      ∙ drop-append_le s.p (take s.end s.buf) (drop s.end s.buf)
          (omega (arith, length-take s.end s.buf, at.order, at.inside))
      ∙ ap (λ xs. xs ++ drop s.end s.buf) at.is

  pub length-At : s.p + length content ≡ s.end
  length-At =
      ap (λ bs. s.p + length bs) (sym at.is)
      ∙ (let e : s.p + length (unread s) ≡ s.end = omega (
        arith,
        length-drop s.p (take s.end s.buf),
        length-take s.end s.buf,
        at.order,
        at.inside,
      ) in
          e)

-- Stepping over the first of the bytes.
pub in_uint8s-At :
    (s : Stream) (xs more : List ℕ) → At (xs ++ more) s → At more (in_uint8s s (length xs))
in_uint8s-At s xs more at = record {
  order = omega (arith, length-At s (xs ++ more) at, length-append xs more);
  inside = at.inside;
  is =
      sym (drop-drop s.p (length xs) (take s.end s.buf))
      ∙ ap (drop (length xs)) at.is
      ∙ drop-append xs more;
}

module _ (s : Stream) (a : ℕ) (more : List ℕ) (at : At (a ∷ more) s) where
  pub in_uint8-At : in_uint8 s ≡ some (a, in_uint8s s 1)
  in_uint8-At = in_uint8_ahead s a (ahead-At s (a ∷ more) at)

  pub in_uint8s_one-At : At more (in_uint8s s 1)
  in_uint8s_one-At = in_uint8s-At s (a ∷ []) more at

module _ (s : Stream) (a b : ℕ) (more : List ℕ) (at : At (a ∷ b ∷ more) s) where
  pub in_uint16_be-At : in_uint16_be s ≡ some (a * 2 ^ 8 + b, in_uint8s s 2)
  in_uint16_be-At = in_uint16_be_ahead s a b (ahead-At s (a ∷ b ∷ more) at)

  pub in_uint8s_two-At : At more (in_uint8s s 2)
  in_uint8s_two-At = in_uint8s-At s (a ∷ b ∷ []) more at

-- Nothing is left.
pub s_check_end-At : (s : Stream) → At [] s → s_check_end s ≡ true
s_check_end-At s at = ground (arith, length-At s [] at)

-- A number of 16 bits that is next is the one read.
pub in_uint16_le-At :
    (s : Stream) (v : ℕ) (more : List ℕ)
    → v < 2 ^ 16
    → At (bytes16_le v ++ more) s
    → in_uint16_le s ≡ some (v, in_uint8s s 2)
in_uint16_le-At s v more h at =
    let same : v % 256 + v / 256 % 256 * 2 ^ 8 ≡ v = omega arith in
    in_uint16_le_ahead s (v % 256) (v / 256 % 256) (ahead-At s (bytes16_le v ++ more) at)
    ∙ ap (λ n. some (n, in_uint8s s 2)) same

pub in_uint8s-in_uint8s : (s : Stream) (m n : ℕ) → in_uint8s (in_uint8s s m) n ≡ in_uint8s s (m + n)
in_uint8s-in_uint8s s m n =
    let sum : s.p + m + n ≡ s.p + (m + n) = omega arith in ap (λ p. record s { p = p }) sum
