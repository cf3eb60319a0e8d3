-- ===== src/Stream/Reading.antt =====
-- What the reading primitives return on a stream whose next bytes are known.
use app_network_rdesktop.Base.{ℕ, ◌+◌, ◌*◌, ◌%◌, ◌^◌, ◌≡◌, List, ◌∷◌, some, arith, drop, drop_step}
use app_network_rdesktop.Stream.{
  Stream, in_uint8, next_be, in_uint16_le, in_uint32_le, in_uint16_be, in_uint8s,
}

-- The memory from `p` on.
abbrev pub ahead : Stream → List ℕ
ahead s = drop s.p s.buf

module _ (s : Stream) (a : ℕ) {rest : List ℕ} (h : ahead s ≡ a ∷ rest) where
  pub in_uint8_ahead : in_uint8 s ≡ some (a, in_uint8s s 1)
  unfolding in_uint8
  in_uint8_ahead = ground (arith, drop_step s.p s.buf h)

  pub ahead-in_uint8s : ahead (in_uint8s s 1) ≡ rest
  ahead-in_uint8s = (drop_step s.p s.buf h).1

  pub next_be_ahead : (v : ℕ) → next_be s v ≡ some ((v * 256 + a) % 2 ^ 32, in_uint8s s 1)
  unfolding next_be
  next_be_ahead v = ground (arith, drop_step s.p s.buf h)

module _ (s : Stream) (a b : ℕ) {rest : List ℕ} (h : ahead s ≡ a ∷ b ∷ rest) where
  pub in_uint16_le_ahead : in_uint16_le s ≡ some (a + b * 2 ^ 8, in_uint8s s 2)
  unfolding in_uint16_le
  in_uint16_le_ahead =
      ground (arith, drop_step s.p s.buf h, drop_step (s.p + 1) s.buf (drop_step s.p s.buf h).1)

  pub in_uint16_be_ahead : in_uint16_be s ≡ some (a * 2 ^ 8 + b, in_uint8s s 2)
  unfolding in_uint16_be
  in_uint16_be_ahead =
      ground (arith, drop_step s.p s.buf h, drop_step (s.p + 1) s.buf (drop_step s.p s.buf h).1)

  pub ahead-in_uint8s_two : ahead (in_uint8s s 2) ≡ rest
  ahead-in_uint8s_two = ground (arith, drop_step (s.p + 1) s.buf (drop_step s.p s.buf h).1)

module _ (s : Stream) (a b c d : ℕ) {rest : List ℕ} (h : ahead s ≡ a ∷ b ∷ c ∷ d ∷ rest) where
  from_third : ahead (in_uint8s s 2) ≡ c ∷ d ∷ rest
  from_third = ahead-in_uint8s_two s a b h

  from_fourth : drop (s.p + 2 + 1) s.buf ≡ d ∷ rest
  from_fourth = (drop_step (s.p + 2) s.buf from_third).1

  pub in_uint32_le_ahead :
      in_uint32_le s ≡ some (a + b * 2 ^ 8 + c * 2 ^ 16 + d * 2 ^ 24, in_uint8s s 4)
  unfolding in_uint32_le
  in_uint32_le_ahead = ground (
    arith,
    drop_step s.p s.buf h,
    drop_step (s.p + 1) s.buf (drop_step s.p s.buf h).1,
    drop_step (s.p + 2) s.buf from_third,
    drop_step (s.p + 2 + 1) s.buf from_fourth,
  )

  pub ahead-in_uint8s_four : ahead (in_uint8s s 4) ≡ rest
  ahead-in_uint8s_four = ground (arith, drop_step (s.p + 2 + 1) s.buf from_fourth)
