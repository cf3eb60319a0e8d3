-- ===== src/Secure/Termination.antt =====
-- The loop of sec_process_mcs_data ends, whatever the server sends.
use app_network_rdesktop.Base.{
  Parsed, stuck, ℕ, zero, suc, ◌+◌, ◌-◌, ◌*◌, ◌^◌, ◌<◌, ◌≡◌, refl, ap, sym, ◌∙◌, ◌⊎◌, Bool, true,
  false, inl, inr, leb, ltb, Option, none, some, arith, get_elem?, Bool-cases, Option-cases, ltb→lt,
  lt→ltb,
}
use app_network_rdesktop.Stream.{Stream, in_uint8, in_uint8s, in_uint16_le}
use app_network_rdesktop.Secure.{
  Server, process_block, enter_block, next_block, continue, process_blocks, behind_header,
  skip_header, sec_process_mcs_data,
}

-- A read of 16 bits faults or steps over two bytes.
in_uint16_le-cases :
    (s : Stream) → (in_uint16_le s ≡ none) ⊎ ((v : ℕ) × (in_uint16_le s ≡ some (v, in_uint8s s 2)))
unfolding in_uint16_le in_uint8
in_uint16_le-cases s =
    let two : s.p + 1 + 1 ≡ s.p + 2 = omega arith in
    elim (Option-cases (get_elem? s.buf s.p)) [
      | inl e ↦ inl (rw e refl)
      | inr (a, e) ↦ elim (Option-cases (get_elem? s.buf (s.p + 1))) [
        | inl e' ↦ inl (rw (e, e') refl)
        | inr (b, e') ↦
            inr (a + b * 2 ^ 8, rw (e, e') (ap (λ p. some (a + b * 2 ^ 8, record s { p = p })) two))
      ]
    ]

module _ {K : Type 0} where
  -- If another turn follows, it is one further on in the same data.
  abbrev Advances : ℕ → ℕ → Option (Bool × (Stream × (Server × K))) → Type 0
  Advances p end none = Unit {0}
  Advances p end (some (false, r)) = Unit {0}
  Advances p end (some (true, r)) = (p < (r.0).p) × ((r.0).end ≡ end)

  module _ (sec_process_crypt_info : Stream → K → Option K) where
    enter_block-Advances :
        (p tag length' : ℕ) (s : Stream) (g : Server × K)
        → p < s.p
        → Advances p s.end (enter_block sec_process_crypt_info tag length' s g)
    unfolding enter_block
    enter_block-Advances p tag length' s g h = elim (Bool-cases (leb length' 4)) [
      | inl e ↦ rw e tt
      | inr e ↦ rw e (elim (Option-cases (process_block sec_process_crypt_info tag s g)) [
        | inl broken ↦ rw broken tt
        | inr (g', done) ↦ rw done (omega arith, refl)
      ])
    ]

    next_block-Advances :
        (s : Stream) (g : Server × K)
        → s.p < s.end
        → Advances s.p s.end (next_block sec_process_crypt_info s g)
    unfolding next_block
    next_block-Advances s g h = rw (lt→ltb s.p s.end h) (elim (in_uint16_le-cases s) [
      | inl e ↦ rw e tt
      | inr (tag, e) ↦ rw e (elim (in_uint16_le-cases (in_uint8s s 2)) [
        | inl e' ↦ rw e' tt
        | inr (length', e') ↦
            rw e'
              (enter_block-Advances s.p tag length' (in_uint8s (in_uint8s s 2) 2) g (omega arith))
      ])
    ])

    -- Any turn of the loop that another follows is one further on, before the end.
    turn-Advances :
        (s : Stream) (g : Server × K)
        → ((s.p < s.end) × Advances s.p s.end (next_block sec_process_crypt_info s g))
          ⊎ (next_block sec_process_crypt_info s g ≡ some (false, (s, g)))
    unfolding next_block
    turn-Advances s g = elim (Bool-cases (ltb s.p s.end)) [
      | inl e ↦ inl (ltb→lt s.p s.end e, next_block-Advances s g (ltb→lt s.p s.end e))
      | inr e ↦ inr (rw e refl)
    ]

    continue-Advances :
        (s : Stream) (m : Option (Bool × (Stream × (Server × K))))
        (next : Stream → Server × K → Parsed (Stream × (Server × K)))
        → Advances s.p s.end m
        → ((s' : Stream) (g' : Server × K) → s.p < s'.p → s'.end ≡ s.end → ¬ (next s' g' ≡ stuck))
        → ¬ (continue sec_process_crypt_info m next ≡ stuck)
    unfolding continue
    continue-Advances s none next a more h = cc
    continue-Advances s (some (false, r)) next a more h = cc
    continue-Advances s (some (true, r)) next a more h = more r.0 r.1 a.0 a.1 h

    continue-Ended :
        (s : Stream) (g : Server × K) (next : Stream → Server × K → Parsed (Stream × (Server × K)))
        → ¬ (continue sec_process_crypt_info (some (false, (s, g))) next ≡ stuck)
    unfolding continue
    continue-Ended s g next h = cc

    process_blocks-stuck :
        (fuel : ℕ) (s : Stream) (g : Server × K)
        → s.end - s.p < fuel
        → ¬ (process_blocks sec_process_crypt_info fuel s g ≡ stuck)
    unfolding process_blocks
    process_blocks-stuck zero s g enough h = omega arith
    process_blocks-stuck (suc fuel) s g enough h = elim (turn-Advances s g) [
      | inl (before, a) ↦
          continue-Advances s (next_block sec_process_crypt_info s g)
            (process_blocks sec_process_crypt_info fuel) a
            (λ s' g' further same. process_blocks-stuck fuel s' g' (omega arith)) h
      | inr e ↦ continue-Ended s g (process_blocks sec_process_crypt_info fuel) (
          ap (λ m. continue sec_process_crypt_info m (process_blocks sec_process_crypt_info fuel))
            (sym e)
          ∙ h)
    ]

    behind_header-stuck :
        (m : Option Stream) (g : Server × K) → ¬ (behind_header sec_process_crypt_info m g ≡ stuck)
    unfolding behind_header
    behind_header-stuck none g h = cc
    behind_header-stuck (some s) g h = process_blocks-stuck (suc (s.end - s.p)) s g (omega arith) h

    -- Whatever the server sends, as long as sec_process_crypt_info returns or faults, the reading ends:
    -- the fuel of the model is enough for the loop of sec_process_mcs_data.
    pub sec_process_mcs_data-stuck :
        (s : Stream) (g : Server × K) → ¬ (sec_process_mcs_data sec_process_crypt_info s g ≡ stuck)
    sec_process_mcs_data-stuck s g = behind_header-stuck (skip_header s) g
