-- ===== src/Secure/Blocks.antt =====
-- What sec_process_mcs_data makes of the blocks of a connect response.
use app_network_rdesktop.Base.{
  Parsed, returned, fault, ℕ, zero, suc, ◌+◌, ◌-◌, ◌<◌, ◌≤◌, ◌≡◌, refl, true, false, ◌==◌, leb, ltb,
  if◌then◌else◌, List, [], ◌∷◌, ◌++◌, Option, none, some, ◌>>=◌, arith, length, ap, subst,
  length-append, ◌∙◌, lt→ltb,
}
use app_network_rdesktop.Stream.{Stream, bytes16_le, in_uint8s}
use app_network_rdesktop.Stream.Unread.{
  in_uint16_le-At, in_uint8s-in_uint8s, At, in_uint8s-At, length-At,
}
use app_network_rdesktop.Secure.{
  Server, process_block, enter_block, next_block, continue, process_blocks, behind_header,
  sec_process_mcs_data,
}
use app_network_rdesktop.Secure.Wire.{
  Block, wire, wires, IsBlock, AreBlocks, IsLen, told, sec_process_srv_info-told, skip_header-At,
}

module _ {K : Type 0} (sec_process_crypt_info : Stream → K → Option K) where
  -- What one block does: the version is read from its content, a crypt block is handed on with the
  -- pointer at its content, and other blocks do nothing.
  abbrev pub block_effect : Block → Stream → Server × K → Option (Server × K)
  block_effect b s (g, k) =
      if b.tag == 0x0c01
      then some (told b.content g, k)
      else if b.tag == 0x0c02
      then (do k ← sec_process_crypt_info s k; some (g, k))
      else some (g, k)

  -- What they do one after another, each at its own place.
  abbrev pub effects : List Block → Stream → Server × K → Option (Server × K)
  effects [] s g = some g
  effects (b ∷ bs) s g = do
    g ← block_effect b (in_uint8s s 4) g
    effects bs (in_uint8s s (4 + length b.content)) g

  process_block-effect :
      (b : Block) (more : List ℕ) (s : Stream) (g : Server × K)
      → 2 ≤ length b.content
      → At (b.content ++ more) s
      → process_block sec_process_crypt_info b.tag s g ≡ block_effect b s g
  unfolding process_block
  process_block-effect b more s (g, k) h at =
      rw (sec_process_srv_info-told s b.content more g h at) refl

  enter_block-content :
      (b : Block) (more : List ℕ) (s : Stream) (g : Server × K)
      → IsBlock b
      → At (b.content ++ more) s
      → enter_block sec_process_crypt_info b.tag (length b.content + 4) s g
        ≡ (block_effect b s g >>= λ g'. some (true, (in_uint8s s (length b.content), g')))
  unfolding enter_block
  enter_block-content b more s g is at =
      let long : leb (length b.content + 4) 4 ≡ false = ground (arith, is.some_content) in
      let back : length b.content + 4 - 4 ≡ length b.content = omega arith in
      rw (long, back, process_block-effect b more s g is.some_content at) refl

  next_block-wire :
      (b : Block) (more : List ℕ) (s : Stream) (g : Server × K)
      → IsBlock b
      → At (wire b ++ more) s
      → next_block sec_process_crypt_info s g ≡ (
          block_effect b (in_uint8s s 4) g >>= λ g'.
          some (true, (in_uint8s s (4 + length b.content), g')))
  unfolding next_block
  next_block-wire b more s g is at =
      let rest = b.content ++ more in
      let four : in_uint8s (in_uint8s s 2) 2 ≡ in_uint8s s 4 = in_uint8s-in_uint8s s 2 2 in
      let at2 = in_uint8s-At s (bytes16_le b.tag) (bytes16_le (length b.content + 4) ++ rest) at in
      let at4 = in_uint8s-At (in_uint8s s 2) (bytes16_le (length b.content + 4)) rest at2 in
      rw
        (
          lt→ltb s.p s.end (omega (arith, length-At s (wire b ++ more) at)),
          in_uint16_le-At s b.tag (bytes16_le (length b.content + 4) ++ rest) is.tag16 at,
          in_uint16_le-At (in_uint8s s 2) (length b.content + 4) rest is.length16 at2,
          ← in_uint8s-in_uint8s s 4 (length b.content),
          four,
        )
        (enter_block-content b more (in_uint8s s 4) g is (subst (At rest) four at4))

  -- The loop's end: the pointer, and the state, unless a block's reading faults.
  abbrev pub ended : Stream → Option (Server × K) → Parsed (Stream × (Server × K))
  ended s none = fault
  ended s (some g) = returned (s, g)

  next_block-nothing :
      (s : Stream) (g : Server × K)
      → At [] s
      → next_block sec_process_crypt_info s g ≡ some (false, (s, g))
  unfolding next_block
  next_block-nothing s g at =
      let no : ltb s.p s.end ≡ false = ground (arith, length-At s [] at) in rw no refl

  continue-last :
      (r : Stream × (Server × K)) (next : Stream → Server × K → Parsed (Stream × (Server × K)))
      → continue sec_process_crypt_info (some (false, r)) next ≡ returned r
  unfolding continue
  continue-last r next = refl

  continue-block :
      (m : Option (Server × K)) (s : Stream)
      (next : Stream → Server × K → Parsed (Stream × (Server × K)))
      (more : Server × K → Option (Server × K)) (last : Stream)
      → ((g : Server × K) → next s g ≡ ended last (more g))
      → continue sec_process_crypt_info (m >>= λ g'. some (true, (s, g'))) next
        ≡ ended last (m >>= more)
  unfolding continue
  continue-block none s next more last h = refl
  continue-block (some g) s next more last h = h g

  process_blocks-effects :
      (bs : List Block) (fuel : ℕ) (s : Stream) (g : Server × K)
      → AreBlocks bs
      → At (wires bs) s
      → length (wires bs) < fuel
      → process_blocks sec_process_crypt_info fuel s g
        ≡ ended (in_uint8s s (length (wires bs))) (effects bs s g)
  unfolding process_blocks
  process_blocks-effects bs zero s g are at enough = absurd (omega arith)
  process_blocks-effects [] (suc fuel) s g are at enough =
      let same : s.p ≡ s.p + 0 = omega arith in
      rw (next_block-nothing s g at) (
        continue-last (s, g) (process_blocks sec_process_crypt_info fuel)
        ∙ ap (λ p. returned (record s { p = p }, g)) same)
  process_blocks-effects (b ∷ bs) (suc fuel) s g are at enough =
      let after = in_uint8s-At s (wire b) (wires bs) at in
      let len : length (wire b) ≡ 4 + length b.content = omega arith in
      let total : 4 + length b.content + length (wires bs) ≡ length (wires (b ∷ bs)) =
        omega (arith, length-append (wire b) (wires bs)) in
      rw (next_block-wire b (wires bs) s g are.0 at) (
        continue-block (block_effect b (in_uint8s s 4) g) (in_uint8s s (4 + length b.content))
          (process_blocks sec_process_crypt_info fuel)
          (effects bs (in_uint8s s (4 + length b.content))) (in_uint8s s (length (wires (b ∷ bs))))
          λ g'.
            process_blocks-effects bs fuel (in_uint8s s (4 + length b.content)) g' are.1
              (subst (λ n. At (wires bs) (in_uint8s s n)) len after)
              (omega (arith, length-append (wire b) (wires bs)))
            ∙ ap (λ t. ended t (effects bs (in_uint8s s (4 + length b.content)) g'))
                (in_uint8s-in_uint8s s (4 + length b.content) (length (wires bs))
                  ∙ ap (in_uint8s s) total))

  behind_header-effects :
      (bs : List Block) (s : Stream) (g : Server × K)
      → AreBlocks bs
      → At (wires bs) s
      → behind_header sec_process_crypt_info (some s) g
        ≡ ended (in_uint8s s (length (wires bs))) (effects bs s g)
  unfolding behind_header
  behind_header-effects bs s g are at =
      process_blocks-effects bs (suc (s.end - s.p)) s g are at
        (omega (arith, length-At s (wires bs) at))

  -- A connect response of 21 bytes of header, the length of its user data and the blocks, each of two
  -- bytes of content at least: sec_process_mcs_data does what the blocks do one after another, each
  -- at the place where its content begins, wherever the reading of the one before stopped, and takes
  -- the response in to its end; it faults only where sec_process_crypt_info does.
  pub sec_process_mcs_data-effects :
      (s : Stream) (header len : List ℕ) (bs : List Block) (g : Server × K)
      → length header ≡ 21
      → IsLen len
      → AreBlocks bs
      → At (header ++ (len ++ wires bs)) s
      → sec_process_mcs_data sec_process_crypt_info s g
        ≡ ended (record s { p = s.end }) (effects bs (in_uint8s s (21 + length len)) g)
  sec_process_mcs_data-effects s header len bs g h is are at =
      let n : length header + length len ≡ 21 + length len = omega arith in
      let after =
        in_uint8s-At (in_uint8s s (length header)) len (wires bs)
          (in_uint8s-At s header (len ++ wires bs) at) in
      let start =
        subst (At (wires bs))
          (in_uint8s-in_uint8s s (length header) (length len) ∙ ap (in_uint8s s) n) after in
      let end : s.p + (21 + length len) + length (wires bs) ≡ s.end =
        length-At (in_uint8s s (21 + length len)) (wires bs) start in
      rw (skip_header-At s header len (wires bs) h is at) (
        behind_header-effects bs (in_uint8s s (21 + length len)) g are start
        ∙ ap (λ p. ended (record s { p = p }) (effects bs (in_uint8s s (21 + length len)) g)) end)
