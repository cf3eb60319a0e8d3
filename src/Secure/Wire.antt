-- ===== src/Secure/Wire.antt =====
-- The blocks of a connect response as they stand on the wire, and the reading of the version and of the
-- header in front of them.
use app_network_rdesktop.Base.{
  ℕ, ◌+◌, ◌*◌, ◌^◌, ◌<◌, ◌≤◌, ◌≡◌, refl, true, false, ◌==◌, if◌then◌else◌, List, [], ◌∷◌, ◌++◌,
  some, arith, length, has, ap, subst, ◌∙◌, Bool-cases, inl, inr, eqb→eq,
}
use app_network_rdesktop.Stream.{Stream, bytes16_le, in_uint8s}
use app_network_rdesktop.Stream.Unread.{
  in_uint8s-in_uint8s, At, in_uint8-At, in_uint8s_one-At, in_uint8s-At, ahead-At,
}
use app_network_rdesktop.Stream.Reading.{in_uint16_le_ahead}
use app_network_rdesktop.Secure.{Server, skip_header, sec_process_srv_info}

-- A block: its tag, and the bytes behind its tag and length.
pub record Block : Type 0 where
  pub tag : ℕ
  pub content : List ℕ

-- The block on the wire; the length counts the four bytes in front of the content.
abbrev pub wire : Block → List ℕ
wire b = bytes16_le b.tag ++ (bytes16_le (length b.content + 4) ++ b.content)

abbrev pub wires : List Block → List ℕ
wires [] = []
wires (b ∷ bs) = wire b ++ wires bs

-- A block with content, of two bytes at least as the version takes, and with a tag and a length of 16 bits.
pub record IsBlock (b : Block) : Type 0 where
  pub tag16 : b.tag < 2 ^ 16
  pub some_content : 2 ≤ length b.content
  pub length16 : length b.content + 4 < 2 ^ 16

abbrev pub AreBlocks : List Block → Type 0
AreBlocks [] = Unit {0}
AreBlocks (b ∷ bs) = IsBlock b × AreBlocks bs

-- What the version says: version 1 is of a server of 8 bits per pixel and of RDP 4.
abbrev pub told : List ℕ → Server → Server
told [] g = g
told (a ∷ []) g = g
told (a ∷ b ∷ rest) g =
    if a + b * 2 ^ 8 == 1
    then record g { server_rdp_version = 1; rdp_v5 = false; server_depth = 8 }
    else record g { server_rdp_version = a + b * 2 ^ 8 }

-- The version at the pointer is the one told.
pub sec_process_srv_info-told :
    (s : Stream) (content more : List ℕ) (g : Server)
    → 2 ≤ length content
    → At (content ++ more) s
    → sec_process_srv_info s g ≡ some (told content g)
unfolding sec_process_srv_info
sec_process_srv_info-told s [] more g h at = absurd (omega arith)
sec_process_srv_info-told s (a ∷ []) more g h at = absurd (omega arith)
sec_process_srv_info-told s (a ∷ b ∷ rest) more g h at =
    rw (in_uint16_le_ahead s a b (ahead-At s (a ∷ b ∷ rest ++ more) at))
      (elim (Bool-cases (a + b * 2 ^ 8 == 1)) [
        | inl e ↦ rw (e, eqb→eq (a + b * 2 ^ 8) 1 e) refl
        | inr e ↦ rw e refl
      ])

-- The length of the user data: one byte, or two of which the first has its top bit set.
abbrev pub IsLen : List ℕ → Type 0
IsLen (a ∷ []) = has a 0x80 ≡ false
IsLen (a ∷ b ∷ []) = has a 0x80 ≡ true
IsLen xs = ⊥

pub skip_header-At :
    (s : Stream) (header len more : List ℕ)
    → length header ≡ 21
    → IsLen len
    → At (header ++ (len ++ more)) s
    → skip_header s ≡ some (in_uint8s s (21 + length len))
unfolding skip_header
skip_header-At s header [] more h is at = absurd is
skip_header-At s header (a ∷ []) more h is at =
    let at21 = subst (λ n. At (a ∷ more) (in_uint8s s n)) h (in_uint8s-At s header (a ∷ more) at) in
    rw (in_uint8-At (in_uint8s s 21) a more at21, is) (ap some (in_uint8s-in_uint8s s 21 1))
skip_header-At s header (a ∷ b ∷ []) more h is at =
    let at21 =
      subst (λ n. At (a ∷ b ∷ more) (in_uint8s s n)) h (in_uint8s-At s header (a ∷ b ∷ more) at) in
    let at22 = in_uint8s_one-At (in_uint8s s 21) a (b ∷ more) at21 in
    let sum = in_uint8s-in_uint8s (in_uint8s s 21) 1 1 ∙ in_uint8s-in_uint8s s 21 2 in
    rw
      (
        in_uint8-At (in_uint8s s 21) a (b ∷ more) at21,
        is,
        in_uint8-At (in_uint8s (in_uint8s s 21) 1) b more at22,
      )
      (ap some sum)
skip_header-At s header (a ∷ b ∷ c ∷ len) more h is at = absurd is
