-- ===== src/Activation/Sets.antt =====
-- rdp.c: the capability sets on the wire, and what the client makes of them.
use app_network_rdesktop.Base.{
  ℕ, ◌+◌, ◌-◌, ◌^◌, ◌<◌, ◌≤◌, ◌≡◌, refl, sym, ap, ◌∙◌, subst, false, not, ltb, ◌==◌, ◌||◌, ◌&&◌,
  if◌then◌else◌, List, [], ◌∷◌, ◌++◌, some, ◌>>=◌, arith, length, length-append, append_assoc,
  Bool-cases, eqb→eq, inl, inr,
}
use app_network_rdesktop.Stream.{Stream, bytes16_le, in_uint8s}
use app_network_rdesktop.Stream.Unread.{At, in_uint8s-At, in_uint16_le-At, in_uint8s-in_uint8s}
use app_network_rdesktop.Orders.Draw.{Ui, ui_resize_window}
use app_network_rdesktop.Rdp.{Rdp}
use app_network_rdesktop.Activation.{
  rdp_process_general_caps, rdp_process_bitmap_caps, process_set, next_set, process_sets,
  rdp_process_server_caps,
}

-- A general set with its flags, a bitmap set with depth, width and height, and any other.
pub data CapSet : Type 0 where
  general : List ℕ → ℕ → List ℕ → CapSet
  bitmap : ℕ → List ℕ → ℕ → ℕ → List ℕ → CapSet
  other : ℕ → List ℕ → CapSet

abbrev pub type_of : CapSet → ℕ
type_of (general front flags back) = 1
type_of (bitmap depth front width height back) = 2
type_of (other type content) = type

abbrev pub content_of : CapSet → List ℕ
content_of (general front flags back) = front ++ (bytes16_le flags ++ back)
content_of (bitmap depth front width height back) =
    bytes16_le depth ++ (front ++ (bytes16_le width ++ (bytes16_le height ++ back)))
content_of (other type content) = content

-- The type, the length with these four bytes, and the content.
abbrev pub wire : CapSet → List ℕ
wire set = bytes16_le (type_of set) ++ (bytes16_le (length (content_of set) + 4) ++ content_of set)

abbrev pub wires : List CapSet → List ℕ
wires [] = []
wires (set ∷ sets) = wire set ++ wires sets

-- The fields stand where the client reads them and have 16 bits; another set has another type.
abbrev pub HasFields : CapSet → Type 0
HasFields (general front flags back) = (length front ≡ 10) × (flags < 2 ^ 16)
HasFields (bitmap depth front width height back) =
    (length front ≡ 6) × (depth < 2 ^ 16) × (width < 2 ^ 16) × (height < 2 ^ 16)
HasFields (other type content) = (type == 1 ≡ false) × (type == 2 ≡ false) × (type < 2 ^ 16)

abbrev pub AreSets : List CapSet → Type 0
AreSets [] = Unit {0}
AreSets (set ∷ sets) = (HasFields set × (length (content_of set) + 4 < 2 ^ 16)) × AreSets sets

-- The desktop gets a size, and the window is resized if it is another one.
abbrev pub sized : ℕ → ℕ → Rdp → Rdp × List Ui
sized width height r = (
  record r { width = width; height = height },
  if r.width == width && r.height == height then [] else ui_resize_window ∷ [],
)

-- A general set without flags makes the client speak RDP 4; a bitmap set gives the depth and the size.
abbrev pub effect : CapSet → Rdp → Rdp × List Ui
effect (general front flags back) r =
    (if flags == 0 then record r { settings = record (r.settings) { rdp_v5 = false } } else r, [])
effect (bitmap depth front width height back) r =
    sized width height (record r { settings = record (r.settings) { server_depth = depth } })
effect (other type content) r = (r, [])

abbrev pub effects : List CapSet → Rdp → Rdp × List Ui
effects [] r = (r, [])
effects (set ∷ sets) r =
    let (r', calls) = effect set r in let (r'', more) = effects sets r' in (r'', calls ++ more)

general_lem :
    (front back more : List ℕ) (flags : ℕ) (s : Stream) (r : Rdp)
    → HasFields (general front flags back)
    → At (content_of (general front flags back) ++ more) s
    → (do r ← rdp_process_general_caps s r; some (r, []))
      ≡ some (effect (general front flags back) r)
unfolding rdp_process_general_caps
general_lem front back more flags s r (h, small) at =
    let shift = append_assoc front (bytes16_le flags ++ back) more in
    let at' =
      in_uint8s-At s front ((bytes16_le flags ++ back) ++ more) (subst (λ bs. At bs s) shift at) in
    rw
      (in_uint16_le-At (in_uint8s s 10) flags (back ++ more) small
        (subst (λ n. At ((bytes16_le flags ++ back) ++ more) (in_uint8s s n)) h at'))
      refl

type_of-16 : (set : CapSet) → HasFields set → type_of set < 2 ^ 16
type_of-16 (general front flags back) has = omega arith
type_of-16 (bitmap depth front width height back) has = omega arith
type_of-16 (other type content) has = has.2

-- The depth is the given one, whichever way the test goes.
depth_lem :
    (depth : ℕ) (r : Rdp)
    → (if r.settings.server_depth == depth
        then r
        else record r { settings = record (r.settings) { server_depth = depth } })
      ≡ record r { settings = record (r.settings) { server_depth = depth } }
depth_lem depth r = elim (Bool-cases (r.settings.server_depth == depth)) [
  | inl e ↦ rw e (λ i. record r {
    settings = record (r.settings) { server_depth = eqb→eq (r.settings.server_depth) depth e i };
  })
  | inr e ↦ rw e refl
]

size_lem :
    (width height : ℕ) (r : Rdp)
    → sized width height r ≡ (
        if not (r.width == width) || not (r.height == height)
        then (record r { width = width; height = height }, ui_resize_window ∷ [])
        else (r, []))
size_lem width height r = elim (Bool-cases (r.width == width)) [
  | inl e ↦ elim (Bool-cases (r.height == height)) [
    | inl f ↦
        rw (e, f)
          (λ i. (
            record r {
              width = sym (eqb→eq (r.width) width e) i;
              height = sym (eqb→eq (r.height) height f) i;
            },
            [],
          ))
    | inr f ↦ rw (e, f) refl
  ]
  | inr e ↦ rw e refl
]

bitmap_lem :
    (front back more : List ℕ) (depth width height : ℕ) (s : Stream) (r : Rdp)
    → HasFields (bitmap depth front width height back)
    → At (content_of (bitmap depth front width height back) ++ more) s
    → rdp_process_bitmap_caps s r ≡ some (effect (bitmap depth front width height back) r)
unfolding rdp_process_bitmap_caps
bitmap_lem front back more depth width height s r (h, depth16, width16, height16) at =
    let rest = bytes16_le width ++ (bytes16_le height ++ back) in
    let at2 = in_uint8s-At s (bytes16_le depth) ((front ++ rest) ++ more) at in
    let front_at = subst (λ bs. At bs (in_uint8s s 2)) (append_assoc front rest more) at2 in
    let after = in_uint8s-At (in_uint8s s 2) front (rest ++ more) front_at in
    let at8 = subst (λ n. At (rest ++ more) (in_uint8s (in_uint8s s 2) n)) h after in
    let s8 = in_uint8s (in_uint8s s 2) 6 in
    let at10 = in_uint8s-At s8 (bytes16_le width) (bytes16_le height ++ (back ++ more)) at8 in
    rw
      (
        in_uint16_le-At s depth ((front ++ rest) ++ more) depth16 at,
        in_uint16_le-At s8 width (bytes16_le height ++ (back ++ more)) width16 at8,
        in_uint16_le-At (in_uint8s s8 2) height (back ++ more) height16 at10,
        depth_lem depth r,
      )
      (ap some (
        sym (
          size_lem width height
            (record r { settings = record (r.settings) { server_depth = depth } }))))

process_set-effect :
    (set : CapSet) (more : List ℕ) (s : Stream) (r : Rdp)
    → HasFields set
    → At (content_of set ++ more) s
    → process_set (type_of set) s r ≡ some (effect set r)
unfolding process_set
process_set-effect (general front flags back) more s r has at =
    general_lem front back more flags s r has at
process_set-effect (bitmap depth front width height back) more s r has at =
    bitmap_lem front back more depth width height s r has at
process_set-effect (other type content) more s r (one, two, small) at = rw (one, two) refl

next_set-wire :
    (set : CapSet) (more : List ℕ) (s : Stream) (r : Rdp)
    → HasFields set
    → length (content_of set) + 4 < 2 ^ 16
    → At (wire set ++ more) s
    → next_set s r
      ≡ some (in_uint8s s (4 + length (content_of set)), (effect set r).0, (effect set r).1)
unfolding next_set
next_set-wire set more s r has' small at =
    let rest = content_of set ++ more in
    let len = length (content_of set) + 4 in
    let at2 = in_uint8s-At s (bytes16_le (type_of set)) (bytes16_le len ++ rest) at in
    let at4 = in_uint8s-At (in_uint8s s 2) (bytes16_le len) rest at2 in
    let type16 : type_of set < 2 ^ 16 = type_of-16 set has' in
    let next : s.p + 2 + 2 + len - 4 ≡ s.p + (4 + length (content_of set)) = omega arith in
    rw
      (
        in_uint16_le-At s (type_of set) (bytes16_le len ++ rest) type16 at,
        in_uint16_le-At (in_uint8s s 2) len rest small at2,
        process_set-effect set more (in_uint8s (in_uint8s s 2) 2) r has' at4,
      )
      (ap (λ p. some (record s { p = p }, (effect set r).0, (effect set r).1)) next)

process_sets-effects :
    (sets : List CapSet) (more : List ℕ) (limit : ℕ) (s : Stream) (r : Rdp)
    → AreSets sets
    → s.p + length (wires sets) ≤ limit
    → At (wires sets ++ more) s
    → process_sets (length sets) limit s r
      ≡ some (in_uint8s s (length (wires sets)), (effects sets r).0, (effects sets r).1)
unfolding process_sets
process_sets-effects [] more limit s r are within at =
    let same : s.p ≡ s.p + 0 = omega arith in ap (λ p. some (record s { p = p }, r, [])) same
process_sets-effects (set ∷ sets) more limit s r are within at =
    let inside : ltb limit s.p ≡ false = ground arith in
    let long = 4 + length (content_of set) in
    let at' = subst (λ bs. At bs s) (append_assoc (wire set) (wires sets) more) at in
    let after = in_uint8s-At s (wire set) (wires sets ++ more) at' in
    let len : length (wire set) ≡ long = omega arith in
    let total : long + length (wires sets) ≡ length (wires (set ∷ sets)) =
      omega (arith, length-append (wire set) (wires sets)) in
    rw
      (
        inside,
        next_set-wire set (wires sets ++ more) s r are.0.0 are.0.1 at',
        process_sets-effects sets more limit (in_uint8s s long) (effect set r).0 are.1
            (omega (arith, within, length-append (wire set) (wires sets)))
            (subst (λ n. At (wires sets ++ more) (in_uint8s s n)) len after),
      )
      (ap (λ t. some (t, (effects (set ∷ sets) r).0, (effects (set ∷ sets) r).1))
        (in_uint8s-in_uint8s s long (length (wires sets)) ∙ ap (in_uint8s s) total))

-- The capability sets of the server, at most 2^16 - 1 of them, behind their number and two bytes, in a
-- combined length that takes them in, whatever stands behind: rdp_process_server_caps makes of the
-- state what the sets make of it one after another, each read from its own place, and leaves the
-- pointer behind the last one. A general set without flags makes the client speak RDP 4 and a bitmap
-- set gives it the depth and the size of the desktop, with a resize of the window if the size is
-- another one.
pub rdp_process_server_caps-effects :
    (sets : List CapSet) (pad more : List ℕ) (length' : ℕ) (s : Stream) (r : Rdp)
    → AreSets sets
    → length sets < 2 ^ 16
    → length pad ≡ 2
    → 4 + length (wires sets) ≤ length'
    → At (bytes16_le (length sets) ++ (pad ++ (wires sets ++ more))) s
    → rdp_process_server_caps length' s r
      ≡ some (in_uint8s s (4 + length (wires sets)), (effects sets r).0, (effects sets r).1)
unfolding rdp_process_server_caps
rdp_process_server_caps-effects sets pad more length' s r are few two within at =
    let rest = wires sets ++ more in
    let at2 = in_uint8s-At s (bytes16_le (length sets)) (pad ++ rest) at in
    let after = in_uint8s-At (in_uint8s s 2) pad rest at2 in
    let at4 = subst (λ n. At rest (in_uint8s (in_uint8s s 2) n)) two after in
    let four : 2 + (2 + length (wires sets)) ≡ 4 + length (wires sets) = omega arith in
    rw
      (
        in_uint16_le-At s (length sets) (pad ++ rest) few at,
        process_sets-effects sets more (s.p + length') (in_uint8s (in_uint8s s 2) 2) r are
            (omega (arith, within)) at4,
      )
      (ap (λ t. some (t, (effects sets r).0, (effects sets r).1))
        (in_uint8s-in_uint8s (in_uint8s s 2) 2 (length (wires sets))
          ∙ in_uint8s-in_uint8s s 2 (2 + length (wires sets))
          ∙ ap (in_uint8s s) four))
