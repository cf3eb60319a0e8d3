-- ===== src/Updates/Framing.antt =====
-- rdp5.c: the parts of a fast-path packet are processed each at its own place.
use app_network_rdesktop.Base.{
  ℕ, zero, suc, ◌+◌, ◌-◌, ◌^◌, ◌<◌, ◌≡◌, refl, ap, ◌∙◌, subst, false, has, ltb, lt→ltb, List, [],
  ◌∷◌, ◌++◌, Option, none, some, ◌>>=◌, arith, length, length-append, Parsed, returned, fault,
}
use app_network_rdesktop.Stream.{Stream, bytes16_le, in_uint8s}
use app_network_rdesktop.Stream.Unread.{
  At, in_uint8-At, in_uint8s-At, in_uint8s_one-At, in_uint16_le-At, in_uint8s-in_uint8s, length-At,
}
use app_network_rdesktop.Orders.Draw.{Ui, ui_begin_update, ui_end_update}
use app_network_rdesktop.Orders.Dispatch.{Session, Work}
use app_network_rdesktop.Orders.Handlers.{Surroundings}
use app_network_rdesktop.Updates.Parts.{
  Client, Handled, plain, read_part, part_message, process_part, prepend, go_on, process_parts,
  between_updates, rdp5_process,
}

-- A part that is not compressed: its type and what stands behind its length.
pub record PlainPart : Type 0 where
  pub type : ℕ
  pub content : List ℕ

abbrev pub wire : PlainPart → List ℕ
wire p = p.type ∷ (bytes16_le (length p.content) ++ p.content)

abbrev pub wires : List PlainPart → List ℕ
wires [] = []
wires (p ∷ ps) = wire p ++ wires ps

-- The type does not say that the part is compressed, and the length has 16 bits.
pub record IsPlainPart (p : PlainPart) : Type 0 where
  pub plain_type : has p.type 0x80 ≡ false
  pub length16 : length p.content < 2 ^ 16

abbrev pub ArePlainParts : List PlainPart → Type 0
ArePlainParts [] = Unit {0}
ArePlainParts (p ∷ ps) = IsPlainPart p × ArePlainParts ps

-- The state behind a part, with the pointer at `next`.
abbrev pub at_next : Client → ℕ → Session → Client
at_next k next e = record k { e = record e { s = record (k.e.s) { p = next } }; next_packet = next }

abbrev pub behind : Client → ℕ → Option Work → Option Handled
behind k next none = none
behind k next (some (e, calls)) = some (at_next k next e, calls)

abbrev pub both : Option Handled → (Client → Option Handled) → Option Handled
both none more = none
both (some (k, calls)) more = do (k', later) ← more k; some (k', calls ++ later)

behind_lem :
    (k : Client) (n : ℕ) (m : Option Work) → (m >>= λ r. some (at_next k n r.0, r.1)) ≡ behind k n m
behind_lem k n none = refl
behind_lem k n (some (e, calls)) = refl

-- A loop's end, unless a part's reading faults.
abbrev pub ended : Option Handled → Parsed Handled
ended none = fault
ended (some h) = returned h

-- The calls of a packet stand between those that begin and end the update.
abbrev pub updated : Option Handled → Parsed Handled
updated none = fault
updated (some (k, calls)) = returned (k, ui_begin_update ∷ calls ++ ui_end_update ∷ [])

prepend-ended :
    (calls : List Ui) (m : Option Handled)
    → prepend calls (ended m) ≡ ended (do (k, later) ← m; some (k, calls ++ later))
unfolding prepend
prepend-ended calls none = refl
prepend-ended calls (some h) = refl

between_updates-ended : (m : Option Handled) → between_updates (ended m) ≡ updated m
unfolding between_updates
between_updates-ended none = refl
between_updates-ended (some h) = refl

module _ (c : Surroundings) where
  -- What one part does: its message, read from its content on, and the pointer behind the part.
  abbrev pub part_effect : PlainPart → Client → Option Handled
  part_effect p k =
      behind k (k.e.s.p + 3 + length p.content)
        (part_message c p.type (record (k.e) { s = in_uint8s (k.e.s) 3 }))

  -- What they do one after another.
  abbrev pub effects : List PlainPart → Client → Option Handled
  effects [] k = some (k, [])
  effects (p ∷ ps) k = both (part_effect p k) (effects ps)

  read_part-wire :
      (p : PlainPart) (more : List ℕ) (s : Stream)
      → IsPlainPart p
      → At (wire p ++ more) s
      → read_part s
        ≡ some (record { type = p.type; ctype = 0; length' = length p.content }, in_uint8s s 3)
  unfolding read_part
  read_part-wire p more s is at =
      let rest = bytes16_le (length p.content) ++ (p.content ++ more) in
      let at1 = in_uint8s_one-At s p.type rest at in
      rw
        (
          in_uint8-At s p.type rest at,
          is.plain_type,
          in_uint16_le-At (in_uint8s s 1) (length p.content) (p.content ++ more) is.length16 at1,
        )
        (ap (λ t. some (record { type = p.type; ctype = 0; length' = length p.content }, t))
          (in_uint8s-in_uint8s s 1 2))

  process_part-wire :
      (p : PlainPart) (more : List ℕ) (k : Client)
      → IsPlainPart p
      → At (wire p ++ more) k.e.s
      → process_part c k ≡ part_effect p k
  unfolding process_part plain
  process_part-wire p more k is at = rw (read_part-wire p more k.e.s is at) (
      behind_lem k (k.e.s.p + 3 + length p.content)
        (part_message c p.type (record (k.e) { s = in_uint8s (k.e.s) 3 })))

  go_on-both :
      (k : Client) (n : ℕ) (m : Option Work) (next : Client → Parsed Handled)
      (more : Client → Option Handled)
      → ((e : Session) → next (at_next k n e) ≡ ended (more (at_next k n e)))
      → go_on (behind k n m) next ≡ ended (both (behind k n m) more)
  unfolding go_on
  go_on-both k n none next more h = refl
  go_on-both k n (some (e, calls)) next more h =
      rw (h e) (prepend-ended calls (more (at_next k n e)))

  process_parts-effects :
      (ps : List PlainPart) (fuel : ℕ) (k : Client)
      → ArePlainParts ps
      → At (wires ps) k.e.s
      → length (wires ps) < fuel
      → process_parts c fuel k ≡ ended (effects ps k)
  unfolding process_parts
  process_parts-effects ps zero k are at enough = absurd (omega arith)
  process_parts-effects [] (suc fuel) k are at enough =
      let no : ltb k.e.s.p k.e.s.end ≡ false = ground (arith, length-At (k.e.s) [] at) in rw no refl
  process_parts-effects (p ∷ ps) (suc fuel) k are at enough =
      let s = k.e.s in
      let after = in_uint8s-At s (wire p) (wires ps) at in
      let next : s.p + length (wire p) ≡ s.p + 3 + length p.content = omega arith in
      let total = length-append (wire p) (wires ps) in
      rw
        (
          lt→ltb s.p s.end (omega (arith, length-At s (wires (p ∷ ps)) at)),
          process_part-wire p (wires ps) k are.0 at,
        )
        (go_on-both k (s.p + 3 + length p.content)
          (part_message c p.type (record (k.e) { s = in_uint8s s 3 })) (process_parts c fuel)
          (effects ps)
          λ e.
            process_parts-effects ps fuel (at_next k (s.p + 3 + length p.content) e) are.1
              (subst (λ n. At (wires ps) (record s { p = n })) next after) (omega (arith, total)))

  -- A fast-path packet of parts that are not compressed: rdp5_process does what the parts do one after
  -- another, each from the place where its content begins, wherever the reading of the one before
  -- stopped, and leaves the pointer behind the last one; all calls of the user interface stand
  -- between ui_begin_update and ui_end_update. It faults only where the message of a part does.
  pub rdp5_process-effects :
      (ps : List PlainPart) (k : Client)
      → ArePlainParts ps
      → At (wires ps) k.e.s
      → rdp5_process c k ≡ updated (effects ps k)
  unfolding rdp5_process
  rdp5_process-effects ps k are at =
      let s = k.e.s in
      ap between_updates (
        process_parts-effects ps (suc (s.end - s.p)) k are at
          (omega (arith, length-At s (wires ps) at)))
      ∙ between_updates-ended (effects ps k)
