-- ===== src/Mppc/Expand.antt =====
-- mppc_expand as its caller sees it: it ends, and with the 8 kB history it stays inside its
-- arrays.
use app_network_rdesktop.Base.{
  ℕ, ◌+◌, ◌-◌, ◌*◌, ◌≤◌, ◌≡◌, ◌≢◌, ◌⊎◌, inl, inr, Bool, true, false, has, ◌==◌, List, arith, length,
  Bool-cases,
}
use app_network_rdesktop.Mppc.Endings.{Outcome, value, minus_one, fault, stuck, ◌>>=◌}
use app_network_rdesktop.Mppc.Progress.{Ends, Ends-bind}
use app_network_rdesktop.Mppc.Safety.{expand_loop-Ends}
use app_network_rdesktop.Mppc.{
  Rdpcomp, Expanded, expand_loop, mppc_expand, start, prepare, rdp_mppc_compressed, rdp_mppc_big,
  rdp_mppc_reset, rdp_mppc_flush,
}

-- The result stands in the history, right behind what was there, and ends inside it.
abbrev pub Placed : Expanded → Type 0
Placed x = (x.roff + x.rlen ≡ x.dict.roff) × (x.dict.roff ≤ 65536)

expanded-Ends :
    (F : Type 0) (data' : List ℕ) (clen : ℕ)
    → (clen ≤ length data') ⊎ F
    → (big : Bool) → (big ≡ false) ⊎ F
    → (d : Rdpcomp) → d.roff ≤ 65536
    → Ends F Placed (
        expand_loop data' clen big (8 * clen + 1) (start d) >>= λ e. value (record {
          dict = record { roff = e.next_offset; hist = e.hist };
          roff = d.roff;
          rlen = e.next_offset - d.roff;
        }))
expanded-Ends F data' clen held big within d h =
    Ends-bind F _ Placed (expand_loop data' clen big (8 * clen + 1) (start d)) _
      (expand_loop-Ends F data' clen held big within (8 * clen + 1) (start d) (omega arith) h)
      λ e k. (omega arith, k.1)

prepare-roff : (ctype : ℕ) (d : Rdpcomp) → d.roff ≤ 65536 → (prepare ctype d).roff ≤ 65536
unfolding prepare
prepare-roff ctype d h = elim (Bool-cases (has ctype rdp_mppc_flush)) [
  | inl f ↦ rw f (omega arith)
  | inr f ↦
      rw f (elim (Bool-cases (has ctype rdp_mppc_reset)) [
        | inl r ↦ rw r (omega arith)
        | inr r ↦ rw r h
      ])
]

mppc_expand-Ends :
    (F : Type 0) (d : Rdpcomp) (data' : List ℕ) (clen ctype : ℕ)
    → (clen ≤ length data') ⊎ F
    → (has ctype rdp_mppc_big ≡ false) ⊎ F
    → d.roff ≤ 65536
    → has ctype rdp_mppc_compressed ≡ true
    → Ends F Placed (mppc_expand d data' clen ctype)
unfolding mppc_expand
mppc_expand-Ends F d data' clen ctype held within h c = rw c (elim (Bool-cases (clen == 0)) [
  | inl none_left ↦ rw none_left (omega (arith, prepare-roff ctype d h))
  | inr some_left ↦ rw some_left (
      expanded-Ends F data' clen held (has ctype rdp_mppc_big) within (prepare ctype d)
        (prepare-roff ctype d h))
])

Ends-answers : {A : Type 0} (F : Type 0) (P : A → Type 0) (m : Outcome A) → Ends F P m → m ≢ stuck
Ends-answers F P (value a) h e = absurd (grind arith)
Ends-answers F P minus_one h e = absurd (grind arith)
Ends-answers F P fault h e = absurd (grind arith)
Ends-answers F P stuck h e = h

mppc_expand-plain :
    (d : Rdpcomp) (data' : List ℕ) (clen ctype : ℕ)
    → has ctype rdp_mppc_compressed ≡ false
    → mppc_expand d data' clen ctype ≢ stuck
unfolding mppc_expand
mppc_expand-plain d data' clen ctype c = rw c (λ e. absurd (grind arith))

-- Whatever the data, `clen` and `ctype` are, mppc_expand ends: with a history offset inside the
-- history, the fuel of the model never runs out.
pub mppc_expand-stuck :
    (d : Rdpcomp) (data' : List ℕ) (clen ctype : ℕ)
    → d.roff ≤ 65536
    → mppc_expand d data' clen ctype ≢ stuck
mppc_expand-stuck d data' clen ctype h = elim (Bool-cases (has ctype rdp_mppc_compressed)) [
  | inl c ↦
      Ends-answers (Unit {0}) Placed (mppc_expand d data' clen ctype)
        (mppc_expand-Ends (Unit {0}) d data' clen ctype (inr tt) (inr tt) h c)
  | inr c ↦ mppc_expand-plain d data' clen ctype c
]

-- Compressed data of the 8 kB kind, of which the caller holds `clen` bytes at least, is expanded, from
-- a history offset inside the history, without an access outside the data or the history: mppc_expand returns -1, or the result that the
-- caller reads at `*roff` ends where the new history offset is, inside the history.
pub mppc_expand-within :
    (d : Rdpcomp) (data' : List ℕ) (clen ctype : ℕ)
    → d.roff ≤ 65536
    → clen ≤ length data'
    → has ctype rdp_mppc_compressed ≡ true
    → has ctype rdp_mppc_big ≡ false
    → Ends ⊥ Placed (mppc_expand d data' clen ctype)
mppc_expand-within d data' clen ctype h held c big =
    mppc_expand-Ends ⊥ d data' clen ctype (inl held) (inl big) h c
