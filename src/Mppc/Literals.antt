-- ===== src/Mppc/Literals.antt =====
-- Bytes below 128 stand for themselves in compressed data.
use app_network_rdesktop.Base.{ℕ, ◌+◌, ◌<◌, ◌≡◌, Bool, List, window, length}
use app_network_rdesktop.Mppc.Endings.{Outcome, value}
use app_network_rdesktop.Mppc.{Expansion}

module _ (data' : List ℕ) (clen : ℕ) (big : Bool) where
  -- What the loop answers, when the bytes `rest` are still to be read.
  record Copied (next : ℕ) (hist : ℕ → ℕ) (rest : List ℕ) (m : Outcome Expansion) : Type 0 where
    last : Expansion
    answer : m ≡ value last
    moved : last.next_offset ≡ next + length rest
    copied : window last.hist next (length rest) ≡ rest
    kept : (j : ℕ) → j < next → last.hist j ≡ hist j
