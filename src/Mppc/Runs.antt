-- ===== src/Mppc/Runs.antt =====
-- mppc_expand at short data: two letters that stand for themselves, and a match that repeats them.
use app_network_rdesktop.Base.{ℕ, ◌≡◌, ◌≢◌, refl, List, [], ◌∷◌, Option, some, none, arith, window}
use app_network_rdesktop.Mppc.{
  Rdpcomp, Expanded, mppc_expand, expand_loop, turn, fetch_if_empty, fetch, next_byte, put_marked,
  put_plain, put_match, refill_below, refill, refill_to, decode_offset, offset_arm, decode_length,
  length_prefix, copy_match, put_literal, prepare,
}
use app_network_rdesktop.Mppc.Endings.{Outcome, value, fault, stuck}
use app_network_rdesktop.Mppc.Progress.{Ends}
use app_network_rdesktop.Mppc.Expand.{Placed, mppc_expand-stuck, mppc_expand-within}

abbrev fresh : Rdpcomp
fresh = record { roff = 0; hist = λ _. 0 }

-- `a`, `b`, and bits 1111 000010 0: three bytes from two bytes back.
abbrev repeated : List ℕ
repeated = 97 ∷ 98 ∷ 0xf0 ∷ 0x80 ∷ []

mppc_expand-stuck_example : mppc_expand fresh repeated 4 0x20 ≢ stuck
mppc_expand-stuck_example = mppc_expand-stuck fresh repeated 4 0x20 (omega arith)

mppc_expand-within_example : Ends ⊥ Placed (mppc_expand fresh repeated 4 0x20)
mppc_expand-within_example =
    mppc_expand-within fresh repeated 4 0x20 (omega arith) (omega arith) refl refl

-- What the caller sees of a result: where it begins, and its bytes.
abbrev shown : Outcome Expanded → Option (ℕ × List ℕ)
shown (value x) = some (x.roff, window x.dict.hist x.roff x.rlen)
shown _ = none

mppc_expand_match :
    shown (mppc_expand fresh repeated 4 0x20) ≡ some (0, 97 ∷ 98 ∷ 97 ∷ 98 ∷ 97 ∷ [])
unfolding mppc_expand expand_loop turn fetch_if_empty fetch next_byte put_marked put_plain put_match
    refill_below refill refill_to decode_offset offset_arm decode_length length_prefix copy_match
    put_literal prepare
mppc_expand_match = refl

-- With the 64 kB history, a match one byte back from the history's start is read from its last byte
-- on, over its end.
mppc_expand_wrapped : mppc_expand fresh (0xf8 ∷ 0x20 ∷ []) 2 0x21 ≡ fault
unfolding mppc_expand expand_loop turn fetch_if_empty fetch next_byte put_marked put_plain put_match
    refill_below refill refill_to decode_offset offset_arm decode_length length_prefix copy_match
    put_literal prepare
mppc_expand_wrapped = refl
