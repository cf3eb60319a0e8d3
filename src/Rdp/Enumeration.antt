-- ===== src/Rdp/Enumeration.antt =====
-- rdp_enum_bmpcache2 tells the server every key of the persistent bitmap cache once.
use app_network_rdesktop.Base.{
  ℕ, zero, suc, ◌+◌, ◌-◌, ◌*◌, ◌<◌, ◌≤◌, ◌≡◌, refl, ap, sym, ◌∙◌, ltb, min, List, [], ◌∷◌, ◌++◌,
  Option, some, length, take, drop, All, arith, length-append, length-take, length-drop, Bool-cases,
  inl, inr, ltb→lt, not_ltb→le, lt→ltb, le→ltb, take-length_le, append-nil,
}
use app_network_rdesktop.Stream.{Stream, out_bytes, bytes16_le, bytes32_le}
use app_network_rdesktop.Stream.Writing.{out_all_lem}
use app_network_rdesktop.Tcp.State.{Tcp}
use app_network_rdesktop.Rdp.{Rdp, Handed, data_flags, enum_loop, rdp_enum_bmpcache2, send_data_pdu}
use app_network_rdesktop.Rdp.Bodies.{keys_pdu, keys_flags, concat}
use app_network_rdesktop.Rdp.Sending.{data_pdu, Given, send_data_pdu_lem}

abbrev pub Keys : List (List ℕ) → Type 0
Keys keys = All (λ key. length key ≡ 8) keys

-- PDU_FLAG_FIRST in the first page, PDU_FLAG_LAST in the one behind which no keys are left.
abbrev pub page_flags : ℕ → List (List ℕ) → ℕ
page_flags zero [] = 3
page_flags zero (key ∷ left) = 1
page_flags (suc offset) [] = 2
page_flags (suc offset) (key ∷ left) = 0

-- A page of keys, behind its header.
abbrev page_head : ℕ → ℕ → ℕ → List ℕ → List ℕ
page_head num_keys count flags content =
    0
    ∷ 0
    ∷ 0
    ∷ 0
    ∷ (bytes16_le count
        ++ (0
            ∷ 0
            ∷ 0
            ∷ 0
            ∷ 0
            ∷ 0
            ∷ 0
            ∷ 0
            ∷ (bytes16_le num_keys ++ (0 ∷ 0 ∷ 0 ∷ 0 ∷ (bytes32_le flags ++ content)))))

abbrev pub page : ℕ → ℕ → List (List ℕ) → List (List ℕ) → List ℕ
page num_keys offset keys left =
    page_head num_keys (length keys) (page_flags offset left) (concat keys)

-- What is handed down for the keys from `offset` on: pages of 169 keys, and one with the rest.
pub data Pages (r : Rdp) (num_keys : ℕ) : ℕ → List (List ℕ) → List Handed → Type 0 where
  no_more : (offset : ℕ) → Pages r num_keys offset [] []
  one_page :
      (offset : ℕ) (keys : List (List ℕ)) (outs : List Handed)
      → 0 < length keys
      → Pages r num_keys (offset + 169) (drop 169 keys) outs
      → Pages r num_keys offset keys (
          record {
            sec_flags = data_flags r;
            bytes = data_pdu r 0x2b (page num_keys offset (take 169 keys) (drop 169 keys));
          }
          ∷ outs)

take-Keys : (n : ℕ) (keys : List (List ℕ)) → Keys keys → Keys (take n keys)
take-Keys zero keys h = tt
take-Keys (suc n) [] h = tt
take-Keys (suc n) (key ∷ keys) (h, hs) = (h, take-Keys n keys hs)

drop-Keys : (n : ℕ) (keys : List (List ℕ)) → Keys keys → Keys (drop n keys)
drop-Keys zero keys h = h
drop-Keys (suc n) [] h = tt
drop-Keys (suc n) (key ∷ keys) (h, hs) = drop-Keys n keys hs

length-concat : (keys : List (List ℕ)) → Keys keys → length (concat keys) ≡ length keys * 8
length-concat [] h = refl
length-concat (key ∷ keys) (h, hs) =
    omega (arith, length-append key (concat keys), length-concat keys hs, h)

keys_flags_lem :
    (num_keys offset : ℕ) (left : List (List ℕ))
    → length left ≡ num_keys - offset - 169
    → keys_flags num_keys offset ≡ page_flags offset left
keys_flags_lem num_keys zero [] h = ground arith
keys_flags_lem num_keys zero (key ∷ left) h = ground arith
keys_flags_lem num_keys (suc offset) [] h = ground arith
keys_flags_lem num_keys (suc offset) (key ∷ left) h = ground arith

take-min : (n : ℕ) (keys : List (List ℕ)) → take (min (length keys) n) keys ≡ take n keys
take-min n keys = elim (Bool-cases (ltb n (length keys))) [
  | inl e ↦
      ap (λ i. take i keys)
        (let d : min (length keys) n ≡ n = omega (arith, ltb→lt n (length keys) e) in d)
  | inr e ↦
      let k = not_ltb→le n (length keys) e in
      ap (λ i. take i keys) (let d : min (length keys) n ≡ length keys = omega (arith, k) in d)
      ∙ take-length_le (length keys) keys (omega arith)
      ∙ sym (take-length_le n keys k)
]

-- What the enumeration gives.
pub record Listed (r : Rdp) (num_keys offset : ℕ) (keys : List (List ℕ))
    (a : Option (List Handed × Tcp)) : Type 0 where
  pub outs : List Handed
  pub t' : Tcp
  pub answer : a ≡ some (outs, t')
  pub pages : Pages r num_keys offset keys outs

module _ (sec_send : ℕ → Stream → Tcp → Tcp) (r : Rdp) (num_keys : ℕ) where
  -- One round.
  round_lem :
      (offset : ℕ) (keys : List (List ℕ)) (t : Tcp)
      → Keys keys
      → length keys ≡ num_keys - offset
      → Given sec_send
          (data_flags r)
          (data_pdu r 0x2b (page num_keys offset (take 169 keys) (drop 169 keys)))
          t
          (send_data_pdu sec_send r
            (24 + min (num_keys - offset) 169 * 8)
            (keys_pdu num_keys offset
              (min (num_keys - offset) 169)
              (take (min (num_keys - offset) 169) keys))
            0x2b
            t)
  unfolding keys_pdu
  round_lem offset keys t h n =
      let count : min (num_keys - offset) 169 ≡ length (take 169 keys) =
        omega (arith, length-take 169 keys) in
      let flags =
        keys_flags_lem num_keys offset (drop 169 keys) (omega (arith, length-drop 169 keys)) in
      let size = length-concat (take 169 keys) (take-Keys 169 keys h) in
      let taken : take (min (num_keys - offset) 169) keys ≡ take 169 keys =
        ap (λ i. take (min i 169) keys) (sym n) ∙ take-min 169 keys in
      rw (taken, count)
        (send_data_pdu_lem sec_send r (24 + length (take 169 keys) * 8)
          (keys_pdu num_keys offset (length (take 169 keys)) (take 169 keys))
          (page num_keys offset (take 169 keys) (drop 169 keys))
          (λ s.
            out_all_lem
              (bytes16_le (length (take 169 keys))
                ∷ (0 ∷ 0 ∷ [])
                ∷ (0 ∷ 0 ∷ [])
                ∷ (0 ∷ 0 ∷ [])
                ∷ (0 ∷ 0 ∷ [])
                ∷ bytes16_le num_keys
                ∷ (0 ∷ 0 ∷ 0 ∷ 0 ∷ [])
                ∷ bytes32_le (keys_flags num_keys offset)
                ∷ concat (take 169 keys)
                ∷ [])
              s (0 ∷ 0 ∷ 0 ∷ 0 ∷ [])
            ∙ ap
                (λ f.
                  out_bytes s
                    (page_head num_keys (length (take 169 keys)) f (concat (take 169 keys) ++ [])))
                flags
            ∙ ap
                (λ xs. out_bytes s (
                  page_head num_keys (length (take 169 keys)) (page_flags offset (drop 169 keys))
                    xs))
                (append-nil (concat (take 169 keys))))
          (omega (arith, size)) (omega (arith, size, length-take 169 keys)) 0x2b t)

  enum_loop_lem :
      (rounds offset : ℕ) (keys : List (List ℕ)) (t : Tcp)
      → Keys keys
      → length keys ≡ num_keys - offset
      → length keys ≤ rounds
      → Listed r num_keys offset keys (enum_loop sec_send r rounds num_keys offset keys t)
  unfolding enum_loop
  enum_loop_lem zero offset [] t h n k = record {
    outs = [];
    t' = t;
    answer = refl;
    pages = no_more offset;
  }
  enum_loop_lem zero offset (key ∷ keys) t h n k = absurd (omega arith)
  enum_loop_lem (suc rounds) offset [] t h n k =
      rw (le→ltb offset num_keys (omega (arith, n)), enum_loop)
        (record { outs = []; t' = t; answer = refl; pages = no_more offset })
  enum_loop_lem (suc rounds) offset (key ∷ keys) t h n k =
      let given = round_lem offset (key ∷ keys) t h n in
      let left = drop 169 (key ∷ keys) in
      let rest =
        enum_loop_lem rounds (offset + 169) left (sec_send (data_flags r) given.s t)
          (drop-Keys 169 (key ∷ keys) h) (omega (arith, length-drop 169 (key ∷ keys), n))
          (omega (arith, length-drop 169 (key ∷ keys), k)) in
      rw (lt→ltb offset num_keys (omega (arith, n)), given.answer, rest.answer, enum_loop)
        (record {
          outs = _;
          t' = rest.t';
          answer = refl;
          pages = one_page offset (key ∷ keys) rest.outs (omega arith) rest.pages;
        })

  -- Whatever memory the stream has and whatever sec_send leaves of it: all the keys, each of 8 bytes, are
  -- handed to the secure layer, in their order, in data PDUs of 169 keys and one with the rest. Each
  -- announces the number of its keys and of all keys, the first one has PDU_FLAG_FIRST and the last one
  -- PDU_FLAG_LAST; no PDU is sent when there are no keys, and nothing is written outside the stream.
  pub rdp_enum_bmpcache2-Listed :
      (keylist : List (List ℕ)) (t : Tcp)
      → Keys keylist
      → length keylist ≡ num_keys
      → Listed r num_keys 0 keylist (rdp_enum_bmpcache2 sec_send r keylist t)
  unfolding rdp_enum_bmpcache2
  rdp_enum_bmpcache2-Listed keylist t h n =
      rw n (enum_loop_lem num_keys 0 keylist t h (omega (arith, n)) (omega (arith, n)))
