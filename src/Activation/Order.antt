-- ===== src/Activation/Order.antt =====
-- rdp.c: process_demand_active as a whole, with the packets that answer.
use app_network_rdesktop.Base.{
  ℕ, ◌+◌, ◌*◌, ◌^◌, ◌≤◌, ◌≡◌, refl, ap, ◌∙◌, Bool, true, false, if◌then◌else◌, List, [], ◌∷◌, ◌++◌,
  Option, some, length, append_assoc, Parsed, returned,
}
use app_network_rdesktop.Stream.{Stream}
use app_network_rdesktop.Tcp.State.{Tcp}
use app_network_rdesktop.Orders.State.{reset_order_state}
use app_network_rdesktop.Orders.Draw.{Ui}
use app_network_rdesktop.Orders.Handlers.{Surroundings}
use app_network_rdesktop.Rdp.{Rdp, Handed, data_flags}
use app_network_rdesktop.Rdp.Events.{input_event, rdp_send_input_lem}
use app_network_rdesktop.Rdp.Confirm.{confirm_flags, rdp_send_confirm_active_lem}
use app_network_rdesktop.Rdp.Enumeration.{Keys, Pages, rdp_enum_bmpcache2-Listed}
use app_network_rdesktop.Updates.Machine.{Machine}
use app_network_rdesktop.Updates.Loop.{◌>>=◌}
use app_network_rdesktop.Activation.{demanded}
use app_network_rdesktop.Activation.Exchange.{
  all_sent, send_lists, send_confirmation, process_demand_active, with_demanded,
}
use app_network_rdesktop.Activation.Answer.{
  IsPacket, taken, received-IsPacket, Sending, sent-Sending, control-Sending, fonts-Sending,
  synchronise-Sending, given_data, given_control, given_fonts, given_synchronise,
  given_confirmation,
}

-- The machine behind what was sent.
abbrev pub after : Machine → List Handed → Tcp → Machine
after m outs t = record m { connection = t; given = m.given ++ outs }

then-Sending :
    (m : Machine) (outs more : List Handed) (a : Parsed Machine) (next : Machine → Parsed Machine)
    → Sending m outs a
    → ((t : Tcp) → Sending (after m outs t) more (next (after m outs t)))
    → Sending m (outs ++ more) (a >>= next)
then-Sending m outs more a next one two =
    let later = two one.t' in
    record {
      t' = later.t';
      answer = rw one.answer (
          later.answer
          ∙ ap (λ g. returned (record m { connection = later.t'; given = g }))
              (append_assoc m.given outs more));
    }

-- What is sent last: from RDP 5 on the keys and a fonts PDU, else two of them.
pub data Lists (r : Rdp) (keylist : List (List ℕ)) : List Handed → Type 0 where
  five :
      (pages : List Handed)
      → r.settings.rdp_v5 ≡ true
      → Pages r (length keylist) 0 keylist pages
      → Lists r keylist (pages ++ given_fonts r 3 ∷ [])
  four : r.settings.rdp_v5 ≡ false → Lists r keylist (given_fonts r 1 ∷ given_fonts r 2 ∷ [])

pub record Listing (m : Machine) (keylist : List (List ℕ)) (a : Parsed Machine) : Type 0 where
  pub outs : List Handed
  pub lists : Lists m.globals keylist outs
  pub sending : Sending m outs a

if-Listing :
    (m : Machine) (keylist : List (List ℕ)) (b : Bool) (x y : Parsed Machine)
    → (b ≡ true → Listing m keylist x)
    → (b ≡ false → Listing m keylist y)
    → Listing m keylist (if b then x else y)
if-Listing m keylist true x y f g = f refl
if-Listing m keylist false x y f g = g refl

-- What is sent before the server answers.
abbrev pub confirmation : Rdp → List Handed
confirmation r =
    given_confirmation r ∷ given_synchronise r ∷ given_control r 4 ∷ given_control r 1 ∷ []

all_sent-Sending :
    (m : Machine) (outs : List Handed) (t : Tcp) (a : Option (List Handed × Tcp))
    → a ≡ some (outs, t)
    → Sending m outs (all_sent m a)
unfolding all_sent
all_sent-Sending m outs t a e = record { t' = t; answer = ap (all_sent m) e }

module _ (sec_send : ℕ → Stream → Tcp → Tcp) (rd_create_ui : List Ui) (numlock_state : ℕ)
    (keylist : List (List ℕ)) where
  send_confirmation-Sending :
      (c : Surroundings) (m : Machine)
      → Sending m
          (confirmation m.globals)
          (send_confirmation c sec_send rd_create_ui numlock_state keylist m)
  unfolding send_confirmation
  send_confirmation-Sending c m =
      then-Sending m (given_confirmation m.globals ∷ []) _ _ _
        (sent-Sending sec_send m (confirm_flags m.globals) (given_confirmation m.globals).bytes _
          (rdp_send_confirm_active_lem sec_send m.globals m.connection))
        λ t.
          let m = after m (given_confirmation m.globals ∷ []) t in
          then-Sending m (given_synchronise m.globals ∷ []) _ _ _ (synchronise-Sending sec_send m)
            λ t.
              let m = after m (given_synchronise m.globals ∷ []) t in
              then-Sending m (given_control m.globals 4 ∷ []) _ _ _ (control-Sending sec_send m 4)
                λ t. control-Sending sec_send (after m (given_control m.globals 4 ∷ []) t) 1

  send_lists-Listing :
      (c : Surroundings) (m : Machine)
      → Keys keylist
      → Listing m keylist (send_lists c sec_send rd_create_ui numlock_state keylist m)
  unfolding send_lists
  send_lists-Listing c m keys =
      if-Listing m keylist m.globals.settings.rdp_v5 _ _
        (λ e.
          let l =
            rdp_enum_bmpcache2-Listed sec_send m.globals (length keylist) keylist m.connection keys
              refl in
          record {
            outs = l.outs ++ given_fonts m.globals 3 ∷ [];
            lists = five l.outs e l.pages;
            sending =
                then-Sending m l.outs (given_fonts m.globals 3 ∷ []) _ _
                  (all_sent-Sending m l.outs l.t' _ l.answer)
                  λ t. fonts-Sending sec_send (after m l.outs t) 3;
          })
        λ e. record {
          outs = given_fonts m.globals 1 ∷ given_fonts m.globals 2 ∷ [];
          lists = four e;
          sending =
              then-Sending m (given_fonts m.globals 1 ∷ []) (given_fonts m.globals 2 ∷ []) _ _
                (fonts-Sending sec_send m 1)
                λ t. fonts-Sending sec_send (after m (given_fonts m.globals 1 ∷ []) t) 2;
        }

-- The whole exchange with the globals `r`, when `rest` has not arrived yet.
pub record Answered (m : Machine) (r : Rdp) (numlock_state : ℕ) (keylist : List (List ℕ))
    (rest : List (Stream × ℕ)) (a : Parsed Machine) : Type 0 where
  pub m' : Machine
  pub answer : a ≡ returned m'
  pub outs : List Handed
  pub lists : Lists r keylist outs
  pub order :
      m'.given
      ≡ m.given ++ (confirmation r ++ (given_data r 28 (input_event 0 0 0 numlock_state 0) ∷ outs))
  pub arrivals : m'.arriving ≡ rest
  pub settled : m'.globals ≡ r
  pub orders : m'.client.e.os ≡ reset_order_state

-- A demand active PDU that is read, is the last of its packet and is answered by four slow-path
-- packets of one PDU each, of another length than 0x8000: whatever the types of these PDUs, whatever
-- sec_send leaves of the streams, and for keys of 8 bytes each, process_demand_active returns. It
-- hands the secure layer the confirm active PDU with the settings that the capability sets of the
-- server left, a synchronise PDU, the control PDUs RDP_CTL_COOPERATE and RDP_CTL_REQUEST_CONTROL, a
-- synchronise input event with the state of the num lock key, and then, from RDP 5 on, all the keys
-- of the persistent bitmap cache and one fonts PDU, else two fonts PDUs, in this order. It takes
-- just these four packets, and leaves the order state as it is at the start.
pub process_demand_active-Answered :
    (c : Surroundings) (sec_send : ℕ → Stream → Tcp → Tcp) (rd_create_ui : List Ui)
    (numlock_state : ℕ) (keylist : List (List ℕ)) (m : Machine) (d : Stream × Rdp × List Ui)
    (s1 s2 s3 s4 : Stream) (rest : List (Stream × ℕ))
    → demanded m.client.e.s m.globals ≡ some d
    → d.0.end ≤ m.client.next_packet
    → m.arriving ≡ (s1, 3) ∷ (s2, 3) ∷ (s3, 3) ∷ (s4, 3) ∷ rest
    → IsPacket s1
    → IsPacket s2
    → IsPacket s3
    → IsPacket s4
    → Keys keylist
    → Answered m d.1 numlock_state keylist rest
        (process_demand_active c sec_send rd_create_ui numlock_state keylist m)
unfolding process_demand_active
process_demand_active-Answered c sec_send rd_create_ui numlock_state keylist m d s1 s2 s3 s4 rest
      read last script is1 is2 is3 is4 keys =
    let m0 = with_demanded m rd_create_ui d in
    let first = send_confirmation-Sending sec_send rd_create_ui numlock_state keylist c m0 in
    let m1 = after m0 (confirmation d.1) first.t' in
    let m2 = taken m1 s1 ((s2, 3) ∷ (s3, 3) ∷ (s4, 3) ∷ rest) (is1.low + is1.high * 2 ^ 8) in
    let m3 = taken m2 s2 ((s3, 3) ∷ (s4, 3) ∷ rest) (is2.low + is2.high * 2 ^ 8) in
    let m4 = taken m3 s3 ((s4, 3) ∷ rest) (is3.low + is3.high * 2 ^ 8) in
    let event = given_data d.1 28 (input_event 0 0 0 numlock_state 0) in
    let input =
      sent-Sending sec_send m4 (data_flags d.1) event.bytes _
        (rdp_send_input_lem sec_send d.1 0 0 0 numlock_state 0 m4.connection) in
    let m5 = after m4 (event ∷ []) input.t' in
    let l = send_lists-Listing sec_send rd_create_ui numlock_state keylist c m5 keys in
    let m6 = after m5 l.outs l.sending.t' in
    let m7 = taken m6 s4 rest (is4.low + is4.high * 2 ^ 8) in
    let k = m7.client in
    record {
      m' = record m7 { client = record k { e = record (k.e) { os = reset_order_state } } };
      answer =
          rw
            (
              read,
              first.answer,
              received-IsPacket c m1 s1 ((s2, 3) ∷ (s3, 3) ∷ (s4, 3) ∷ rest) is1 last script,
              received-IsPacket c m2 s2 ((s3, 3) ∷ (s4, 3) ∷ rest) is2 is1.whole refl,
              received-IsPacket c m3 s3 ((s4, 3) ∷ rest) is3 is2.whole refl,
              input.answer,
              l.sending.answer,
              received-IsPacket c m6 s4 rest is4 is3.whole refl,
            )
            refl;
      outs = l.outs;
      lists = l.lists;
      order =
          append_assoc (m.given ++ confirmation d.1) (event ∷ []) l.outs
          ∙ append_assoc m.given (confirmation d.1) (event ∷ l.outs);
      arrivals = refl;
      settled = refl;
      orders = refl;
    }
