-- ===== src/Secure/Runs.antt =====
-- Runs of sec_process_mcs_data on concrete connect responses.
use app_network_rdesktop.Base.{
  returned, stuck, ℕ, ◌≡◌, refl, true, false, List, [], ◌∷◌, Option, some, replicate, arith, ◌++◌,
}
use app_network_rdesktop.Stream.{Stream, of_bytes}
use app_network_rdesktop.Secure.{Server, sec_process_mcs_data}
use app_network_rdesktop.Secure.Wire.{Block, wires}
use app_network_rdesktop.Secure.Blocks.{sec_process_mcs_data-effects}
use app_network_rdesktop.Secure.Termination.{sec_process_mcs_data-stuck}

abbrev modern : Server
modern = record { server_rdp_version = 0; rdp_v5 = true; server_depth = 16 }

-- The reading of the keys keeps where it began.
abbrev begins : Stream → ℕ → Option ℕ
begins s k = some (s.p)

-- A version 1 block and a crypt block of three bytes.
abbrev blocks : List Block
blocks =
    record { tag = 0x0c01; content = 1 ∷ 0 ∷ 8 ∷ 0 ∷ [] }
    ∷ record { tag = 0x0c02; content = 7 ∷ 7 ∷ 7 ∷ [] }
    ∷ []

abbrev response : Stream
response = of_bytes (replicate 21 0 ++ (0x80 ∷ 15 ∷ wires blocks))

sec_process_mcs_data-effects_example :
    sec_process_mcs_data begins response (modern, 0)
    ≡ returned (
      record response { p = 38 },
      (record { server_rdp_version = 1; rdp_v5 = false; server_depth = 8 }, 35),
    )
sec_process_mcs_data-effects_example =
    sec_process_mcs_data-effects begins response (replicate 21 0) (0x80 ∷ 15 ∷ []) blocks
      (modern, 0) refl refl
      (
        record { tag16 = omega arith; some_content = omega arith; length16 = omega arith },
        (record { tag16 = omega arith; some_content = omega arith; length16 = omega arith }, tt),
      )
      (record { order = omega arith; inside = omega arith; is = refl })

sec_process_mcs_data-stuck_example : ¬ (sec_process_mcs_data begins response (modern, 0) ≡ stuck)
sec_process_mcs_data-stuck_example = sec_process_mcs_data-stuck begins response (modern, 0)
