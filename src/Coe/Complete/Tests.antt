-- ===== src/Coe/Complete/Tests.antt =====
-- The theorem about `ecx_readPDOmapCA` at a concrete input.
use servo_assistant.Base.{ℕ, ◌^◌, ◌<◌, ◌≡◌, ◌⊎◌, some, List, [], ◌∷◌, replicate}
use servo_assistant.Coe.Simulation.{answering, answering-KeepsSize}
use servo_assistant.Coe.Mapping.{SyncManagers, Mapped}
use servo_assistant.Coe.Mapping.Laws.{bits}
use servo_assistant.Coe.Complete.{Tables, read_pdo_map_ca}
use servo_assistant.Coe.Complete.Kinds.{Explained}
use servo_assistant.Coe.Complete.Laws.{read_pdo_map_ca_total}

-- A slave with four sync managers: mailbox, mailbox, outputs and inputs, in a response of 6 bytes.
abbrev types_response : List ℕ
types_response =
    16 ∷ 0 ∷ 0 ∷ 0 ∷ 0 ∷ 0x13 ∷ 0 ∷ 0x30 ∷ 0x41 ∷ 0 ∷ 0x1c ∷ 0 ∷ 6 ∷ 0 ∷ 0 ∷ 0 ∷ 4 ∷ 0 ∷ 1 ∷ 2 ∷ 3
    ∷ 4 ∷ []

abbrev zero_tables : Tables
zero_tables = record {
  sm_comm = replicate 10 0;
  pdo_assign = replicate 514 0;
  pdo_desc = replicate 1026 0;
}

-- The state counts what was sent, and the writes leave it alone.
still_managers : SyncManagers ℕ
still_managers = record {
  set_sm_type = λ s m t i. i;
  clear_sm_enable = λ s m i. i;
  set_sm_length = λ s m n i. i;
}

read_pdo_map_ca_total_example :
    (result : ℕ) × (m : Tables × Mapped ℕ) × (read_pdo_map_ca
        (answering types_response)
        1
        still_managers
        zero_tables
        0
      ≡ some (result, m))
    × (bits m.1 < 2 ^ 31)
    × Explained m.0.sm_comm m.1
    × (((result ≡ 1) × (0 < bits m.1)) ⊎ ((result ≡ 0) × (bits m.1 ≡ 0)))
read_pdo_map_ca_total_example =
    read_pdo_map_ca_total (answering types_response) (answering-KeepsSize types_response)
      still_managers 1 zero_tables 0
