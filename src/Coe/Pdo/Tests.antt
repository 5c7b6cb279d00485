-- ===== src/Coe/Pdo/Tests.antt =====
-- The theorems about the PDO services at concrete inputs.
use servo_assistant.Base.{ℕ, ◌≡◌, refl, pos, none, some, List, [], ◌∷◌}
use servo_assistant.Coe.Simulation.{overlay, answering, answering-KeepsSize}
use servo_assistant.Coe.Mailbox.{next_count}
use servo_assistant.Coe.Exchange.{exchange}
use servo_assistant.Coe.Layout.{clear_mbx}
use servo_assistant.Coe.Upload.{sdo_read, first_response, respond, is_upload_response}
use servo_assistant.Coe.Pdo.{read_number, read_pdo_assign}
use servo_assistant.Coe.Pdo.Laws.{read_pdo_assign_endless}

-- A PDO of three bytes.
abbrev pdo_response : List ℕ
pdo_response = 5 ∷ 0 ∷ 0 ∷ 0 ∷ 0 ∷ 0x13 ∷ 0 ∷ 0x40 ∷ 7 ∷ 8 ∷ 9 ∷ []

-- An expedited response: subindex 0 of 0x1C12 is a number of two bytes.
abbrev count_response : ℕ → ℕ → List ℕ
count_response low high =
    10 ∷ 0 ∷ 0 ∷ 0 ∷ 0 ∷ 0x13 ∷ 0 ∷ 0x30 ∷ 0x4b ∷ 0x12 ∷ 0x1c ∷ 0 ∷ low ∷ high ∷ []

counts_two : read_number (answering (count_response 2 0)) 1 0x1c12 0 2 0 ≡ some (pos 1, 2, 1)
unfolding read_number sdo_read first_response respond is_upload_response exchange next_count
    clear_mbx answering overlay
counts_two = refl

counts_all :
    read_number (answering (count_response 0xff 0xff)) 1 0x1c12 0 2 0 ≡ some (pos 1, 65535, 1)
unfolding read_number sdo_read first_response respond is_upload_response exchange next_count
    clear_mbx answering overlay
counts_all = refl

read_pdo_assign_endless_example :
    read_pdo_assign (answering (count_response 0xff 0xff)) 1 100_000 0x1c12 0 ≡ none
read_pdo_assign_endless_example =
    read_pdo_assign_endless (answering (count_response 0xff 0xff))
      (answering-KeepsSize (count_response 0xff 0xff)) 1 0x1c12 100_000 0 1 (pos 1) counts_all refl
