-- ===== src/Bridge/Services/Entries/Tests.antt =====
-- The entries of an object of a simulated slave.
use servo_assistant.Base.{
  if◌then◌else◌, ◌==◌, Option, none, ℕ, ◌+◌, ◌*◌, ◌≡◌, refl, pos, true, Option, some, List, [], ◌∷◌,
  replicate, arith,
}
use servo_assistant.Coe.Layout.{clear_mbx}
use servo_assistant.Coe.Mailbox.{Mailbox, next_count}
use servo_assistant.Coe.Exchange.{exchange}
use servo_assistant.Coe.Simulation.{overlay, answering}
use servo_assistant.Coe.Dictionary.{info_request, is_info_response, info_unexpected}
use servo_assistant.Coe.Dictionary.Filled.{Answers, done, described, refused, asked}
use servo_assistant.Bridge.Master.{Bridge}
use servo_assistant.Bridge.Dictionary.{zero_od_list, sa_od_entries}
use servo_assistant.Bridge.Services.{coe_services}
use servo_assistant.Bridge.Services.Simulation.{soem, running}
use servo_assistant.Bridge.Services.Place.{said, unread}
use servo_assistant.Bridge.Services.Entries.{sa_od_entries_delivers}

-- A description of `8 * i` bits, with a name of two letters.
abbrev description : ℕ → List ℕ
description i =
    18
    ∷ 0
    ∷ 0
    ∷ 0
    ∷ 0
    ∷ 0x13
    ∷ 0
    ∷ 0x80
    ∷ 6
    ∷ 0
    ∷ 0
    ∷ 0
    ∷ 0
    ∷ 0x10
    ∷ 0
    ∷ 7
    ∷ 5
    ∷ 0
    ∷ (8 * i)
    ∷ 0
    ∷ 0x3f
    ∷ 0
    ∷ 65
    ∷ (65 + i)
    ∷ []

-- The slave answers the first and the third question with a description, and the second with
-- another response.
describing : Mailbox ℕ
unfolding answering
describing = record (answering []) {
  mbxreceive = λ s buf t i. (pos 1, overlay (if i == 2 then [] else description i) buf, i);
}

-- A list of one object, which has the subindexes 0, 1 and 2.
abbrev listed : Bridge (Option ℕ)
listed = record running {
  od_list = record zero_od_list { slave = 1; entries = 1; max_sub = 2 ∷ replicate 1023 0 };
}

abbrev answers : List (Option (List ℕ))
unfolding overlay clear_mbx
answers =
    some (overlay (description 1) clear_mbx) ∷ none ∷ some (overlay (description 3) clear_mbx) ∷ []

answers-Answers : Answers describing 0 listed.od_list 0 (pos 0) answers 0 (pos 1) 3
unfolding describing answering overlay clear_mbx asked exchange next_count info_request
    is_info_response zero_od_list answers info_unexpected
answers-Answers = described refl refl refl (refused refl refl refl (described refl refl refl done))

-- Of three entries two were described, and so the last one is not handed out.
sa_od_entries_delivers_example :
    (b1 : Bridge (Option ℕ)) × (sa_od_entries soem
        (coe_services (λ c. describing))
        1
        0
        true
        (pos 8)
        listed
      ≡ (pos 2, said 0 (overlay (description 1) clear_mbx) ∷ unread 1 ∷ [], b1))
    × (b1.io ≡ some 3)
unfolding answers
sa_od_entries_delivers_example =
    sa_od_entries_delivers (λ c. describing) soem 1 0 (pos 8) listed answers 0 refl refl
      (omega arith) (omega arith) refl refl refl (omega arith) answers-Answers
