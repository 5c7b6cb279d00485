-- ===== src/Bridge/Services/Tests.antt =====
-- The entry points of bridge.c on top of the CoE services, at concrete inputs.
use servo_assistant.Base.{
  ℕ, ◌≤◌, ◌<◌, ◌≡◌, ◌≢◌, ◌⊎◌, ◌++◌, take, pos_part, is_positive, minus_one, refl, ℤ, pos, minus_two,
  Bool, true, false, Option, none, some, List, [], ◌∷◌, arith,
}
use servo_assistant.Coe.Tables.{OdList}
use servo_assistant.Coe.Simulation.{overlay, answering, answering-KeepsSize}
use servo_assistant.Coe.Exchange.{exchange}
use servo_assistant.Coe.Mailbox.{next_count}
use servo_assistant.Coe.Layout.{clear_mbx}
use servo_assistant.Coe.Upload.{first_response}
use servo_assistant.Coe.Upload.Served.{IsUploadResponse, Delivers, expedited}
use servo_assistant.Coe.Dictionary.Reads.{SaysItsLength}
use servo_assistant.Coe.Download.First.{delivered}
use servo_assistant.Coe.Download.Simulation.{
  writing_mailbox, writing_mailbox-LogsRequests, small-HasMailbox,
}
use servo_assistant.Bridge.Master.{Bridge}
use servo_assistant.Bridge.Dictionary.{
  zero_od_list, zero_oe_list, sa_od_count, sa_sdo_read, sa_sdo_write,
}
use servo_assistant.Bridge.Services.{coe_services}
use servo_assistant.Bridge.Services.Simulation.{soem, running, list_response}
use servo_assistant.Bridge.Services.Laws.{sa_sdo_read-Delivers, sa_od_count_lem, sa_sdo_write_lem}

-- The response that carries the 4 bytes of the object 0x1000.
abbrev value_response : List ℕ
value_response =
    10 ∷ 0 ∷ 0 ∷ 0 ∷ 0 ∷ 0x13 ∷ 0 ∷ 0x30 ∷ 0x43 ∷ 0x00 ∷ 0x10 ∷ 0 ∷ 0x92 ∷ 0x01 ∷ 2 ∷ 0 ∷ []

answers_first :
    first_response (answering value_response) 1 0x1000 0 false 500_000 0
    ≡ (pos 1, overlay value_response clear_mbx, 1)
unfolding first_response exchange next_count answering
answers_first = refl

value-IsUploadResponse : IsUploadResponse 0x1000 0 (overlay value_response clear_mbx)
unfolding overlay clear_mbx
value-IsUploadResponse = record {
  sdo = record { protocol = refl; service = refl };
  minimal = omega arith;
  maximal = omega arith;
  object = refl;
  subindex = refl;
  specifier = refl;
}

value-Delivers :
    Delivers
      (answering value_response)
      1
      0x1000
      0
      500_000
      2_000_000
      (overlay value_response clear_mbx)
      1
      (pos 1)
      (0x92 ∷ 0x01 ∷ 2 ∷ 0 ∷ [])
      (pos 1)
      1
unfolding overlay clear_mbx
value-Delivers = expedited refl refl refl

sa_sdo_read-Delivers_example :
    (sa_sdo_read soem (coe_services (λ c. answering value_response)) 1 0x1000 0 4 running
      ≡ (pos 1, 4, 0x92 ∷ 0x01 ∷ 2 ∷ 0 ∷ [], record running { io = some 1 }))
    × (◌≡◌ {A = Bool} true true)
unfolding answering
sa_sdo_read-Delivers_example =
    sa_sdo_read-Delivers (λ c. answering value_response) soem running 1 0x1000 0 4 0 1 refl refl
      answers_first refl value-IsUploadResponse (omega arith) (omega arith) value-Delivers

list-SaysItsLength : SaysItsLength (answering list_response)
unfolding answering overlay clear_mbx
list-SaysItsLength = record { low = λ s t i p. omega arith; high = λ s t i p. omega arith }

sa_od_count_lem_example :
    (result : ℤ) × (l : OdList) × (j : ℕ) × (sa_od_count soem
        (coe_services (λ c. answering list_response))
        1
        running
      ≡ (result, record running { od_list = l; io = some j }))
    × (l.slave ≡ 1)
    × (l.entries ≤ 1024)
    × ((result ≡ minus_two) ⊎ (result ≡ pos l.entries))
sa_od_count_lem_example =
    sa_od_count_lem (λ c. answering list_response) soem running 1 0
      (answering-KeepsSize list_response) list-SaysItsLength refl refl

abbrev five : List ℕ
five = 1 ∷ 2 ∷ 3 ∷ 4 ∷ 5 ∷ []

-- A master whose slave has seen no request yet.
abbrev fresh : Bridge (Option (List (List ℕ)))
fresh = record {
  opened = true;
  capture = none;
  od_list = zero_od_list;
  od_entries = zero_oe_list;
  io = some [];
}

sa_sdo_write_lem_example :
    (let result =
        sa_sdo_write soem (coe_services (λ c. writing_mailbox 20)) 1 0x2010 1 five (pos 5) fresh in
      (((is_positive (pos 5) ≡ false) ⊎ (4096 < pos_part (pos 5))) × (result ≡ (minus_one, fresh)))
      ⊎ ((wkc : ℤ) × (j : List (List ℕ)) × (is_positive (pos 5) ≡ true)
          × (pos_part (pos 5) ≤ 4096)
          × (result ≡ (wkc, record fresh { io = some j }))
          × ((is_positive wkc ≡ false)
              ⊎ (((writing_mailbox-LogsRequests 20).failed j
                    ≢ (writing_mailbox-LogsRequests 20).failed [])
                  ⊎ ((sent : List (List ℕ)) × ((writing_mailbox-LogsRequests 20).log j
                        ≡ (writing_mailbox-LogsRequests 20).log [] ++ sent)
                      × (delivered sent ≡ take (pos_part (pos 5)) five))))))
sa_sdo_write_lem_example =
    sa_sdo_write_lem (λ c. writing_mailbox 20) soem fresh (writing_mailbox-LogsRequests 20) 1 0x2010
      1 five (pos 5) [] small-HasMailbox refl refl (omega arith)
