-- ===== src/Bridge/Services/Browsing/Tests.antt =====
-- Browsing the dictionary of a simulated slave.
use servo_assistant.Base.{
  ℕ, ◌≤◌, ◌≡◌, ◌⊎◌, refl, ℤ, pos, minus_two, true, false, Option, some, [], ◌∷◌, get_or, arith,
}
use servo_assistant.Coe.Simulation.{overlay, answering}
use servo_assistant.Coe.Exchange.{exchange}
use servo_assistant.Coe.Mailbox.{next_count}
use servo_assistant.Coe.Layout.{clear_mbx}
use servo_assistant.Coe.Dictionary.{
  read_od_list, od_rounds, add_fragment, words, put_words, trimmed, is_too_many, index_count,
  is_info_response, info_request, read_od_description, clear_description, put_description,
}
use servo_assistant.Bridge.Master.{Bridge, is_absent, sa_slaves}
use servo_assistant.Bridge.Dictionary.{OdItem, zero_od_list, sa_od_count, sa_od_item, sa_od_entries}
use servo_assistant.Bridge.Session.{slaves, od_count, od_item, call, session}
use servo_assistant.Bridge.Services.{coe_services, ec_read_od_list, ec_read_od_description}
use servo_assistant.Bridge.Services.Simulation.{soem, running, list_response}
use servo_assistant.Bridge.Services.Inside.{is_running, od_session_lem}
use servo_assistant.Bridge.Services.Browsing.{SameList, browsing_lem}

counting : ℤ × Bridge (Option ℕ)
unfolding sa_od_count
counting = sa_od_count soem (coe_services (λ c. answering list_response)) 1 running

counts_two :
    sa_od_count soem (coe_services (λ c. answering list_response)) 1 running ≡ (pos 2, counting.1)
unfolding counting sa_od_count coe_services ec_read_od_list read_od_list od_rounds add_fragment
    words put_words trimmed is_too_many index_count is_info_response info_request next_count
    answering overlay clear_mbx zero_od_list
counts_two = refl

later : Bridge (Option ℕ)
later =
    session soem (coe_services (λ c. answering list_response)) (slaves 4 ∷ od_item 1 0 true ∷ [])
      counting.1

still_present : is_absent soem 1 later ≡ false
unfolding later session call sa_slaves sa_od_item counting sa_od_count coe_services ec_read_od_list
    ec_read_od_description read_od_description clear_description put_description read_od_list
    od_rounds add_fragment words put_words trimmed is_too_many index_count is_info_response
    info_request next_count exchange answering overlay clear_mbx zero_od_list
still_present = refl

browsing_lem_example :
    (let (result, out, b3) =
        sa_od_item soem (coe_services (λ c. answering list_response)) 1 1 true later in
      ((result ≡ minus_two)
        ⊎ ((d : OdItem) × (result ≡ pos 0)
            × (out ≡ some d)
            × (d.index ≡ get_or counting.1.od_list.index 1 0)))
      × SameList counting.1.od_list b3.od_list)
unfolding later
browsing_lem_example =
    browsing_lem (λ c. answering list_response) soem 1 1 (slaves 4 ∷ od_item 1 0 true ∷ []) running
      counting.1 counts_two (refl, (refl, tt)) (omega arith) still_present

od_session_lem_example :
    (let C = coe_services (λ c. answering list_response) in
      let b1 = session soem C (od_count 1 ∷ od_item 1 0 true ∷ []) running in
      (b1.od_list.entries ≤ 1024)
      × (is_running (sa_od_item soem C 1 7 true b1).2.io ≡ is_running b1.io)
      × (is_running (sa_od_entries soem C 1 7 true (pos 4) b1).2.io ≡ is_running b1.io))
unfolding zero_od_list
od_session_lem_example =
    od_session_lem (λ c. answering list_response) soem (od_count 1 ∷ od_item 1 0 true ∷ []) 1 7 true
      (pos 4) running (omega arith)
