-- ===== src/Coe/Download/Tests.antt =====
-- The theorems about `ecx_SDOwrite` at concrete inputs, and a run of it.
use servo_assistant.Base.{
  ◌+◌, Option, if◌then◌else◌, ◌==◌, get_elem?, ℕ, ◌≡◌, refl, ℤ, pos, is_positive, ◌<◌, true, false,
  none, some, List, [], ◌∷◌, ◌++◌, length, arith,
}
use servo_assistant.Coe.Mailbox.{Mailbox, next_count}
use servo_assistant.Coe.Layout.{clear_mbx}
use servo_assistant.Coe.Exchange.{exchange}
use servo_assistant.Coe.Download.{
  with_data, first_size, needs_segments, download_header, chunk, segment_request,
  is_download_response, is_segment_response, download_segments, acknowledged, write_large,
  sdo_write,
}
use servo_assistant.Coe.Download.Simulation.{
  replies, writing_mailbox, writing_mailbox-LogsRequests, small-HasMailbox, none_failed,
}
use servo_assistant.Coe.Download.First.{delivered}
use servo_assistant.Coe.Download.Delivery.{sdo_write_total, sdo_write_delivers, sdo_write_overflow}

abbrev twenty : List ℕ
twenty =
    1 ∷ 2 ∷ 3 ∷ 4 ∷ 5 ∷ 6 ∷ 7 ∷ 8 ∷ 9 ∷ 10 ∷ 11 ∷ 12 ∷ 13 ∷ 14 ∷ 15 ∷ 16 ∷ 17 ∷ 18 ∷ 19 ∷ 20 ∷ []

written : ℤ × List (List ℕ)
unfolding sdo_write write_large with_data first_size needs_segments download_header chunk
    segment_request is_download_response is_segment_response download_segments acknowledged exchange
    next_count clear_mbx writing_mailbox
written = elim (sdo_write (writing_mailbox 20) 1 0x2010 1 false twenty 700_000 []) [
  | none ↦ (pos 0, [])
  | some result ↦ result
]

-- The first request and two segments.
writes_in_segments : (written.0 ≡ pos 1) × (length written.1 ≡ 3)
unfolding written
writes_in_segments = (refl, refl)

sdo_write_total_example :
    (result : ℤ × List (List ℕ)) × (sdo_write
        (writing_mailbox 20)
        1
        0x2010
        1
        false
        twenty
        700_000
        []
      ≡ some result)
sdo_write_total_example =
    sdo_write_total (writing_mailbox 20) (writing_mailbox-LogsRequests 20) 1 0x2010 1
      small-HasMailbox false twenty 700_000 [] (omega arith) (omega arith)

writes : sdo_write (writing_mailbox 20) 1 0x2010 1 false twenty 700_000 [] ≡ some written
unfolding sdo_write write_large with_data first_size needs_segments download_header chunk
    segment_request is_download_response is_segment_response download_segments acknowledged exchange
    next_count clear_mbx writing_mailbox written
writes = refl

succeeds : is_positive written.0 ≡ true
unfolding written
succeeds = refl

sdo_write_delivers_example :
    (sent : List (List ℕ)) × ((writing_mailbox-LogsRequests 20).log written.1
      ≡ (writing_mailbox-LogsRequests 20).log [] ++ sent)
    × (delivered sent ≡ twenty)
sdo_write_delivers_example =
    sdo_write_delivers (writing_mailbox 20) (writing_mailbox-LogsRequests 20) 1 0x2010 1
      small-HasMailbox false twenty 700_000 [] written.1 written.0 (omega arith) (omega arith)
      writes succeeds (none_failed 20 written.1 [])

-- The state is the list of sends; the second one fails, and then places nothing.
abbrev lossy_mailbox : Mailbox (List (Option (List ℕ)))
lossy_mailbox = record {
  mbxreceive = λ s buf t i. (pos 1, replies (length i), i);
  mbxsend = λ s req t i.
      if length i == 1 then (pos 0, i ++ (none ∷ [])) else (pos 1, i ++ (some req ∷ []));
  packeterror = λ s x j c i. i;
  pusherror = λ e i. i;
  set_ecaterror = λ i. i;
  current_time = λ i. 0;
  mbx_cnt = λ s i. 0;
  set_mbx_cnt = λ s c i. i;
  mbx_l = λ s i. 20;
  nextmbxcnt = λ c. if c == 7 then 1 else c + 1;
  timer_start = λ t i. (t, i);
  timer_is_expired = λ t i. (false, i);
}

lossy : ℤ × List (Option (List ℕ))
unfolding sdo_write write_large with_data first_size needs_segments download_header chunk
    segment_request is_download_response is_segment_response download_segments acknowledged exchange
    next_count clear_mbx
lossy = elim (sdo_write lossy_mailbox 1 0x2010 1 false twenty 700_000 []) [
  | none ↦ (pos 0, [])
  | some result ↦ result
]

-- The first of the two segments is lost, and the download returns success.
loses_a_segment : (lossy.0 ≡ pos 1) × (length lossy.1 ≡ 3) × (get_elem? lossy.1 1 ≡ some none)
unfolding lossy
loses_a_segment = (refl, refl, refl)

absent_mailbox : (i : List (List ℕ)) → (writing_mailbox 0).mbx_l 1 i < 16
unfolding writing_mailbox
absent_mailbox i = omega arith

sdo_write_overflow_example : sdo_write (writing_mailbox 0) 1 0x2010 1 false twenty 700_000 [] ≡ none
sdo_write_overflow_example =
    sdo_write_overflow (writing_mailbox 0) 1 0x2010 1 false twenty 700_000 [] absent_mailbox
      (omega arith)
