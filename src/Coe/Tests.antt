-- ===== src/Coe/Tests.antt =====
-- The theorems about ethercatcoe.c at concrete inputs, and runs of its functions.
use servo_assistant.Base.{
  ℕ, ◌+◌, ◌≤◌, ◌≡◌, refl, pos, inl, Bool, true, arith, false, some, List, [], ◌∷◌, length, ◌==◌,
  if◌then◌else◌,
}
use servo_assistant.Coe.Simulation.{overlay, length-overlay}
use servo_assistant.Coe.Mailbox.{Mailbox, KeepsSize, next_count}
use servo_assistant.Coe.Layout.{clear_mbx, upload_request, filled}
use servo_assistant.Coe.Exchange.{exchange}
use servo_assistant.Coe.Upload.{
  Upload, first_response, sdo_read, segments, poll, judge, grown, segment_size, is_good_segment,
  fits, respond, is_upload_response, begun,
}
use servo_assistant.Coe.Upload.Served.{IsUploadResponse, IsSegment, Delivers, closing, segmented}
use servo_assistant.Coe.Upload.Delivery.{sdo_read-Delivers}
use servo_assistant.Coe.Upload.Bounds.{reply, announced, sdo_read_total, sdo_read_complete}

-- A slave that has nothing pending, then announces 12 bytes and sends 4 of them, then the other 8.
abbrev answers : ℕ → List ℕ
answers k =
    if k == 1
    then 14 ∷ 0 ∷ 0 ∷ 0 ∷ 0 ∷ 0x13 ∷ 0 ∷ 0x30 ∷ 0x41 ∷ 0x08 ∷ 0x10 ∷ 0 ∷ 12 ∷ 0 ∷ 0 ∷ 0 ∷ 1 ∷ 2 ∷ 3
      ∷ 4 ∷ []
    else if k == 2
    then 11 ∷ 0 ∷ 0 ∷ 0 ∷ 0 ∷ 0x23 ∷ 0 ∷ 0x30 ∷ 0x01 ∷ 5 ∷ 6 ∷ 7 ∷ 8 ∷ 9 ∷ 10 ∷ 11 ∷ 12 ∷ []
    else []

-- The state counts what has been received.
slave_mailbox : Mailbox ℕ
unfolding overlay
slave_mailbox = record {
  mbxreceive = λ s buf t i. (pos 1, overlay (answers i) buf, i + 1);
  mbxsend = λ s req t i. (pos 1, i);
  packeterror = λ s x j c i. i;
  pusherror = λ e i. i;
  set_ecaterror = λ i. i;
  current_time = λ i. 0;
  mbx_cnt = λ s i. 0;
  set_mbx_cnt = λ s c i. i;
  mbx_l = λ s i. 128;
  nextmbxcnt = λ c. if c == 7 then 1 else c + 1;
  timer_start = λ t i. (t, i);
  timer_is_expired = λ t i. (false, i);
}

slave_mailbox-KeepsSize : KeepsSize slave_mailbox
unfolding slave_mailbox
slave_mailbox-KeepsSize = record { size = λ s buf t i. length-overlay (answers i) buf }

abbrev name_read : Upload ℕ
name_read = record {
  wkc = pos 1;
  size = 12;
  bytes = 1 ∷ 2 ∷ 3 ∷ 4 ∷ 5 ∷ 6 ∷ 7 ∷ 8 ∷ 9 ∷ 10 ∷ 11 ∷ 12 ∷ [];
  io = 3;
}

reads_in_segments : sdo_read slave_mailbox 1 0x1008 0 false 64 700_000 0 ≡ some name_read
unfolding sdo_read first_response respond segments poll judge grown segment_size is_good_segment
    fits is_upload_response begun exchange next_count upload_request filled clear_mbx slave_mailbox
reads_in_segments = refl

sdo_read_total_example :
    (u : Upload ℕ) × (sdo_read slave_mailbox 1 0x1008 0 false 8 700_000 0 ≡ some u)
    × (u.size ≤ 8)
    × (length u.bytes ≤ 8)
sdo_read_total_example =
    sdo_read_total slave_mailbox slave_mailbox-KeepsSize 1 0x1008 0 false 8 700_000 0

sdo_read_complete_example :
    (◌≡◌ {A = ℕ} 12 12) × (12 ≡ announced (reply slave_mailbox 1 0x1008 0 false 700_000 0))
sdo_read_complete_example =
    sdo_read_complete slave_mailbox slave_mailbox-KeepsSize 1 0x1008 0 false 64 700_000 0 name_read
      reads_in_segments refl

-- The responses of the slave, and the object that they make up.
abbrev answer : ℕ → List ℕ
answer k = overlay (answers k) clear_mbx

abbrev device_name : List ℕ
device_name = 1 ∷ 2 ∷ 3 ∷ 4 ∷ 5 ∷ 6 ∷ 7 ∷ 8 ∷ 9 ∷ 10 ∷ 11 ∷ 12 ∷ []

answers_first : first_response slave_mailbox 1 0x1008 0 false 700_000 0 ≡ (pos 1, answer 1, 2)
unfolding first_response exchange next_count upload_request filled clear_mbx slave_mailbox
answers_first = refl

answers_poll : poll slave_mailbox 1 0x1008 0 700_000 2_000_000 0 2 ≡ (pos 1, answer 2, 3)
unfolding poll exchange next_count upload_request filled clear_mbx slave_mailbox
answers_poll = refl

answer-IsUploadResponse : IsUploadResponse 0x1008 0 (answer 1)
unfolding overlay clear_mbx
answer-IsUploadResponse = record {
  sdo = record { protocol = refl; service = refl };
  minimal = omega arith;
  maximal = omega arith;
  object = refl;
  subindex = refl;
  specifier = refl;
}

answer-IsSegment : IsSegment 0 1 (5 ∷ 6 ∷ 7 ∷ 8 ∷ 9 ∷ 10 ∷ 11 ∷ 12 ∷ []) (answer 2)
unfolding overlay clear_mbx
answer-IsSegment = record {
  sdo = record { protocol = refl; service = refl };
  unused = 0;
  command_byte = refl;
  sized = inl (refl, refl);
  room = omega arith;
  carries = refl;
}

answer-Delivers :
    Delivers slave_mailbox 1 0x1008 0 700_000 2_000_000 (answer 1) 2 (pos 1) device_name (pos 1) 3
unfolding overlay clear_mbx
answer-Delivers =
    segmented {part = 1 ∷ 2 ∷ 3 ∷ 4 ∷ []} {rest = 5 ∷ 6 ∷ 7 ∷ 8 ∷ 9 ∷ 10 ∷ 11 ∷ 12 ∷ []} refl refl
      refl refl refl (omega arith) (closing answers_poll refl answer-IsSegment)

sdo_read-Delivers_example :
    (sdo_read slave_mailbox 1 0x1008 0 false 64 700_000 0 ≡ some name_read)
    × (◌≡◌ {A = Bool} true true)
unfolding slave_mailbox
sdo_read-Delivers_example =
    sdo_read-Delivers slave_mailbox 1 0x1008 0 false 64 700_000 0 2 answers_first refl
      answer-IsUploadResponse (omega arith) (omega arith) answer-Delivers
