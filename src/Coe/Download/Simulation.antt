-- ===== src/Coe/Download/Simulation.antt =====
-- A slave that takes a download, for the tests.
use servo_assistant.Base.{
  ℕ, ◌+◌, ◌≡◌, refl, pos, false, List, [], ◌∷◌, ◌++◌, length, ◌==◌, if◌then◌else◌, arith,
}
use servo_assistant.Coe.Mailbox.{Mailbox}
use servo_assistant.Coe.Download.Segments.{LogsRequests}
use servo_assistant.Coe.Download.Delivery.{HasMailbox}

-- What a slave answers after so many requests: nothing, the first response, and those to segments.
abbrev pub replies : ℕ → List ℕ
replies k =
    if k == 0
    then []
    else if k == 1
    then 10 ∷ 0 ∷ 0 ∷ 0 ∷ 0 ∷ 0x13 ∷ 0 ∷ 0x30 ∷ 0x60 ∷ 0x10 ∷ 0x20 ∷ 1 ∷ []
    else 10 ∷ 0 ∷ 0 ∷ 0 ∷ 0 ∷ 0x13 ∷ 0 ∷ 0x30 ∷ 0x20 ∷ []

-- The state is the list of requests that were sent. The mailbox has `size` bytes.
unfoldable pub writing_mailbox : ℕ → Mailbox (List (List ℕ))
writing_mailbox size = record {
  mbxreceive = λ s buf t i. (pos 1, replies (length i), i);
  mbxsend = λ s req t i. (pos 1, i ++ (req ∷ []));
  packeterror = λ s x j c i. i;
  pusherror = λ e i. i;
  set_ecaterror = λ i. i;
  current_time = λ i. 0;
  mbx_cnt = λ s i. 0;
  set_mbx_cnt = λ s c i. i;
  mbx_l = λ s i. size;
  nextmbxcnt = λ c. if c == 7 then 1 else c + 1;
  timer_start = λ t i. (t, i);
  timer_is_expired = λ t i. (false, i);
}

pub writing_mailbox-LogsRequests : (size : ℕ) → LogsRequests (writing_mailbox size)
unfolding writing_mailbox
writing_mailbox-LogsRequests size = record {
  log = λ i. i;
  failed = λ i. 0;
  sends = λ s req t i. (refl, refl);
  receives = λ s buf t i. refl;
  receives_failed = λ s buf t i. refl;
  counts = λ s c i. refl;
  counts_failed = λ s c i. refl;
}

pub none_failed :
    (size : ℕ) (i j : List (List ℕ))
    → (writing_mailbox-LogsRequests size).failed i ≡ (writing_mailbox-LogsRequests size).failed j
unfolding writing_mailbox-LogsRequests
none_failed size i j = refl

pub small-HasMailbox : HasMailbox (writing_mailbox 20) 1
unfolding writing_mailbox
small-HasMailbox = record { low = λ i. omega arith; high = λ i. omega arith }
