-- ===== src/Coe/Exchange.antt =====
-- One exchange over the mailbox, as every service of ethercatcoe.c makes it.
use servo_assistant.Base.{
  ℕ, ◌≡◌, ℤ, is_positive, List, length, length-replicate, arith, if◌then◌else◌,
}
use servo_assistant.Coe.Mailbox.{Mailbox, KeepsSize, mbx_size, timeout_txm}
use servo_assistant.Coe.Layout.{clear_mbx}

-- A request is sent, and its response received into a cleared buffer. The work counter is that of
-- the last of the two that was tried.
unfoldable pub exchange : {I : Type 0} → Mailbox I → ℕ → List ℕ → ℕ → I → ℤ × List ℕ × I
exchange M slave request timeout i =
    let (sent, i1) = M.mbxsend slave request timeout_txm i in
    if is_positive sent then M.mbxreceive slave clear_mbx timeout i1 else (sent, clear_mbx, i1)

pub length-clear_mbx : length clear_mbx ≡ mbx_size
unfolding clear_mbx
length-clear_mbx = length-replicate {A = ℕ} mbx_size 0

pub length-exchange :
    {I : Type 0} (M : Mailbox I) (K : KeepsSize M) (slave : ℕ) (request : List ℕ) (timeout : ℕ)
    (i : I)
    → length (exchange M slave request timeout i).1 ≡ mbx_size
unfolding exchange
length-exchange M K slave request timeout i = ground (
  arith,
  length-clear_mbx,
  K.size slave clear_mbx timeout (M.mbxsend slave request timeout_txm i).1,
)
