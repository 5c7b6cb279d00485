-- ===== src/Coe/Simulation.antt =====
-- What the simulated slaves of the tests share.
use servo_assistant.Base.{
  ℕ, suc, ◌+◌, ◌≡◌, refl, ap, pos, false, List, [], ◌∷◌, length, ◌==◌, if◌then◌else◌,
}
use servo_assistant.Coe.Mailbox.{Mailbox, KeepsSize}

-- What arrives stands at the beginning of a buffer of the same size.
unfoldable pub overlay : List ℕ → List ℕ → List ℕ
overlay [] buf = buf
overlay (x ∷ xs) [] = []
overlay (x ∷ xs) (y ∷ buf) = x ∷ overlay xs buf

pub length-overlay : (xs buf : List ℕ) → length (overlay xs buf) ≡ length buf
unfolding overlay
length-overlay [] buf = refl
length-overlay (x ∷ xs) [] = refl
length-overlay (x ∷ xs) (y ∷ buf) = ap suc (length-overlay xs buf)

-- The state counts what was sent; each read gives the same response.
unfoldable pub answering : List ℕ → Mailbox ℕ
unfolding overlay
answering response = record {
  mbxreceive = λ s buf t i. (pos 1, overlay response buf, i);
  mbxsend = λ s req t i. (pos 1, i + 1);
  packeterror = λ s x j c i. i;
  pusherror = λ e i. i;
  set_ecaterror = λ i. i;
  current_time = λ i. 0;
  mbx_cnt = λ s i. 0;
  set_mbx_cnt = λ s c i. i;
  mbx_l = λ s i. 128;
  nextmbxcnt = λ c. if c == 7 then 1 else c + 1;
  timer_start = λ t i. (t, i);
  timer_is_expired = λ t i. (false, i);
}

pub answering-KeepsSize : (response : List ℕ) → KeepsSize (answering response)
unfolding answering
answering-KeepsSize response = record { size = λ s buf t i. length-overlay response buf }
