-- ===== src/Nic/Traffic/Calls.antt =====
-- The calls of nicdrv.c that block keep such a relation too, and so does any sequence of calls.
pub mod Recorded
use servo_assistant.Base.{
  ℕ, zero, suc, ◌≡◌, ◌&&◌, ◌||◌, ℤ, pos, is_negative, Bool, true, false, Option, none, some, ltb,
  ◌==◌, get_elem?, if◌then◌else◌, Gives, Gives-none, Gives-some, Gives-if, Gives-step, Gives-bind,
}
use servo_assistant.Nic.{Port}
use servo_assistant.Nic.Pcap.{Pcap, Osal}
use servo_assistant.Nic.Frames.{no_frame, stack_of, outframe, outframe_red, inframe}
use servo_assistant.Nic.Wait.{
  timeout_ret, rx_prim, rx_sec, source_of, is_crossed, is_broken, take_secondary, primary_to_tx,
  read_side, read_second, wait_both, wait_second, resend, redundancy, waitinframe_red, waitinframe,
  confirm, srconfirm,
}
use servo_assistant.Nic.Wait.Held.{IsHeld, waitinframe-Holds, srconfirm-Holds}
use servo_assistant.Nic.Traffic.{Ends, IsKept, last, outframe-Ends, outframe_red-Ends, inframe-Ends}

-- What calls that send or receive, made of a port in any state and in any order, lead from one state
-- outside to another. In between the caller may change the port.
pub data Calls {I : Type 0} (P : Pcap I) (O : Osal I) (i : I) : I → Type 0 where
  none_yet : Calls P O i i
  and_outframe :
      {j k : I} {v : ℤ} {q : Port} (p : Port) (idx : ℕ) (secondary : Bool)
      → Calls P O i j
      → outframe P p idx secondary j ≡ some (v, q, k)
      → Calls P O i k
  and_outframe_red :
      {j k : I} {v : ℤ} {q : Port} (p : Port) (idx : ℕ)
      → Calls P O i j
      → outframe_red P p idx j ≡ some (v, q, k)
      → Calls P O i k
  and_inframe :
      {j k : I} {v : ℤ} {q : Port} (p : Port) (idx : ℕ) (secondary : Bool)
      → Calls P O i j
      → inframe P p idx secondary j ≡ some (v, q, k)
      → Calls P O i k
  and_waitinframe :
      {j k : I} {v : ℤ} {q : Port} (fuel idx timeout : ℕ) (p : Port)
      → Calls P O i j
      → waitinframe P O fuel idx timeout p j ≡ some (v, q, k)
      → Calls P O i k
  and_srconfirm :
      {j k : I} {v : ℤ} {q : Port} (fuel idx timeout : ℕ) (p : Port)
      → Calls P O i j
      → srconfirm P O fuel idx timeout p j ≡ some (v, q, k)
      → Calls P O i k

module _ {I : Type 0} (P : Pcap I) (O : Osal I) (R : I → I → Type 0) (K : IsKept P O R) where
  followed : (i0 : I) (idx : ℕ) → IsHeld P O idx (λ p i. R i0 i)
  followed i0 idx = record {
    sends = λ p secondary i r. outframe-Ends P O R K p idx secondary i r;
    sends_both = λ p i r. outframe_red-Ends P O R K p idx i r;
    reads = λ p secondary i r. inframe-Ends P O R K p idx secondary i r;
    polls = λ p t i r. K.join r (K.polls t i);
    starts = λ p us i r. K.join r (K.starts us i);
    moves = λ p i r. record { at = λ q e. r };
    restores = λ p i r. record { at = λ q e. r };
  }

  pub Calls-kept : {i j : I} → Calls P O i j → R i j
  Calls-kept {i} none_yet = K.same i
  Calls-kept (and_outframe {j = j} p idx secondary c e) =
      (outframe-Ends P O R K p idx secondary j (Calls-kept c)).at _ e
  Calls-kept (and_outframe_red {j = j} p idx c e) =
      (outframe_red-Ends P O R K p idx j (Calls-kept c)).at _ e
  Calls-kept (and_inframe {j = j} p idx secondary c e) =
      (inframe-Ends P O R K p idx secondary j (Calls-kept c)).at _ e
  Calls-kept {i} (and_waitinframe {j = j} fuel idx timeout p c e) =
      (waitinframe-Holds P O idx _ (followed i idx) fuel timeout p j (Calls-kept c)).at _ e
  Calls-kept {i} (and_srconfirm {j = j} fuel idx timeout p c e) =
      (srconfirm-Holds P O idx _ (followed i idx) fuel timeout p j (Calls-kept c)).at _ e
