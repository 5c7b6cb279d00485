-- ===== src/Nic/Wait/Held.antt =====
-- A property of a port and the state outside, kept by each step that a call of nicdrv.c takes for one
-- index, is kept by the calls that block.
use servo_assistant.Base.{
  ℕ, zero, suc, ◌&&◌, ◌||◌, ℤ, pos, is_negative, Bool, true, false, some, ltb, ◌==◌, if◌then◌else◌,
  Gives, Gives-none, Gives-some, Gives-if, Gives-step, Gives-bind,
}
use servo_assistant.Nic.{Port}
use servo_assistant.Nic.Pcap.{Pcap, Osal}
use servo_assistant.Nic.Frames.{no_frame, stack_of, outframe, outframe_red, inframe}
use servo_assistant.Nic.Wait.{
  timeout_ret, rx_prim, rx_sec, source_of, is_crossed, is_broken, take_secondary, primary_to_tx,
  read_side, read_second, wait_both, wait_second, resend, redundancy, waitinframe_red, waitinframe,
  confirm, srconfirm,
}

pub record IsHeld {I : Type 0} (P : Pcap I) (O : Osal I) (idx : ℕ) (Q : Port → I → Type 0)
    : Type 0 where
  pub sends :
      (p : Port) (secondary : Bool) (i : I)
      → Q p i
      → Gives (λ x. Q x.1 x.2) (outframe P p idx secondary i)
  pub sends_both : (p : Port) (i : I) → Q p i → Gives (λ x. Q x.1 x.2) (outframe_red P p idx i)
  pub reads :
      (p : Port) (secondary : Bool) (i : I)
      → Q p i
      → Gives (λ x. Q x.1 x.2) (inframe P p idx secondary i)
  pub polls : (p : Port) (t : ℕ) (i : I) → Q p i → Q p (O.timer_is_expired t i).1
  pub starts : (p : Port) (us : ℕ) (i : I) → Q p i → Q p (O.timer_start us i).1
  pub moves : (p : Port) (i : I) → Q p i → Gives (λ q. Q q i) (take_secondary idx p)
  pub restores : (p : Port) (i : I) → Q p i → Gives (λ q. Q q i) (primary_to_tx idx p)

module _ {I : Type 0} (P : Pcap I) (O : Osal I) (idx : ℕ) (Q : Port → I → Type 0)
    (H : IsHeld P O idx Q) where
  read_side-Holds :
      (secondary : Bool) (wkc : ℤ) (p : Port) (i : I)
      → Q p i
      → Gives (λ x. Q x.1 x.2) (read_side P O secondary idx wkc p i)
  unfolding read_side
  read_side-Holds secondary wkc p i r =
      Gives-if (is_negative wkc) _ _ (H.reads p secondary i r) (Gives-some _ r)

  read_second-Holds :
      (wkc2 : ℤ) (p : Port) (i : I) → Q p i → Gives (λ x. Q x.1 x.2) (read_second P O idx wkc2 p i)
  unfolding read_second
  read_second-Holds wkc2 p i r =
      Gives-if (p.redstate == 0) _ _ (Gives-some _ r) (read_side-Holds true wkc2 p i r)

  wait_both-Holds :
      (fuel timer : ℕ) (wkc wkc2 : ℤ) (p : Port) (i : I)
      → Q p i
      → Gives (λ x. Q x.2 x.3) (wait_both P O fuel timer idx wkc wkc2 p i)
  unfolding wait_both
  wait_both-Holds zero timer wkc wkc2 p i r = Gives-none
  wait_both-Holds (suc fuel) timer wkc wkc2 p i r =
      Gives-bind (read_side P O false idx wkc p i) _ (read_side-Holds false wkc p i r) λ x r1.
        Gives-bind (read_second P O idx wkc2 x.1 x.2) _ (read_second-Holds wkc2 x.1 x.2 r1) λ y r2.
          let r3 = H.polls y.1 timer y.2 r2 in
          let rest = wait_both-Holds fuel timer x.0 y.0 y.1 (O.timer_is_expired timer y.2).1 r3 in
          Gives-if (is_negative x.0 || is_negative y.0) _ _
            (Gives-if (O.timer_is_expired timer y.2).0 _ _ (Gives-some _ r3) rest) (Gives-some _ r2)

  wait_second-Holds :
      (fuel timer : ℕ) (p : Port) (i : I)
      → Q p i
      → Gives (λ x. Q x.1 x.2) (wait_second P O fuel timer idx p i)
  unfolding wait_second
  wait_second-Holds zero timer p i r = Gives-none
  wait_second-Holds (suc fuel) timer p i r =
      Gives-bind (inframe P p idx true i) _ (H.reads p true i r) λ x r1.
        let r2 = H.polls x.1 timer x.2 r1 in
        let rest = wait_second-Holds fuel timer x.1 (O.timer_is_expired timer x.2).1 r2 in
        Gives-if (is_negative x.0) _ _
          (Gives-if (O.timer_is_expired timer x.2).0 _ _ (Gives-some _ r2) rest) (Gives-some _ r1)

  resend-Holds :
      (fuel : ℕ) (wkc : ℤ) (p : Port) (i : I)
      → Q p i
      → Gives (λ x. Q x.1 x.2) (resend P O fuel idx wkc p i)
  unfolding resend
  resend-Holds fuel wkc p i r =
      let (timer2, i1) = O.timer_start timeout_ret i in
      Gives-bind (outframe P p idx true i1) _ (H.sends p true i1 (H.starts p timeout_ret i r))
        λ x r1.
          Gives-bind (wait_second P O fuel timer2 idx x.1 x.2) _
            (wait_second-Holds fuel timer2 x.1 x.2 r1)
            λ y r2.
              Gives-if (is_negative y.0) _ _ (Gives-some _ r2) (
                Gives-bind (take_secondary idx y.1) _ (H.moves y.1 y.2 r2) λ p3 r3. Gives-some _ r3)

  redundancy-Holds :
      (fuel : ℕ) (wkc wkc2 : ℤ) (p : Port) (i : I)
      → Q p i
      → Gives (λ x. Q x.1 x.2) (redundancy P O fuel idx wkc wkc2 p i)
  unfolding redundancy
  redundancy-Holds fuel wkc wkc2 p i r = Gives-step (source_of wkc p.prim.rxsa idx) _ λ primrx.
      Gives-step (stack_of true p) _ λ red. Gives-step (source_of wkc2 red.rxsa idx) _ λ secrx.
        Gives-if (is_crossed primrx secrx) _ _
          (Gives-bind (take_secondary idx p) _ (H.moves p i r) λ p1 r1. Gives-some _ r1)
          (Gives-if (is_broken primrx secrx) _ _
            (Gives-bind
              (if primrx == rx_prim && secrx == rx_sec then primary_to_tx idx p else some p) _
              (Gives-if (primrx == rx_prim && secrx == rx_sec) _ _ (H.restores p i r)
                (Gives-some p r))
              λ p1 r1. resend-Holds fuel wkc p1 i r1)
            (Gives-some _ r))

  waitinframe_red-Holds :
      (fuel timer : ℕ) (p : Port) (i : I)
      → Q p i
      → Gives (λ x. Q x.1 x.2) (waitinframe_red P O fuel idx timer p i)
  unfolding waitinframe_red
  waitinframe_red-Holds fuel timer p i r =
      let wkc2 = if p.redstate == 0 then pos 0 else no_frame in
      Gives-bind (wait_both P O fuel timer idx no_frame wkc2 p i) _
        (wait_both-Holds fuel timer no_frame wkc2 p i r)
        λ x r1.
          Gives-if (x.2.redstate == 0) _ _ (Gives-some _ r1)
            (redundancy-Holds fuel x.0 x.1 x.2 x.3 r1)

  pub waitinframe-Holds :
      (fuel timeout : ℕ) (p : Port) (i : I)
      → Q p i
      → Gives (λ x. Q x.1 x.2) (waitinframe P O fuel idx timeout p i)
  unfolding waitinframe
  waitinframe-Holds fuel timeout p i r =
      let (timer, i1) = O.timer_start timeout i in
      waitinframe_red-Holds fuel timer p i1 (H.starts p timeout i r)

  confirm-Holds :
      (k fuel timer1 timeout : ℕ) (p : Port) (i : I)
      → Q p i
      → Gives (λ x. Q x.1 x.2) (confirm P O k fuel timer1 idx timeout p i)
  unfolding confirm
  confirm-Holds zero fuel timer1 timeout p i r = Gives-none
  confirm-Holds (suc k) fuel timer1 timeout p i r =
      Gives-bind (outframe_red P p idx i) _ (H.sends_both p i r) λ x r1.
        let us = if ltb timeout timeout_ret then timeout else timeout_ret in
        let (timer2, i2) = O.timer_start us x.2 in
        Gives-bind (waitinframe_red P O fuel idx timer2 x.1 i2) _
          (waitinframe_red-Holds fuel timer2 x.1 i2 (H.starts x.1 us x.2 r1))
          λ y r2.
            let r3 = H.polls y.1 timer1 y.2 r2 in
            let rest =
              confirm-Holds k fuel timer1 timeout y.1 (O.timer_is_expired timer1 y.2).1 r3 in
            Gives-if (is_negative y.0) _ _
              (Gives-if (O.timer_is_expired timer1 y.2).0 _ _ (Gives-some _ r3) rest)
              (Gives-some _ r2)

  pub srconfirm-Holds :
      (fuel timeout : ℕ) (p : Port) (i : I)
      → Q p i
      → Gives (λ x. Q x.1 x.2) (srconfirm P O fuel idx timeout p i)
  unfolding srconfirm
  srconfirm-Holds fuel timeout p i r =
      let (timer1, i1) = O.timer_start timeout i in
      confirm-Holds fuel fuel timer1 timeout p i1 (H.starts p timeout i r)
