-- ===== src/Nic/Traffic.antt =====
-- What holds of the state outside of nicdrv.c, whatever calls are made: a relation that each call of
-- a pcap function or a timer keeps is kept by each function of nicdrv.c.
pub mod Calls
mod Tests
use servo_assistant.Base.{
  ℕ, zero, suc, ◌≡◌, refl, ℤ, Bool, true, false, Option, none, some, List, ◌%◌, ◌^◌, ◌&&◌, ◌||◌,
  not, is_minus_one, is_positive, set, take, length, ltb, leb, ◌==◌, get_or, get_elem?,
  if◌then◌else◌, ◌>>=◌, Gives, Gives-none, Gives-some, Gives-if, Gives-step, Gives-bind,
}
use servo_assistant.Nic.{
  Port, buf_tx, buf_empty, buf_rcvd, buf_size, max_buf, set_status, enter, Gives-enter,
}
use servo_assistant.Nic.Pcap.{Pcap, Osal}
use servo_assistant.Nic.Frames.{
  stack_of, socket_of, is_inside, collect, dispatch, outframe, send_dummy, outframe_red, recvpkt,
  inframe,
}

-- Where a function returns, the relation holds between a state and the one that it leaves; `out`
-- picks that one from the result.
abbrev pub Ends : {I A : Type 0} (R : I → I → Type 0) (out : A → I) (i : I) → Option A → Type 0
Ends R out i = Gives (λ a. R i (out a))

-- A relation on the states that the calls to the outside keep.
pub record IsKept {I : Type 0} (P : Pcap I) (O : Osal I) (R : I → I → Type 0) : Type 0 where
  pub same : (i : I) → R i i
  pub join : {i j k : I} → R i j → R j k → R i k
  pub sends : (h n : ℕ) (b : List ℕ) (i : I) → R i (P.send_packet h b n i).1
  pub takes : (h : ℕ) (i : I) → Ends R (λ x. x.2) i (P.next_packet h i)
  pub polls : (t : ℕ) (i : I) → R i (O.timer_is_expired t i).1
  pub starts : (us : ℕ) (i : I) → R i (O.timer_start us i).1

module _ {I : Type 0} {R : I → I → Type 0} {i : I} where
  pub Ends-join :
      {A : Type 0} {P : Pcap I} {O : Osal I} {out : A → I} {j : I} {m : Option A}
      → IsKept P O R
      → R i j
      → Ends R out j m
      → Ends R out i m
  Ends-join K r k = record { at = λ a e. K.join r (k.at a e) }

abbrev pub last : {A B I : Type 0} → A × B × I → I
last x = x.2

module _ {I : Type 0} (P : Pcap I) (O : Osal I) (R : I → I → Type 0) (K : IsKept P O R)
    {i0 : I} where
  pub outframe-Ends :
      (p : Port) (idx : ℕ) (secondary : Bool) (i : I)
      → R i0 i
      → Ends R last i0 (outframe P p idx secondary i)
  unfolding outframe
  outframe-Ends p idx secondary i r = Gives-step (stack_of secondary p) _ λ st.
      Gives-step (get_elem? p.txbuflength idx) _ λ n. Gives-step (set_status idx buf_tx st) _ λ st1.
        Gives-step (get_elem? p.txbuf idx) _ λ buf. Gives-step (socket_of st) _ λ h.
          Gives-if (is_inside n buf) _ _
            (Gives-step
              (if is_minus_one (P.send_packet h (take n buf) n i).0
                then set_status idx buf_empty st1
                else some st1)
              _ λ st2. Gives-some _ (K.join r (K.sends h n (take n buf) i)))
            Gives-none

  send_dummy-Ends :
      (p : Port) (idx : ℕ) (i : I) → R i0 i → Ends R (λ x. x.1) i0 (send_dummy P p idx i)
  unfolding send_dummy
  send_dummy-Ends p idx i r =
      let buf = set (set (set p.txbuf2 17 (idx % 256)) 8 4) 9 4 in
      let n = p.txbuflength2 in
      Gives-step p.red _ λ red. Gives-step (set_status idx buf_tx red) _ λ st1.
        Gives-step (socket_of red) _ λ h.
          Gives-if (is_inside n buf) _ _
            (Gives-step
              (if is_minus_one (P.send_packet h (take n buf) n i).0
                then set_status idx buf_empty st1
                else some st1)
              _ λ st2. Gives-some _ (K.join r (K.sends h n (take n buf) i)))
            Gives-none

  pub outframe_red-Ends :
      (p : Port) (idx : ℕ) (i : I) → R i0 i → Ends R last i0 (outframe_red P p idx i)
  unfolding outframe_red
  outframe_red-Ends p idx i r = Gives-step (get_elem? p.txbuf idx) _ λ buf.
      let q = record p { txbuf = set p.txbuf idx (set (set buf 8 1) 9 1) } in
      Gives-bind (outframe P q idx false i) _ (outframe-Ends q idx false i r) λ x r1.
        Gives-if (x.1.redstate == 0) _ _ (Gives-some _ r1) (
          Gives-enter x.1.tx_mutex _ (
            Gives-bind (send_dummy P x.1 idx x.2) _ (send_dummy-Ends x.1 idx x.2 r1)
              λ y r2. Gives-some _ r2))

  recvpkt-Ends :
      (p : Port) (secondary : Bool) (i : I) → R i0 i → Ends R last i0 (recvpkt P p secondary i)
  unfolding recvpkt
  recvpkt-Ends p secondary i r = Gives-step (stack_of secondary p) _ λ st.
      Gives-step (socket_of st) _ λ h.
        Gives-bind (P.next_packet h i) _ (Ends-join K r (K.takes h i)) λ x r1.
          Gives-if (not (is_positive x.0)) _ _ (Gives-some _ r1) (
            Gives-if
              (leb (2 ^ 31) x.1.len
                || ltb (length x.1.bytes) (if ltb buf_size x.1.len then buf_size else x.1.len))
              _ _ Gives-none (Gives-some _ r1))

  pub inframe-Ends :
      (p : Port) (idx : ℕ) (secondary : Bool) (i : I)
      → R i0 i
      → Ends R last i0 (inframe P p idx secondary i)
  unfolding inframe
  inframe-Ends p idx secondary i r = Gives-step (stack_of secondary p) _ λ st.
      Gives-if (ltb idx max_buf && get_or st.rxbufstat idx 0 == buf_rcvd) _ _
        (Gives-step (collect idx st) _ λ x. Gives-some _ r)
        (Gives-enter p.rx_mutex _ (
          Gives-bind (recvpkt P p secondary i) _ (recvpkt-Ends p secondary i r) λ x r1.
            Gives-step (stack_of secondary x.1) _ λ st1.
              Gives-if x.0 _ _
                (Gives-step (dispatch idx x.1.txbuflength x.1.tempinbufs st1) _
                  λ y. Gives-some _ r1)
                (Gives-some _ r1)))
