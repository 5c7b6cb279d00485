-- ===== src/Nic/Wait/Stored.antt =====
-- A reply that is stored stays so until its index is asked for, whatever is called for others.
use servo_assistant.Base.{
  ℕ, ◌%◌, ◌^◌, ◌≡◌, ◌≢◌, ◌∙◌, ◌&&◌, ◌||◌, refl, ap, not, Bool, true, false, Option, some, List, [],
  ◌++◌, set, get_or, get_elem?, take, drop, length, ltb, leb, ◌==◌, is_positive, is_minus_one,
  if◌then◌else◌, arith, get_or-set_ne, Gives, Gives-none, Gives-some, Gives-if, Gives-test,
  Gives-step, Gives-bind,
}
use servo_assistant.Nic.{
  Stack, Port, max_buf, buf_size, buf_empty, buf_tx, buf_rcvd, buf_complete, set_status,
  Gives-enter,
}
use servo_assistant.Nic.Pcap.{Pcap, Osal}
use servo_assistant.Nic.Invariant.{ecat_length}
use servo_assistant.Nic.Frames.{
  stack_of, socket_of, with_stack, copy_frame, wkc_at, is_ethercat, frame_index, frame_length,
  store, is_unfit, dispatch, collect, is_inside, outframe, send_dummy, outframe_red, recvpkt,
  inframe,
}
use servo_assistant.Nic.Wait.Held.{IsHeld}
use servo_assistant.Nic.Wait.{copy_part, take_secondary, primary_to_tx}

-- A stack that holds these bytes as the reply to an index.
pub record IsStored (j : ℕ) (bytes : List ℕ) (st : Stack) : Type 0 where
  pub status : get_or st.rxbufstat j 0 ≡ buf_rcvd
  pub buffer : get_or st.rxbuf j [] ≡ bytes

module _ (j : ℕ) (bytes : List ℕ) where
  pub set_status-IsStored :
      (k s : ℕ) (st : Stack)
      → k ≢ j
      → IsStored j bytes st
      → Gives (IsStored j bytes) (set_status k s st)
  unfolding set_status
  set_status-IsStored k s st d h =
      Gives-if (ltb k (length st.rxbufstat)) _ _
        (Gives-some _
          (record { status = get_or-set_ne st.rxbufstat s 0 d ∙ h.status; buffer = h.buffer }))
        Gives-none

  store-IsStored :
      (k s : ℕ) (lens : List ℕ) (st : Stack)
      → k ≢ j
      → IsStored j bytes st
      → Gives (IsStored j bytes) (store k s lens st)
  unfolding store
  store-IsStored k s lens st d h = Gives-step (get_elem? lens k) _ λ n.
      Gives-step (get_elem? st.rxbuf k) _ λ old. Gives-step (copy_frame st.tempbuf n old) _ λ buf.
        let st0 = record st { rxbuf = set st.rxbuf k buf } in
        let h0 : IsStored j bytes st0 = record {
          status = h.status;
          buffer = get_or-set_ne st.rxbuf buf [] d ∙ h.buffer;
        } in
        Gives-bind (set_status k s st0) _ (set_status-IsStored k s st0 d h0) λ st1 h1.
          Gives-if (ltb k (length st.rxsa)) _ _
            (Gives-some _ (record { status = h1.status; buffer = h1.buffer })) Gives-none

  collect-IsStored :
      (k : ℕ) (st : Stack)
      → k ≢ j
      → IsStored j bytes st
      → Gives (λ x. IsStored j bytes x.1) (collect k st)
  unfolding collect
  collect-IsStored k st d h = Gives-step (get_elem? st.rxbuf k) _ λ buf.
      Gives-step (wkc_at (ecat_length buf) buf) _ λ wkc.
        Gives-bind (set_status k buf_complete st) _ (set_status-IsStored k buf_complete st d h)
          λ st1 h1. Gives-some _ h1

  other :
      (k : ℕ) (st : Stack)
      → (get_or st.rxbufstat k 0 == buf_tx) ≡ true
      → IsStored j bytes st
      → k ≢ j
  other k st waits h e =
      let status : get_or st.rxbufstat k 0 ≡ buf_rcvd =
        ap (λ t. get_or st.rxbufstat t 0) e ∙ h.status in
      ground arith

  -- A frame for the index itself is not taken again.
  dispatch-IsStored :
      (k : ℕ) (lens : List ℕ) (count : ℕ) (st : Stack)
      → k ≢ j
      → IsStored j bytes st
      → Gives (λ x. IsStored j bytes x.1) (dispatch k lens count st)
  unfolding dispatch
  dispatch-IsStored k lens count st d h =
      let temp = st.tempbuf in
      let idxf = frame_index temp in
      Gives-if (not (is_ethercat temp) || is_unfit lens temp count) _ _ (Gives-some _ h) (
        Gives-if (idxf == k) _ _
          (Gives-bind (store k buf_complete lens st) _ (store-IsStored k buf_complete lens st d h)
            λ st1 h1.
              Gives-step (get_elem? st1.rxbuf k) _
                λ buf. Gives-step (wkc_at (frame_length temp) buf) _ λ wkc. Gives-some _ h1)
          (Gives-test (get_or st.rxbufstat idxf 0 == buf_tx) _ _
            (λ waits.
              Gives-bind (store idxf buf_rcvd lens st) _
                (store-IsStored idxf buf_rcvd lens st (other idxf st waits h) h)
                λ st1 h1. Gives-some _ h1)
            (λ e. Gives-some _ h)))

module _ {I : Type 0} (P : Pcap I) (O : Osal I) (j : ℕ) (bytes : List ℕ) where
  -- The primary stack of a port holds the reply.
  abbrev Keeps : Port → Type 0
  Keeps p = IsStored j bytes p.prim

  abbrev Kept : {A : Type 0} → Option (A × Port × I) → Type 0
  Kept = Gives (λ x. Keeps x.1)

  -- Of the secondary stack nothing is asked.
  abbrev On : Bool → Stack → Type 0
  On secondary st = secondary ≡ false → IsStored j bytes st

  on :
      {A : Type 0} {Q : A → Type 0} (secondary : Bool) (m : Option A)
      → (secondary ≡ false → Gives Q m)
      → Gives (λ a. secondary ≡ false → Q a) m
  on secondary m h = record { at = λ a e z. (h z).at a e }

  stack_of-On :
      (secondary : Bool) (p : Port) → Keeps p → Gives (On secondary) (stack_of secondary p)
  unfolding stack_of
  stack_of-On true p h = record { at = λ a e z. absurd (cc) }
  stack_of-On false p h = Gives-some _ (λ z. h)

  with_stack-Keeps :
      (secondary : Bool) (st : Stack) (p : Port)
      → Keeps p
      → On secondary st
      → Keeps (with_stack secondary st p)
  unfolding with_stack
  with_stack-Keeps true st p h k = h
  with_stack-Keeps false st p h k = k refl

  module _ (k : ℕ) (d : k ≢ j) where
    outframe-Kept :
        (p : Port) (secondary : Bool) (i : I) → Keeps p → Kept (outframe P p k secondary i)
    unfolding outframe
    outframe-Kept p secondary i h =
        Gives-bind (stack_of secondary p) _ (stack_of-On secondary p h) λ st s.
          Gives-step (get_elem? p.txbuflength k) _ λ n.
            Gives-bind (set_status k buf_tx st) _
              (on secondary (set_status k buf_tx st)
                (λ z. set_status-IsStored j bytes k buf_tx st d (s z)))
              λ st1 s1. Gives-step (get_elem? p.txbuf k) _ λ buf.
                Gives-step (socket_of st) _ λ sock.
                  let failed = is_minus_one (P.send_packet sock (take n buf) n i).0 in
                  Gives-if (is_inside n buf) _ _
                    (Gives-bind (if failed then set_status k buf_empty st1 else some st1) _
                      (Gives-if failed _ _
                        (on secondary (set_status k buf_empty st1)
                          (λ z. set_status-IsStored j bytes k buf_empty st1 d (s1 z)))
                        (Gives-some st1 s1))
                      λ st2 s2. Gives-some _ (with_stack-Keeps secondary st2 p h s2))
                    Gives-none

    send_dummy-Keeps : (p : Port) (i : I) → Keeps p → Gives (λ x. Keeps x.0) (send_dummy P p k i)
    unfolding send_dummy
    send_dummy-Keeps p i h =
        let buf = set (set (set p.txbuf2 17 (k % 256)) 8 4) 9 4 in
        let n = p.txbuflength2 in
        Gives-step p.red _ λ red. Gives-step (set_status k buf_tx red) _ λ st1.
          Gives-step (socket_of red) _ λ sock.
            Gives-if (is_inside n buf) _ _
              (Gives-step
                (if is_minus_one (P.send_packet sock (take n buf) n i).0
                  then set_status k buf_empty st1
                  else some st1)
                _ λ st2. Gives-some _ h)
              Gives-none

    outframe_red-Kept : (p : Port) (i : I) → Keeps p → Kept (outframe_red P p k i)
    unfolding outframe_red
    outframe_red-Kept p i h = Gives-step (get_elem? p.txbuf k) _ λ buf.
        let q = record p { txbuf = set p.txbuf k (set (set buf 8 1) 9 1) } in
        Gives-bind (outframe P q k false i) _ (outframe-Kept q false i h) λ x h1.
          Gives-if (x.1.redstate == 0) _ _ (Gives-some _ h1) (
            Gives-enter x.1.tx_mutex _ (
              Gives-bind (send_dummy P x.1 k x.2) _ (send_dummy-Keeps x.1 x.2 h1)
                λ y h2. Gives-some _ h2))

    recvpkt-Kept : (p : Port) (secondary : Bool) (i : I) → Keeps p → Kept (recvpkt P p secondary i)
    unfolding recvpkt
    recvpkt-Kept p secondary i h =
        Gives-bind (stack_of secondary p) _ (stack_of-On secondary p h) λ st s.
          Gives-step (socket_of st) _ λ sock. Gives-step (P.next_packet sock i) _ λ x.
            let n = if ltb buf_size x.1.len then buf_size else x.1.len in
            let st1 = record st { tempbuf = take n x.1.bytes ++ drop n st.tempbuf } in
            let s1 : On secondary st1 =
              λ z. record { status = (s z).status; buffer = (s z).buffer } in
            Gives-if (not (is_positive x.0)) _ _ (Gives-some _ h) (
              Gives-if (leb (2 ^ 31) x.1.len || ltb (length x.1.bytes) n) _ _ Gives-none
                (Gives-some _ (with_stack-Keeps secondary st1 p h s1)))

    inframe-Kept :
        (p : Port) (secondary : Bool) (i : I) → Keeps p → Kept (inframe P p k secondary i)
    unfolding inframe
    inframe-Kept p secondary i h =
        Gives-bind (stack_of secondary p) _ (stack_of-On secondary p h) λ st s.
          Gives-if (ltb k max_buf && get_or st.rxbufstat k 0 == buf_rcvd) _ _
            (Gives-bind (collect k st) _
              (on secondary (collect k st) (λ z. collect-IsStored j bytes k st d (s z)))
              λ x s1. Gives-some _ (with_stack-Keeps secondary x.1 p h s1))
            (Gives-enter p.rx_mutex _ (
              Gives-bind (recvpkt P p secondary i) _ (recvpkt-Kept p secondary i h) λ x h1.
                Gives-bind (stack_of secondary x.1) _ (stack_of-On secondary x.1 h1) λ st1 s1.
                  Gives-if x.0 _ _
                    (Gives-bind (dispatch k x.1.txbuflength x.1.tempinbufs st1) _
                      (on secondary (dispatch k x.1.txbuflength x.1.tempinbufs st1) (λ z.
                        dispatch-IsStored j bytes k x.1.txbuflength x.1.tempinbufs st1 d (s1 z)))
                      λ y s2. Gives-some _ (with_stack-Keeps secondary y.1 x.1 h1 s2))
                    (Gives-some _ h1)))

    take_secondary-Keeps : (p : Port) → Keeps p → Gives Keeps (take_secondary k p)
    unfolding take_secondary
    take_secondary-Keeps p h = Gives-step p.red _ λ red.
        Gives-step (get_elem? p.txbuflength k) _ λ n. Gives-step (get_elem? red.rxbuf k) _ λ src.
          Gives-step (get_elem? p.prim.rxbuf k) _ λ dst. Gives-step (copy_part n src dst) _ λ buf.
            Gives-some _ (record {
              status = h.status;
              buffer = get_or-set_ne p.prim.rxbuf buf [] d ∙ h.buffer;
            })

    primary_to_tx-Keeps : (p : Port) → Keeps p → Gives Keeps (primary_to_tx k p)
    unfolding primary_to_tx
    primary_to_tx-Keeps p h = Gives-step (get_elem? p.txbuflength k) _ λ n.
        Gives-step (get_elem? p.prim.rxbuf k) _ λ src.
          Gives-step (get_elem? p.txbuf k) _
            λ dst. Gives-step (copy_part n src (drop 14 dst)) _ λ buf. Gives-some _ h

    pub stored-IsHeld : IsHeld P O k (λ p i. Keeps p)
    stored-IsHeld = record {
      sends = λ p secondary i h. outframe-Kept p secondary i h;
      sends_both = λ p i h. outframe_red-Kept p i h;
      reads = λ p secondary i h. inframe-Kept p secondary i h;
      polls = λ p t i h. h;
      starts = λ p us i h. h;
      moves = λ p i h. take_secondary-Keeps p h;
      restores = λ p i h. primary_to_tx-Keeps p h;
    }
