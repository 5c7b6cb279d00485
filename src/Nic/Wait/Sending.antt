-- ===== src/Nic/Wait/Sending.antt =====
-- Sending on a live port.
use servo_assistant.Base.{
  ℕ, ◌%◌, ◌<◌, ◌≡◌, ◌≢◌, inl, inr, ℤ, is_minus_one, true, false, some, List, [], set, length,
  get_or, get_elem?, take, leb, ◌==◌, if◌then◌else◌, arith, Bool-cases, length-set,
  get_elem?-eq-get_or, le→leb,
}
use servo_assistant.Nic.{Stack, Port, max_buf, buf_size, buf_empty, buf_tx, set_status, enter-true}
use servo_assistant.Nic.Pcap.{Pcap, Osal, DeliversFrames, Expires}
use servo_assistant.Nic.Invariant.{IsSendable, with_status, set_status-IsStack}
use servo_assistant.Nic.Frames.{
  stack_of, socket_of, with_stack, is_inside, outframe, send_dummy, outframe_red,
}
use servo_assistant.Nic.Wait.Live.{
  IsOpenStack, IsLive, IsLive-main, IsLive-second, IsLive-tx, IsLive-second_stack, IsLater,
  IsLater-trans, Returns,
}

-- Any result of a call.
abbrev pub AnyResult : ℤ → Type 0
AnyResult w = Unit {0}

module _ (lens : List ℕ) (st : Stack) (x : IsOpenStack lens st) (idx : ℕ) (h : idx < max_buf)
    (s : IsSendable (get_or lens idx 0)) where
  sent_status : set_status idx buf_tx st ≡ some (with_status idx buf_tx st)
  sent_status = (set_status-IsStack lens st idx buf_tx x.stack h (inr s)).0

  -- The stack after a packet was sent, or was not.
  sent_stack :
      (rval : ℤ)
      → (st2 : Stack) × ((if is_minus_one rval
            then set_status idx buf_empty (with_status idx buf_tx st)
            else some (with_status idx buf_tx st))
          ≡ some st2)
        × IsOpenStack lens st2
  unfolding socket_of
  sent_stack rval =
      let (e, w1) = set_status-IsStack lens st idx buf_tx x.stack h (inr s) in
      let (f, w2) =
        set_status-IsStack lens (with_status idx buf_tx st) idx buf_empty w1 h
          (inl (λ n. ground arith)) in
      elim (Bool-cases (is_minus_one rval)) [
        | inl failed ↦ (
          with_status idx buf_empty (with_status idx buf_tx st),
          rw (failed, f),
          record { stack = w2; handle = x.handle; opened = x.opened },
        )
        | inr sent ↦ (
          with_status idx buf_tx st,
          rw sent,
          record { stack = w1; handle = x.handle; opened = x.opened },
        )
      ]

module _ {I : Type 0} (P : Pcap I) (O : Osal I) (D : DeliversFrames P) (E : Expires P O) (idx k : ℕ)
    (p : Port) (w : IsLive idx k p) where
  tx_found : get_elem? p.txbuf idx ≡ some (get_or p.txbuf idx [])
  tx_found = get_elem?-eq-get_or p.txbuf idx [] (omega (arith, w.tx_count, w.index))

  length_found : get_elem? p.txbuflength idx ≡ some (get_or p.txbuflength idx 0)
  length_found = get_elem?-eq-get_or p.txbuflength idx 0 (omega (arith, w.lengths, w.index))

  inside : is_inside (get_or p.txbuflength idx 0) (get_or p.txbuf idx []) ≡ true
  unfolding is_inside
  inside =
      le→leb (get_or p.txbuflength idx 0) (length (get_or p.txbuf idx []))
        (omega (arith, w.sendable.1, w.tx_each idx w.index))

  pub outframe-main : (i : I) → Returns P O D E idx k AnyResult i (outframe P p idx false i)
  unfolding outframe stack_of with_stack
  outframe-main i =
      let n = get_or p.txbuflength idx 0 in
      let x = w.main in
      let buf = take n (get_or p.txbuf idx []) in
      let (st2, e, y) =
        sent_stack p.txbuflength p.prim x idx w.index w.sendable
          (P.send_packet x.handle buf n i).0 in
      (
        (P.send_packet x.handle buf n i).0,
        record p { prim = st2 },
        (P.send_packet x.handle buf n i).1,
        rw (
          outframe,
          length_found,
          sent_status p.txbuflength p.prim x idx w.index w.sendable,
          tx_found,
          x.opened,
          inside,
          e,
        ),
        IsLive-main idx k p w st2 p.tempinbufs y,
        tt,
        record { left = λ t. E.send_keeps t x.handle n buf i },
      )

  pub outframe-second :
      (i : I) → k ≢ 0 → Returns P O D E idx k AnyResult i (outframe P p idx true i)
  unfolding outframe stack_of with_stack
  outframe-second i d =
      let n = get_or p.txbuflength idx 0 in
      let (r, f, x) = IsLive-second_stack idx k p w d in
      let buf = take n (get_or p.txbuf idx []) in
      let (st2, e, y) =
        sent_stack p.txbuflength r x idx w.index w.sendable (P.send_packet x.handle buf n i).0 in
      (
        (P.send_packet x.handle buf n i).0,
        record p { red = some st2 },
        (P.send_packet x.handle buf n i).1,
        rw (
          outframe,
          f,
          length_found,
          sent_status p.txbuflength r x idx w.index w.sendable,
          tx_found,
          x.opened,
          inside,
          e,
        ),
        IsLive-second idx k p w st2 p.tempinbufs p.txbuf2 y w.spare,
        tt,
        record { left = λ t. E.send_keeps t x.handle n buf i },
      )

  dummy : List ℕ
  dummy = set (set (set p.txbuf2 17 (idx % 256)) 8 4) 9 4

  length-dummy : length dummy ≡ buf_size
  unfolding dummy
  length-dummy = omega (
    arith,
    length-set (set (set p.txbuf2 17 (idx % 256)) 8 4) 9 4,
    length-set (set p.txbuf2 17 (idx % 256)) 8 4,
    length-set p.txbuf2 17 (idx % 256),
    w.spare,
  )

  pub send_dummy-some :
      (i : I)
      → k ≢ 0
      → (p1 : Port) × (i1 : I) × (send_dummy P p idx i ≡ some (p1, i1))
        × IsLive idx k p1
        × IsLater P O D E idx k i i1
  unfolding send_dummy dummy is_inside
  send_dummy-some i d =
      let n = p.txbuflength2 in
      let (r, f, x) = IsLive-second_stack idx k p w d in
      let buf = take n dummy in
      let fits : leb n (length dummy) ≡ true =
        le→leb n (length dummy) (omega (arith, length-dummy, w.spare_length)) in
      let (st2, e, y) =
        sent_stack p.txbuflength r x idx w.index w.sendable (P.send_packet x.handle buf n i).0 in
      (
        record p { red = some st2; txbuf2 = dummy },
        (P.send_packet x.handle buf n i).1,
        rw (send_dummy, f, sent_status p.txbuflength r x idx w.index w.sendable, x.opened, fits, e),
        IsLive-second idx k p w st2 p.tempinbufs dummy y length-dummy,
        record { left = λ t. E.send_keeps t x.handle n buf i },
      )

module _ {I : Type 0} (P : Pcap I) (O : Osal I) (D : DeliversFrames P) (E : Expires P O) (idx k : ℕ)
    (p : Port) (w : IsLive idx k p) where
  pub outframe_red-Returns : (i : I) → Returns P O D E idx k AnyResult i (outframe_red P p idx i)
  unfolding outframe_red
  outframe_red-Returns i =
      let old = get_or p.txbuf idx [] in
      let buf = set (set old 8 1) 9 1 in
      let size : length buf ≡ buf_size =
        omega (arith, length-set (set old 8 1) 9 1, length-set old 8 1, w.tx_each idx w.index) in
      let p0 : Port = record p { txbuf = set p.txbuf idx buf } in
      let (rval, p1, i1, e, w1, u, later) =
        outframe-main P O D E idx k p0 (IsLive-tx idx k p w buf size) i in
      elim (Bool-cases (p1.redstate == 0)) [
        | inl single ↦
            (rval, p1, i1, rw (outframe_red, tx_found P O D E idx k p w, e, single), w1, tt, later)
        | inr double ↦
            (let (p2, i2, f, w2, later2) =
                send_dummy-some P O D E idx k p1 w1 i1 (λ z. ground (arith, w1.state)) in
              (
                rval,
                p2,
                i2,
                rw (outframe_red, tx_found P O D E idx k p w, e, double, enter-true _ w1.tx, f),
                w2,
                tt,
                IsLater-trans P O D E idx k i i1 i2 later later2,
              ))
      ]
