-- ===== src/Nic/Frames/Receive.antt =====
-- A receive call on a port that is open returns, and the port stays as it must be.
use servo_assistant.Base.{
  ℕ, ◌^◌, ◌≤◌, ◌<◌, ◌≡◌, ◌⊎◌, ◌∙◌, inl, inr, refl, sym, ap, ℤ, Bool, true, false, ◌||◌, ◌&&◌, some,
  none, List, ◌++◌, length, get_or, take, drop, ltb, leb, is_positive, ◌==◌, arith, Bool-cases,
  length-append, length-take, length-drop, if◌then◌else◌,
}
use servo_assistant.Bridge.Npcap.{Packet}
use servo_assistant.Nic.{Stack, Port, max_buf, buf_size, buf_rcvd, enter-true}
use servo_assistant.Nic.Pcap.{Pcap, DeliversFrames}
use servo_assistant.Nic.Invariant.{IsSendable, IsStack}
use servo_assistant.Nic.Frames.{
  no_frame, stack_of, socket_of, with_stack, dispatch, recvpkt, inframe,
}
use servo_assistant.Nic.Frames.Bounds.{IsResult, dispatch-Received, collect-Received}

pub with_stack_same :
    (secondary : Bool) (p : Port) (st : Stack)
    → stack_of secondary p ≡ some st
    → with_stack secondary st p ≡ p
unfolding with_stack stack_of
with_stack_same true p st e = ap (λ r. record p { red = r }) (sym e)
with_stack_same false p st e =
    ap (λ o. record p { prim = elim o [ none ↦ p.prim | some s ↦ s ] }) (sym e)

pub with_stack_temp :
    (secondary : Bool) (p : Port) (st : Stack)
    → with_stack secondary st p ≡ record (with_stack secondary st p) { tempinbufs = p.tempinbufs }
unfolding with_stack
with_stack_temp secondary p st = refl

pub dispatch_lengths :
    (secondary : Bool) (p : Port) (st : Stack) (idx n : ℕ)
    → dispatch idx (with_stack secondary st p).txbuflength n st ≡ dispatch idx p.txbuflength n st
unfolding with_stack
dispatch_lengths secondary p st idx n = refl

pub stack_of-with_stack :
    (secondary : Bool) (p : Port) (st : Stack) (n : ℕ)
    → stack_of secondary (record (with_stack secondary st p) { tempinbufs = n }) ≡ some st
unfolding with_stack stack_of
stack_of-with_stack true p st n = refl
stack_of-with_stack false p st n = refl

pub with_stack_twice :
    (secondary : Bool) (p : Port) (st1 st2 : Stack) (n : ℕ)
    → with_stack secondary st2 (record (with_stack secondary st1 p) { tempinbufs = n })
      ≡ record (with_stack secondary st2 p) { tempinbufs = n }
unfolding with_stack
with_stack_twice true p st1 st2 n = refl
with_stack_twice false p st1 st2 n = refl

-- The packet in the temporary buffer, over what was there.
abbrev pub over : List ℕ → List ℕ → ℕ → List ℕ
over new old n = take n new ++ drop n old

pub length-over :
    (new old : List ℕ) (n : ℕ)
    → n ≤ length new
    → n ≤ length old
    → length (over new old n) ≡ length old
length-over new old n a b =
    omega (arith, length-append (take n new) (drop n old), length-take n new, length-drop n old)

module _ {I : Type 0} (P : Pcap I) (D : DeliversFrames P) (secondary : Bool) (p : Port) (st : Stack)
    (chosen : stack_of secondary p ≡ some st) (h : ℕ) (open_at : socket_of st ≡ some h)
    (w : IsStack p.txbuflength st) where
  -- How a packet is received: none, or one that fills the temporary buffer.
  pub recvpkt-some :
      (i : I)
      → (got : Bool) × (temp : List ℕ) × (n : ℕ) × (r : ℤ) × (pkt : Packet) × (i1 : I)
        × (P.next_packet h i ≡ some (r, pkt, i1))
        × (recvpkt P p secondary i
            ≡ some (
              got,
              record (with_stack secondary (record st { tempbuf = temp }) p) { tempinbufs = n },
              i1,
            ))
        × (length temp ≡ buf_size)
        × (n ≤ buf_size)
  unfolding recvpkt
  recvpkt-some i =
      let ((r, pkt, i1), e) = D.returns h i in
      let n = if ltb buf_size pkt.len then buf_size else pkt.len in
      elim (Bool-cases (is_positive r)) [
        | inl got ↦
            (let (a, b) = D.whole h i e got in
              let whole : (leb (2 ^ 31) pkt.len || ltb (length pkt.bytes) n) ≡ false =
                ground arith in
              let fit : n ≤ buf_size = ground arith in
              let inside : n ≤ length pkt.bytes = ground arith in
              (
                ltb 0 n,
                over pkt.bytes st.tempbuf n,
                n,
                r,
                pkt,
                i1,
                e,
                rw (recvpkt, chosen, open_at, e, got, whole),
                omega (
                  arith,
                  length-over pkt.bytes st.tempbuf n inside (omega (arith, w.temp)),
                  w.temp,
                ),
                fit,
              ))
        | inr nothing ↦ (
          false,
          st.tempbuf,
          0,
          r,
          pkt,
          i1,
          e,
          rw (recvpkt, chosen, open_at, e, nothing)
              (ap (λ (q : Port). some (false, record q { tempinbufs = 0 }, i1))
                (sym (with_stack_same secondary p st chosen))),
          w.temp,
          omega arith,
        )
      ]

  -- A call that receives without blocking, on a well-formed stack with an open socket, and for an
  -- index below 16 whose frame has between 16 and 1518 bytes, returns, whatever packet comes in, and
  -- reads and writes no byte outside a buffer. The stack stays well formed, and keeps its socket. The
  -- result is a work counter, or says that no frame, or another one, came. The socket is asked for
  -- at most one packet.
  pub inframe-some :
      (idx : ℕ) (i : I)
      → p.rx_mutex ≡ true
      → length p.txbuflength ≡ max_buf
      → idx < max_buf
      → IsSendable (get_or p.txbuflength idx 0)
      → (wkc : ℤ) × (st1 : Stack) × (n : ℕ) × (i1 : I) × (inframe P p idx secondary i
          ≡ some (wkc, record (with_stack secondary st1 p) { tempinbufs = n }, i1))
        × IsStack p.txbuflength st1
        × (socket_of st1 ≡ some h)
        × IsResult wkc
        × ((i1 ≡ i) ⊎ ((r : ℤ) × (pkt : Packet) × (P.next_packet h i ≡ some (r, pkt, i1))))
  unfolding inframe socket_of
  inframe-some idx i mutex l b s =
      elim (Bool-cases (ltb idx max_buf && get_or st.rxbufstat idx 0 == buf_rcvd)) [
        | inl ready ↦
            (let (wkc, st1, e, x, q, r) = collect-Received p.txbuflength l st w idx b in
              (
                wkc,
                st1,
                p.tempinbufs,
                i,
                rw (inframe, chosen, ready, e)
                    (ap (λ q. some (wkc, q, i)) (with_stack_temp secondary p st1)),
                x,
                q ∙ open_at,
                r,
                inl refl,
              ))
        | inr empty ↦
            (let (got, temp, n, r, pkt, i1, e, f, t, c) = recvpkt-some i in
              let st1 : Stack = record st { tempbuf = temp } in
              let w1 : IsStack p.txbuflength st1 = record {
                temp = t;
                buffers = w.buffers;
                states = w.states;
                sources = w.sources;
                each = w.each;
                sent = w.sent;
              } in
              let again = stack_of-with_stack secondary p st1 n in
              elim (Bool-cases got) [
                | inl arrived ↦
                    (let (wkc, st2, g, x, q, z) =
                        dispatch-Received p.txbuflength l st1 w1 idx b n s in
                      (
                        wkc,
                        st2,
                        n,
                        i1,
                        rw
                            (
                              inframe,
                              chosen,
                              empty,
                              enter-true _ mutex,
                              f,
                              again,
                              arrived,
                              dispatch_lengths secondary p st1 idx n,
                              g,
                            )
                            (ap (λ q. some (wkc, q, i1)) (with_stack_twice secondary p st1 st2 n)),
                        x,
                        q ∙ open_at,
                        z,
                        inr (r, pkt, e),
                      ))
                | inr nothing ↦ (
                  no_frame,
                  st1,
                  n,
                  i1,
                  rw (inframe, chosen, empty, enter-true _ mutex, f, again, nothing),
                  w1,
                  open_at,
                  inl refl,
                  inr (r, pkt, e),
                )
              ])
      ]
