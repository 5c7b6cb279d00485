-- ===== src/Nic/Wait/Answered.antt =====
-- A reply that comes in time is returned.
use servo_assistant.Base.{
  ℕ, zero, suc, ◌-◌, ◌<◌, ◌≡◌, ◌∙◌, refl, sym, ap, ℤ, pos, is_negative, true, false, Option, none,
  some, [], get_or, take, drop, ◌==◌, arith, get_or-set_self,
}
use mathlib.Core.Path.{subst}
use servo_assistant.Bridge.Npcap.{Packet}
use servo_assistant.Nic.{Stack, Port, buf_tx, buf_complete}
use servo_assistant.Nic.Pcap.{Pcap, Osal, DeliversFrames, Expires}
use servo_assistant.Nic.Frames.{no_frame, stack_of, socket_of, with_stack, inframe}
use servo_assistant.Nic.Frames.Bounds.{copied, with_frame}
use servo_assistant.Nic.Frames.Receive.{over}
use servo_assistant.Nic.Frames.Kept.{
  IsReply, kept_wkc, dispatch_self, recvpkt_reply, inframe_read, arrived,
}
use servo_assistant.Nic.Frames.Order.{take-copied}
use servo_assistant.Nic.Wait.{read_side, read_second, wait_both, waitinframe_red, waitinframe}
use servo_assistant.Nic.Wait.Live.{IsLive, IsLater, inframe-main}

-- The receive buffer of an index holds the bytes of a packet behind the Ethernet header, as many as
-- were sent.
abbrev pub HoldsReply : ℕ → Packet → Port → Type 0
HoldsReply idx pkt p =
    let n = get_or p.txbuflength idx 0 in
    take (n - 14) (get_or p.prim.rxbuf idx []) ≡ take (n - 14) (drop 14 pkt.bytes)

module _ {I : Type 0} (P : Pcap I) (O : Osal I) (idx timer : ℕ) (pkt : Packet) where
  -- From a state on, the packet `pkt` comes in as the reply that the index waits for, after any
  -- number of polls that find no frame, or another one, while the timer runs.
  pub data Pending : Port → I → I → Type 0 where
    now :
        {p : Port} {i j : I} (h : ℕ)
        → get_or p.prim.rxbufstat idx 0 ≡ buf_tx
        → socket_of p.prim ≡ some h
        → P.next_packet h i ≡ some (pos 1, pkt, j)
        → IsReply p.txbuflength idx pkt
        → Pending p i j
    later :
        {p p1 : Port} {i i1 i2 j : I} {v : ℤ}
        → inframe P p idx false i ≡ some (v, p1, i1)
        → is_negative v ≡ true
        → O.timer_is_expired timer i1 ≡ (false, i2)
        → Pending p1 i2 j
        → Pending p i j

module _ {I : Type 0} (P : Pcap I) (O : Osal I) (D : DeliversFrames P) (E : Expires P O)
    (idx timer : ℕ) (pkt : Packet) where
  read_reply :
      (p : Port) (i j : I) (h : ℕ)
      → IsLive idx 0 p
      → get_or p.prim.rxbufstat idx 0 ≡ buf_tx
      → socket_of p.prim ≡ some h
      → P.next_packet h i ≡ some (pos 1, pkt, j)
      → IsReply p.txbuflength idx pkt
      → (wkc : ℕ) × (p1 : Port) × (inframe P p idx false i ≡ some (pos wkc, p1, j))
        × (p1.redstate ≡ 0)
        × HoldsReply idx pkt p1
  unfolding stack_of with_stack with_frame
  read_reply p i j h w waits o e k =
      let lens = p.txbuflength in
      let st = p.prim in
      let n = pkt.len in
      let x = w.main.stack in
      let st1 : Stack = record st { tempbuf = over pkt.bytes st.tempbuf n } in
      let (w1, type, index, fit, f, size) = arrived lens idx pkt st w.index x k in
      let read = recvpkt_reply P false p st refl h lens idx pkt i j o e k in
      let self = dispatch_self lens w.lengths st1 w1 idx n w.index waits type index fit f in
      let old = get_or st.rxbuf idx [] in
      (
        kept_wkc lens w.lengths st1 w1 idx n w.index waits type index fit f,
        record p { prim = with_frame idx buf_complete lens st1; tempinbufs = n },
        inframe_read P false p st refl idx n i j (over pkt.bytes st.tempbuf n) _ _ w.rx
            (λ q. ground arith) read self,
        w.state,
        ap (take (get_or lens idx 0 - 14)) (
              get_or-set_self st.rxbuf idx
                (copied (over pkt.bytes st.tempbuf n) (get_or lens idx 0) old) []
                (omega (arith, x.buffers, w.index)))
            ∙ take-copied pkt.bytes st.tempbuf old (get_or lens idx 0) n
                (omega (arith, w.sendable.0)) k.sent k.whole,
      )

  After : I → Option (ℤ × Port × I) → Type 0
  After i none = Unit {0}
  After i (some (v, p, j)) = IsLive idx 0 p × IsLater P O D E idx 0 i j

  inframe-After :
      (p p1 : Port) (i i1 : I) (v : ℤ)
      → IsLive idx 0 p
      → inframe P p idx false i ≡ some (v, p1, i1)
      → IsLive idx 0 p1 × IsLater P O D E idx 0 i i1
  unfolding After
  inframe-After p p1 i i1 v w e =
      let (u0, q, i0, f, w1, r, l) = inframe-main P O D E idx 0 p w i in
      subst (After i) (sym f ∙ e) (w1, l)

  wait_both-answer :
      (fuel : ℕ) (v : ℤ) (p p1 : Port) (i j : I) (wkc : ℕ)
      → is_negative v ≡ true
      → inframe P p idx false i ≡ some (pos wkc, p1, j)
      → p1.redstate ≡ 0
      → wait_both P O (suc fuel) timer idx v (pos 0) p i ≡ some (pos wkc, pos 0, p1, j)
  unfolding wait_both read_side read_second
  wait_both-answer fuel v p p1 i j wkc n f z =
      let single : (p1.redstate == 0) ≡ true = ground arith in
      rw (wait_both, read_side, n, f, read_second, single)

  wait_both-again :
      (fuel : ℕ) (v u : ℤ) (p p1 : Port) (i i1 i2 : I)
      → is_negative v ≡ true
      → inframe P p idx false i ≡ some (u, p1, i1)
      → p1.redstate ≡ 0
      → is_negative u ≡ true
      → O.timer_is_expired timer i1 ≡ (false, i2)
      → wait_both P O (suc fuel) timer idx v (pos 0) p i
        ≡ wait_both P O fuel timer idx u (pos 0) p1 i2
  unfolding wait_both read_side read_second
  wait_both-again fuel v u p p1 i i1 i2 n e z m t =
      let single : (p1.redstate == 0) ≡ true = ground arith in
      rw (wait_both, read_side, n, e, read_second, single, m, t)

  sooner :
      (i1 i2 : I) → O.timer_is_expired timer i1 ≡ (false, i2) → E.left timer i2 < E.left timer i1
  sooner i1 i2 t =
      subst (λ x. E.left timer x < E.left timer i1) (ap (λ x. x.1) t)
        (E.runs timer i1 (ap (λ x. x.0) t))

  wait_both-Pending :
      (fuel : ℕ) (v : ℤ) (p : Port) (i : I) {j : I}
      → E.left timer i < fuel
      → is_negative v ≡ true
      → IsLive idx 0 p
      → Pending P O idx timer pkt p i j
      → (wkc : ℕ) × (p1 : Port) × (wait_both P O fuel timer idx v (pos 0) p i
          ≡ some (pos wkc, pos 0, p1, j))
        × (p1.redstate ≡ 0)
        × HoldsReply idx pkt p1
  wait_both-Pending zero v p i b n w s = absurd (omega arith)
  wait_both-Pending (suc fuel) v p i {j} b n w (now h waits o e k) =
      let (wkc, p1, f, z, x) = read_reply p i j h w waits o e k in
      (wkc, p1, wait_both-answer fuel v p p1 i j wkc n f z, z, x)
  wait_both-Pending (suc fuel) v p i b n w
        (later {p1 = p1} {i1 = i1} {i2 = i2} {v = u} e m t rest) =
      let (w2, l2) = inframe-After p p1 i i1 u w e in
      let (wkc, p3, g, z, x) =
        wait_both-Pending fuel u p1 i2 (omega (arith, sooner i1 i2 t, l2.left timer)) m w2 rest in
      (wkc, p3, wait_both-again fuel v u p p1 i i1 i2 n e w2.state m t ∙ g, z, x)

  waitinframe_red-answer :
      (fuel : ℕ) (p p1 : Port) (i j : I) (wkc : ℕ)
      → p.redstate ≡ 0
      → p1.redstate ≡ 0
      → wait_both P O fuel timer idx no_frame (pos 0) p i ≡ some (pos wkc, pos 0, p1, j)
      → waitinframe_red P O fuel idx timer p i ≡ some (pos wkc, p1, j)
  unfolding waitinframe_red
  waitinframe_red-answer fuel p p1 i j wkc y z f =
      let single : (p.redstate == 0) ≡ true = ground arith in
      let still : (p1.redstate == 0) ≡ true = ground arith in rw (waitinframe_red, single, f, still)

  -- On a live port without redundancy, when the frame of an index comes in as its reply while the
  -- timer of the call runs, after any number of polls that find no frame or another one, the call
  -- that waits for it returns a work counter, with fuel for the polls of its timer, and the receive
  -- buffer of the index holds the bytes of that reply, as many as were sent.
  pub waitinframe_answered :
      (fuel timeout : ℕ) (p : Port) (i : I) {j : I}
      → E.polls timeout < fuel
      → IsLive idx 0 p
      → (O.timer_start timeout i).0 ≡ timer
      → Pending P O idx timer pkt p (O.timer_start timeout i).1 j
      → (wkc : ℕ) × (p1 : Port) × (waitinframe P O fuel idx timeout p i ≡ some (pos wkc, p1, j))
        × HoldsReply idx pkt p1
  unfolding waitinframe
  waitinframe_answered fuel timeout p i b w t s =
      let i1 = (O.timer_start timeout i).1 in
      let enough : E.left timer i1 < fuel =
        subst (λ x. E.left x i1 < fuel) t (omega (arith, E.starts timeout i)) in
      let (wkc, p1, f, z, x) = wait_both-Pending fuel no_frame p i1 enough refl w s in
      (
        wkc,
        p1,
        ap (λ x. waitinframe_red P O fuel idx x p i1) t
            ∙ waitinframe_red-answer fuel p p1 i1 _ wkc w.state z f,
        x,
      )
