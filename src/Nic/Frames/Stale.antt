-- ===== src/Nic/Frames/Stale.antt =====
-- A reply that is longer than what was sent.
use servo_assistant.Base.{
  ℕ, ◌+◌, ◌-◌, ◌≤◌, ◌<◌, ◌≡◌, ◌∙◌, ap, pos, Bool, true, some, List, [], length, get_or, take, drop,
  arith, length-take, length-drop, get_or-append_right, get_or-drop,
}
use servo_assistant.Bridge.Npcap.{Packet}
use servo_assistant.Nic.{Stack, Port, max_buf, buf_tx, buf_complete}
use servo_assistant.Nic.Pcap.{Pcap}
use servo_assistant.Nic.Invariant.{IsStack}
use servo_assistant.Nic.Frames.{stack_of, socket_of, with_stack, frame_length, inframe}
use servo_assistant.Nic.Frames.Bounds.{copied, wkc_of, with_frame}
use servo_assistant.Nic.Frames.Receive.{over}
use servo_assistant.Nic.Frames.Kept.{
  IsReply, kept, kept_wkc, dispatch_self, recvpkt_reply, inframe_read, arrived,
}

-- Behind what was copied stands what the buffer held before.
copied_rest :
    (temp old : List ℕ) (n k : ℕ)
    → n ≤ length temp
    → n ≤ k + 14
    → get_or (copied temp n old) k 0 ≡ get_or old k 0
unfolding copied
copied_rest temp old n k a b =
    let front = take (n - 14) (drop 14 temp) in
    let size : length front ≡ n - 14 =
      omega (arith, length-take (n - 14) (drop 14 temp), length-drop 14 temp) in
    get_or-append_right front (drop (n - 14) old) k 0 (omega (arith, size))
    ∙ get_or-drop (n - 14) old (k - length front) 0
    ∙ ap (λ m. get_or old m 0) (omega (arith, size))

-- If the work counter of a reply, which stands where the reply's length says, is behind the last byte
-- that was sent, then the work counter that is returned is not that of the reply: it is made of the
-- bytes that the index's receive buffer held before at that place.
pub stale_counter :
    {I : Type 0} (P : Pcap I) (secondary : Bool) (p : Port) (st : Stack) (h j : ℕ) (pkt : Packet)
    (io io1 : I)
    → stack_of secondary p ≡ some st
    → socket_of st ≡ some h
    → IsStack p.txbuflength st
    → length p.txbuflength ≡ max_buf
    → p.rx_mutex ≡ true
    → j < max_buf
    → get_or st.rxbufstat j 0 ≡ buf_tx
    → P.next_packet h io ≡ some (pos 1, pkt, io1)
    → IsReply p.txbuflength j pkt
    → get_or p.txbuflength j 0 ≤ frame_length pkt.bytes + 14
    → (after : Port) × (inframe P p j secondary io
        ≡ some (pos (wkc_of (frame_length pkt.bytes) (get_or st.rxbuf j [])), after, io1))
unfolding kept kept_wkc
stale_counter P secondary p st h j pkt io io1 chosen o w l mutex b waits e k long =
    let lens = p.txbuflength in
    let n = pkt.len in
    let temp = over pkt.bytes st.tempbuf n in
    let old = get_or st.rxbuf j [] in
    let st1 : Stack = record st { tempbuf = temp } in
    let (w1, type, index, fit, f, size) = arrived lens j pkt st b w k in
    let read = recvpkt_reply P secondary p st chosen h lens j pkt io io1 o e k in
    let self = dispatch_self lens l st1 w1 j n b waits type index fit f in
    let at : (m : ℕ)
        → frame_length pkt.bytes ≤ m
        → get_or (copied temp (get_or lens j 0) old) m 0 ≡ get_or old m 0 =
      λ m c.
        copied_rest temp old (get_or lens j 0) m (omega (arith, w1.temp, (w.sent j waits).1))
          (omega (arith, long)) in
    let l0 = frame_length pkt.bytes in
    let counter : wkc_of (frame_length temp) (copied temp (get_or lens j 0) old) ≡ wkc_of l0 old =
      rw (size, at l0 (omega arith), at (l0 + 1) (omega arith)) in
    let after : Port = record (with_stack secondary (with_frame j buf_complete lens st1) p) {
      tempinbufs = n;
    } in
    (
      after,
      inframe_read P secondary p st chosen j n io io1 temp _ _ mutex (λ q. ground arith) read self
          ∙ ap (λ v. some (pos v, after, io1)) counter,
    )
