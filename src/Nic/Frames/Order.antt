-- ===== src/Nic/Frames/Order.antt =====
-- Frames that come back in another order than they were sent.
use servo_assistant.Base.{
  ℕ, ◌-◌, ◌≤◌, ◌<◌, ◌≡◌, ◌≢◌, ◌∙◌, ap, pos, Bool, true, some, List, [], length, get_or, take, drop,
  arith, length-append, length-take, length-drop, get_or-set_self, take-append_le,
  take_of_length_le, take-drop_append,
}
use servo_assistant.Bridge.Npcap.{Packet}
use servo_assistant.Nic.{Stack, Port, max_buf, buf_tx, buf_rcvd, buf_complete}
use servo_assistant.Nic.Pcap.{Pcap}
use servo_assistant.Nic.Invariant.{IsStack}
use servo_assistant.Nic.Frames.{other_frame, stack_of, socket_of, with_stack, inframe}
use servo_assistant.Nic.Frames.Bounds.{copied, with_frame}
use servo_assistant.Nic.Frames.Receive.{stack_of-with_stack, with_stack_twice, over}
use servo_assistant.Nic.Frames.Kept.{
  IsReply, kept_wkc, dispatch_self, dispatch_other, collect_kept, recvpkt_reply, inframe_read,
  inframe_kept, arrived,
}

pub take-copied :
    (new old buf : List ℕ) (n len : ℕ)
    → 14 ≤ n
    → n ≤ len
    → len ≤ length new
    → take (n - 14) (copied (over new old len) n buf) ≡ take (n - 14) (drop 14 new)
unfolding copied
take-copied new old buf n len m a b =
    let frame = drop 14 (over new old len) in
    let size : length frame ≡ length (over new old len) - 14 = length-drop 14 (over new old len) in
    let whole : len ≤ length (over new old len) =
      omega (arith, length-append (take len new) (drop len old), length-take len new) in
    take-append_le (n - 14) (take (n - 14) frame) (drop (n - 14) buf)
      (omega (arith, length-take (n - 14) frame))
    ∙ take_of_length_le (n - 14) (take (n - 14) frame) (omega (arith, length-take (n - 14) frame))
    ∙ take-drop_append (n - 14) 14 len new (drop len old) (omega arith) b

-- A frame that comes back while another one is waited for is not lost. Let the stack wait for the
-- frame of index `j` and let its reply be the next packet. Whether the reply is read by a call for
-- `j`, or by a call for another index `i`, which reports another frame, and then asked for: `j` gets
-- the same work counter and the same port is left, whose buffer holds the bytes of the reply behind
-- the Ethernet header, as many as were sent. The second call does not touch the socket.
pub reordered :
    {I : Type 0} (P : Pcap I) (secondary : Bool) (p : Port) (st : Stack) (h i j : ℕ) (pkt : Packet)
    (io io1 io2 : I)
    → stack_of secondary p ≡ some st
    → socket_of st ≡ some h
    → IsStack p.txbuflength st
    → length p.txbuflength ≡ max_buf
    → p.rx_mutex ≡ true
    → j < max_buf
    → i ≢ j
    → get_or st.rxbufstat j 0 ≡ buf_tx
    → get_or st.rxbufstat i 0 ≢ buf_rcvd
    → P.next_packet h io ≡ some (pos 1, pkt, io1)
    → IsReply p.txbuflength j pkt
    → (wkc : ℕ) × (direct between : Port) × (final : Stack) × (inframe P p j secondary io
        ≡ some (pos wkc, direct, io1))
      × (inframe P p i secondary io ≡ some (other_frame, between, io1))
      × (inframe P between j secondary io2 ≡ some (pos wkc, direct, io2))
      × (stack_of secondary direct ≡ some final)
      × (let payload = get_or p.txbuflength j 0 - 14 in
          take payload (get_or final.rxbuf j []) ≡ take payload (drop 14 pkt.bytes))
unfolding with_frame
reordered P secondary p st h i j pkt io io1 io2 chosen o w l mutex b d waits free e k =
    let lens = p.txbuflength in
    let n = pkt.len in
    let temp = over pkt.bytes st.tempbuf n in
    let st1 : Stack = record st { tempbuf = temp } in
    let (w1, type, index, fit, f, size) = arrived lens j pkt st b w k in
    let read = recvpkt_reply P secondary p st chosen h lens j pkt io io1 o e k in
    let self = dispatch_self lens l st1 w1 j n b waits type index fit f in
    let other = dispatch_other lens l st1 w1 j n b waits type index fit f i d in
    let later = collect_kept lens l st1 w1 j n b waits type index fit f in
    let middle = with_frame j buf_rcvd lens st1 in
    let wkc = kept_wkc lens l st1 w1 j n b waits type index fit f in
    let between : Port = record (with_stack secondary middle p) { tempinbufs = n } in
    (
      wkc,
      record (with_stack secondary (with_frame j buf_complete lens st1) p) { tempinbufs = n },
      between,
      with_frame j buf_complete lens st1,
      inframe_read P secondary p st chosen j n io io1 temp _ _ mutex (λ q. ground arith) read self,
      inframe_read P secondary p st chosen i n io io1 temp _ _ mutex free read other,
      inframe_kept P secondary between middle (stack_of-with_stack secondary p middle n) j io2 _ _ b
            (get_or-set_self st.rxbufstat j buf_rcvd 0 (omega (arith, w.states))) later
          ∙ ap (λ q. some (pos wkc, q, io2))
              (with_stack_twice secondary p middle (with_frame j buf_complete lens st1) n),
      stack_of-with_stack secondary p (with_frame j buf_complete lens st1) n,
      ap (take (get_or lens j 0 - 14)) (
            get_or-set_self st.rxbuf j (copied temp (get_or lens j 0) (get_or st.rxbuf j [])) []
              (omega (arith, w.buffers)))
          ∙ take-copied pkt.bytes st.tempbuf (get_or st.rxbuf j []) (get_or lens j 0) n
              (omega (arith, (w.sent j waits).0)) k.sent k.whole,
    )
