-- ===== src/Nic/Frames/Kept.antt =====
-- A received frame that is kept for its index, and taken from there.
use servo_assistant.Base.{
  ℕ, ◌+◌, ◌^◌, ◌≤◌, ◌<◌, ◌≡◌, ◌≢◌, ◌∙◌, inr, refl, ap, ℤ, pos, Bool, true, false, ◌||◌, ◌&&◌, some,
  List, [], length, get_or, take, drop, ltb, leb, ◌==◌, eq→==, arith, length-take, set-set,
  get_or-append_left, get_or-take, lt→ltb, le→ltb,
}
use servo_assistant.Bridge.Npcap.{Packet}
use servo_assistant.Nic.{Stack, Port, max_buf, buf_size, buf_tx, buf_rcvd, buf_complete, enter-true}
use servo_assistant.Nic.Pcap.{Pcap}
use servo_assistant.Nic.Invariant.{byte_at, ecat_length, IsSendable, IsStack, set_status-IsStack}
use servo_assistant.Nic.Frames.{
  other_frame, stack_of, socket_of, with_stack, is_ethercat, frame_length, frame_index, is_unfit,
  dispatch, collect, recvpkt, wkc_at, inframe,
}
use servo_assistant.Nic.Frames.Bounds.{
  copied, length-copied, ecat_length-copied, wkc_of, wkc_at-some, with_frame, store-IsStack,
  with_frame_buffer,
}
use servo_assistant.Nic.Frames.Receive.{
  with_stack_twice, stack_of-with_stack, dispatch_lengths, over, length-over,
}

-- A packet that answers the frame of an index: an EtherCAT frame of that index, whole, no shorter
-- than what was sent, whose datagrams end inside it.
pub record IsReply (lens : List ℕ) (j : ℕ) (pkt : Packet) : Type 0 where
  pub whole : pkt.len ≤ length pkt.bytes
  pub minimal : 18 ≤ pkt.len
  pub maximal : pkt.len ≤ buf_size
  pub type_high : byte_at pkt.bytes 12 ≡ 0x88
  pub type_low : byte_at pkt.bytes 13 ≡ 0xa4
  pub index : byte_at pkt.bytes 17 ≡ j
  pub datagrams : frame_length pkt.bytes + 16 ≤ pkt.len
  pub sent : get_or lens j 0 ≤ pkt.len

over_byte :
    (new old : List ℕ) (n k : ℕ)
    → n ≤ length new
    → k < n
    → get_or (over new old n) k 0 ≡ get_or new k 0
over_byte new old n k a b =
    get_or-append_left (take n new) (drop n old) k 0 (omega (arith, length-take n new))
    ∙ get_or-take n new k 0 b

-- A frame for another index that is waited for is kept for it.
module _ (lens : List ℕ) (l : length lens ≡ max_buf) (st : Stack) (w : IsStack lens st) (j n : ℕ)
    (b : j < max_buf) (waits : get_or st.rxbufstat j 0 ≡ buf_tx)
    (type : is_ethercat st.tempbuf ≡ true) (index : frame_index st.tempbuf ≡ j)
    (fit : is_unfit lens st.tempbuf n ≡ false) (f : frame_length st.tempbuf + 2 ≤ buf_size) where
  unfoldable pub kept : List ℕ
  kept = copied st.tempbuf (get_or lens j 0) (get_or st.rxbuf j [])

  unfoldable pub kept_wkc : ℕ
  kept_wkc = wkc_of (frame_length st.tempbuf) kept

  sendable : IsSendable (get_or lens j 0)
  sendable = w.sent j waits

  pub length-kept : length kept ≡ buf_size
  unfolding kept
  length-kept =
      length-copied st.tempbuf (get_or st.rxbuf j []) (get_or lens j 0) w.temp (w.each j b).0
        sendable

  pub kept_counter : wkc_at (ecat_length kept) kept ≡ some (pos kept_wkc)
  unfolding kept kept_wkc
  kept_counter =
      let same : ecat_length kept ≡ frame_length st.tempbuf =
        ecat_length-copied st.tempbuf (get_or st.rxbuf j []) (get_or lens j 0) w.temp sendable in
      rw same (wkc_at-some (frame_length st.tempbuf) kept (omega (arith, length-kept)))

  pub dispatch_self : dispatch j lens n st ≡ some (pos kept_wkc, with_frame j buf_complete lens st)
  unfolding dispatch kept kept_wkc
  dispatch_self =
      let (e, x) = store-IsStack lens st w j buf_complete l b sendable f in
      let z = wkc_at-some (frame_length st.tempbuf) kept (omega (arith, length-kept)) in
      rw (
        dispatch,
        type,
        fit,
        index,
        eq→== j j refl,
        e,
        with_frame_buffer lens st w j buf_complete b,
        z,
      )

  pub dispatch_other :
      (i : ℕ) → i ≢ j → dispatch i lens n st ≡ some (other_frame, with_frame j buf_rcvd lens st)
  unfolding dispatch
  dispatch_other i d =
      let (e, x) = store-IsStack lens st w j buf_rcvd l b sendable f in
      let differs : (j == i) ≡ false = ground arith in
      let sent : (get_or st.rxbufstat j 0 == buf_tx) ≡ true = ground arith in
      rw (dispatch, type, fit, index, differs, sent, e)

  pub collect_kept :
      collect j (with_frame j buf_rcvd lens st)
      ≡ some (pos kept_wkc, with_frame j buf_complete lens st)
  unfolding collect kept kept_wkc with_frame
  collect_kept =
      let (e, x) = store-IsStack lens st w j buf_rcvd l b sendable f in
      let (g, y) =
        set_status-IsStack lens (with_frame j buf_rcvd lens st) j buf_complete x b (inr sendable) in
      rw (collect, with_frame_buffer lens st w j buf_rcvd b, kept_counter, g)
        (ap (λ s. some (pos kept_wkc, record (with_frame j buf_complete lens st) { rxbufstat = s }))
          (set-set st.rxbufstat j buf_rcvd buf_complete))

-- A call that reads a packet, and one that finds the frame of its index kept.
module _ {I : Type 0} (P : Pcap I) (secondary : Bool) (p : Port) (st : Stack)
    (chosen : stack_of secondary p ≡ some st) where
  pub recvpkt_reply :
      (h : ℕ) (lens : List ℕ) (j : ℕ) (pkt : Packet) (io io1 : I)
      → socket_of st ≡ some h
      → P.next_packet h io ≡ some (pos 1, pkt, io1)
      → IsReply lens j pkt
      → recvpkt P p secondary io
        ≡ some (
          true,
          record (with_stack secondary
              (record st { tempbuf = over pkt.bytes st.tempbuf pkt.len })
              p) { tempinbufs = pkt.len },
          io1,
        )
  unfolding recvpkt
  recvpkt_reply h lens j pkt io io1 o e k =
      let short : ltb buf_size pkt.len ≡ false = le→ltb buf_size pkt.len k.maximal in
      let whole : (leb (2 ^ 31) pkt.len || ltb (length pkt.bytes) pkt.len) ≡ false =
        ground (arith, k.whole, k.maximal) in
      rw (recvpkt, chosen, o, e, short, whole, lt→ltb 0 pkt.len (omega (arith, k.minimal)))

  pub inframe_read :
      (idx n : ℕ) (io io1 : I) (temp : List ℕ) (wkc : ℤ) (st2 : Stack)
      → p.rx_mutex ≡ true
      → get_or st.rxbufstat idx 0 ≢ buf_rcvd
      → recvpkt P p secondary io
        ≡ some (
          true,
          record (with_stack secondary (record st { tempbuf = temp }) p) { tempinbufs = n },
          io1,
        )
      → dispatch idx p.txbuflength n (record st { tempbuf = temp }) ≡ some (wkc, st2)
      → inframe P p idx secondary io
        ≡ some (wkc, record (with_stack secondary st2 p) { tempinbufs = n }, io1)
  unfolding inframe
  inframe_read idx n io io1 temp wkc st2 mutex d f g =
      let st1 : Stack = record st { tempbuf = temp } in
      let empty : (ltb idx max_buf && get_or st.rxbufstat idx 0 == buf_rcvd) ≡ false =
        ground arith in
      rw
        (
          inframe,
          chosen,
          empty,
          enter-true _ mutex,
          f,
          stack_of-with_stack secondary p st1 n,
          dispatch_lengths secondary p st1 idx n,
          g,
        )
        (ap (λ q. some (wkc, q, io1)) (with_stack_twice secondary p st1 st2 n))

  pub inframe_kept :
      (idx : ℕ) (io : I) (wkc : ℤ) (st2 : Stack)
      → idx < max_buf
      → get_or st.rxbufstat idx 0 ≡ buf_rcvd
      → collect idx st ≡ some (wkc, st2)
      → inframe P p idx secondary io ≡ some (wkc, with_stack secondary st2 p, io)
  unfolding inframe
  inframe_kept idx io wkc st2 b d g =
      let ready : (ltb idx max_buf && get_or st.rxbufstat idx 0 == buf_rcvd) ≡ true =
        ground arith in
      rw (inframe, chosen, ready, g)

-- What the headers of a reply say, read from the temporary buffer.
reply_header :
    (lens : List ℕ) (j : ℕ) (pkt : Packet) (old : List ℕ)
    → IsReply lens j pkt
    → (is_ethercat (over pkt.bytes old pkt.len) ≡ true)
      × (frame_index (over pkt.bytes old pkt.len) ≡ j)
      × (frame_length (over pkt.bytes old pkt.len) ≡ frame_length pkt.bytes)
unfolding is_ethercat frame_index frame_length
reply_header lens j pkt old k =
    let at : (m : ℕ) → m < 18 → get_or (over pkt.bytes old pkt.len) m 0 ≡ get_or pkt.bytes m 0 =
      λ m b. over_byte pkt.bytes old pkt.len m k.whole (omega (arith, k.minimal)) in
    (
      rw (at 12 (omega arith), at 13 (omega arith), k.type_high, k.type_low),
      rw (at 17 (omega arith), k.index),
      rw (at 14 (omega arith), at 15 (omega arith)),
    )

reply_fits :
    (lens temp : List ℕ) (j n : ℕ)
    → j < max_buf
    → frame_index temp ≡ j
    → frame_length temp + 16 ≤ n
    → n ≤ buf_size
    → get_or lens j 0 ≤ n
    → is_unfit lens temp n ≡ false
unfolding is_unfit
reply_fits lens temp j n b index d m s = rw (is_unfit, index) (ground arith)

-- A reply in the temporary buffer of a stack.
pub arrived :
    (lens : List ℕ) (j : ℕ) (pkt : Packet) (st : Stack)
    → j < max_buf
    → IsStack lens st
    → IsReply lens j pkt
    → (let temp = over pkt.bytes st.tempbuf pkt.len in
        IsStack lens (record st { tempbuf = temp })
        × (is_ethercat temp ≡ true)
        × (frame_index temp ≡ j)
        × (is_unfit lens temp pkt.len ≡ false)
        × (frame_length temp + 2 ≤ buf_size)
        × (frame_length temp ≡ frame_length pkt.bytes))
arrived lens j pkt st b w k =
    let temp = over pkt.bytes st.tempbuf pkt.len in
    let t = length-over pkt.bytes st.tempbuf pkt.len k.whole (omega (arith, w.temp, k.maximal)) in
    let (type, index, size) = reply_header lens j pkt st.tempbuf k in
    (
      record {
        temp = t ∙ w.temp;
        buffers = w.buffers;
        states = w.states;
        sources = w.sources;
        each = w.each;
        sent = w.sent;
      },
      type,
      index,
      reply_fits lens temp j pkt.len b index (omega (arith, size, k.datagrams)) k.maximal k.sent,
      omega (arith, size, k.datagrams, k.maximal),
      size,
    )
