-- ===== src/Nic/Wait/Interleaved.antt =====
-- Calls for several indexes, in any order: a reply that arrives while others are served is kept until
-- it is asked for.
mod Tests
use servo_assistant.Base.{
  ℕ, ◌+◌, ◌≤◌, get_or-take, zero, suc, ◌-◌, ◌<◌, ◌≡◌, ◌≢◌, ◌∙◌, refl, sym, ap, ℤ, pos, Bool, true,
  false, Option, none, some, List, [], ◌∷◌, length, get_or, get_elem?, set, take, drop, ltb, lt→ltb,
  arith, get_or-set_self, Gives, Gives-some, Gives-if, Gives-step, Gives-bind, if◌then◌else◌, ◌==◌,
}
use mathlib.Core.Path.{subst}
use servo_assistant.Bridge.Npcap.{Packet}
use servo_assistant.Nic.{
  Stack, Port, max_buf, buf_tx, buf_rcvd, buf_complete, set_status, setbufstat, buf_alloc,
  find_index, next_index, getindex, Gives-enter,
}
use servo_assistant.Nic.Pcap.{Pcap, Osal}
use servo_assistant.Nic.Invariant.{IsStack, ecat_length}
use servo_assistant.Nic.Frames.{
  stack_of, socket_of, with_stack, wkc_at, frame_length, collect, outframe, outframe_red, inframe,
}
use servo_assistant.Nic.Frames.Bounds.{copied, wkc_of, with_frame}
use servo_assistant.Nic.Frames.Receive.{over}
use servo_assistant.Nic.Frames.Kept.{
  IsReply, kept_wkc, kept, length-kept, kept_counter, dispatch_other, collect_kept, recvpkt_reply,
  inframe_read, inframe_kept, arrived,
}
use servo_assistant.Nic.Frames.Order.{take-copied}
use servo_assistant.Nic.Wait.{waitinframe, srconfirm}
use servo_assistant.Nic.Wait.Held.{waitinframe-Holds, srconfirm-Holds}
use servo_assistant.Nic.Wait.Stored.{IsStored, set_status-IsStored, stored-IsHeld}

-- Calls for other indexes than `j`, in any order, each of which returns; and frames that the caller
-- puts in the transmit buffers.
pub data Others {I : Type 0} (P : Pcap I) (O : Osal I) (j : ℕ) (p : Port) (i : I)
    : Port → I → Type 0 where
  no_more : Others P O j p i p i
  fills :
      {q : Port} {k : I} (frames : List (List ℕ)) (lengths : List ℕ)
      → Others P O j p i q k
      → Others P O j p i (record q { txbuf = frames; txbuflength = lengths }) k
  takes_index :
      {q q1 : Port} {k : I} {idx : ℕ}
      → Others P O j p i q k
      → idx ≢ j
      → getindex q ≡ some (idx, q1)
      → Others P O j p i q1 k
  sets_status :
      {q q1 : Port} {k : I} (idx s : ℕ)
      → Others P O j p i q k
      → idx ≢ j
      → setbufstat idx s q ≡ some q1
      → Others P O j p i q1 k
  sends :
      {q q1 : Port} {k k1 : I} {v : ℤ} (idx : ℕ) (secondary : Bool)
      → Others P O j p i q k
      → idx ≢ j
      → outframe P q idx secondary k ≡ some (v, q1, k1)
      → Others P O j p i q1 k1
  sends_both :
      {q q1 : Port} {k k1 : I} {v : ℤ} (idx : ℕ)
      → Others P O j p i q k
      → idx ≢ j
      → outframe_red P q idx k ≡ some (v, q1, k1)
      → Others P O j p i q1 k1
  polls :
      {q q1 : Port} {k k1 : I} {v : ℤ} (idx : ℕ) (secondary : Bool)
      → Others P O j p i q k
      → idx ≢ j
      → inframe P q idx secondary k ≡ some (v, q1, k1)
      → Others P O j p i q1 k1
  waits :
      {q q1 : Port} {k k1 : I} {v : ℤ} (fuel idx timeout : ℕ)
      → Others P O j p i q k
      → idx ≢ j
      → waitinframe P O fuel idx timeout q k ≡ some (v, q1, k1)
      → Others P O j p i q1 k1
  confirms :
      {q q1 : Port} {k k1 : I} {v : ℤ} (fuel idx timeout : ℕ)
      → Others P O j p i q k
      → idx ≢ j
      → srconfirm P O fuel idx timeout q k ≡ some (v, q1, k1)
      → Others P O j p i q1 k1

-- What stands in a list is inside it, unless it is the default.
get_elem?-get_or {ℓ} :
    {A : Type ℓ} (xs : List A) (j : ℕ) (v d : A)
    → get_or xs j d ≡ v
    → v ≢ d
    → (get_elem? xs j ≡ some v) × (j < length xs)
get_elem?-get_or [] j v d e n = absurd (n (sym e))
get_elem?-get_or (x ∷ xs) zero v d e n = (ap some e, omega arith)
get_elem?-get_or (x ∷ xs) (suc j) v d e n =
    let (at, inside) = get_elem?-get_or xs j v d e n in (at, omega arith)

module _ {I : Type 0} (P : Pcap I) (O : Osal I) (j : ℕ) (bytes : List ℕ) where
  setbufstat-IsStored :
      (idx s : ℕ) (q : Port)
      → idx ≢ j
      → IsStored j bytes q.prim
      → Gives (λ q1. IsStored j bytes q1.prim) (setbufstat idx s q)
  unfolding setbufstat
  setbufstat-IsStored idx s q d h =
      Gives-bind (set_status idx s q.prim) _ (set_status-IsStored j bytes idx s q.prim d h)
        λ prim h1.
          Gives-if (q.redstate == 0) _ _ (Gives-some _ h1)
            (Gives-step q.red _ λ red. Gives-step (set_status idx s red) _ λ red1. Gives-some _ h1)

  getindex-IsStored :
      (q : Port)
      → IsStored j bytes q.prim
      → Gives (λ x. x.0 ≢ j → IsStored j bytes x.1.prim) (getindex q)
  unfolding getindex
  getindex-IsStored q h =
      let idx = find_index max_buf q.prim.rxbufstat (next_index q.lastidx) in
      let given : Gives (λ q1. idx ≢ j → IsStored j bytes q1.prim) (setbufstat idx buf_alloc q) =
        record { at = λ q1 e d. (setbufstat-IsStored idx buf_alloc q d h).at q1 e } in
      Gives-enter q.getindex_mutex _
        (Gives-bind (setbufstat idx buf_alloc q) _ given λ q1 h1. Gives-some _ h1)

  Others-IsStored :
      {p : Port} {i : I} {q : Port} {k : I}
      → Others P O j p i q k
      → IsStored j bytes p.prim
      → IsStored j bytes q.prim
  Others-IsStored no_more h = h
  Others-IsStored (fills frames lengths o) h = Others-IsStored o h
  Others-IsStored (takes_index {q = q} {q1 = q1} {idx = idx} o d e) h =
      (getindex-IsStored q (Others-IsStored o h)).at _ e d
  Others-IsStored (sets_status {q = q} {q1 = q1} idx s o d e) h =
      (setbufstat-IsStored idx s q d (Others-IsStored o h)).at _ e
  Others-IsStored (sends {q = q} {k = k} idx secondary o d e) h =
      ((stored-IsHeld P O j bytes idx d).sends q secondary k (Others-IsStored o h)).at _ e
  Others-IsStored (sends_both {q = q} {k = k} idx o d e) h =
      ((stored-IsHeld P O j bytes idx d).sends_both q k (Others-IsStored o h)).at _ e
  Others-IsStored (polls {q = q} {k = k} idx secondary o d e) h =
      ((stored-IsHeld P O j bytes idx d).reads q secondary k (Others-IsStored o h)).at _ e
  Others-IsStored (waits {q = q} {k = k} fuel idx timeout o d e) h =
      (waitinframe-Holds P O idx _ (stored-IsHeld P O j bytes idx d) fuel timeout q k
          (Others-IsStored o h)).at
        _ e
  Others-IsStored (confirms {q = q} {k = k} fuel idx timeout o d e) h =
      (srconfirm-Holds P O idx _ (stored-IsHeld P O j bytes idx d) fuel timeout q k
          (Others-IsStored o h)).at
        _ e

  -- A stored reply is given to its index, and its bytes stay in the buffer.
  collected :
      (q : Port) (k : I) (wkc : ℤ)
      → j < max_buf
      → IsStored j bytes q.prim
      → bytes ≢ []
      → wkc_at (ecat_length bytes) bytes ≡ some wkc
      → (q1 : Port) × (inframe P q j false k ≡ some (wkc, q1, k))
        × (get_or q1.prim.rxbuf j [] ≡ bytes)
  unfolding collect set_status stack_of with_stack
  collected q k wkc b h n e =
      let (at, inside) = get_elem?-get_or q.prim.rxbuf j bytes [] h.buffer n in
      let (state, room) =
        get_elem?-get_or q.prim.rxbufstat j buf_rcvd 0 h.status (λ z. absurd (omega arith)) in
      let st = record q.prim { rxbufstat = set q.prim.rxbufstat j buf_complete } in
      let taken : collect j q.prim ≡ some (wkc, st) =
        rw (collect, at, e, set_status, lt→ltb _ _ room) in
      (
        with_stack false st q,
        inframe_kept P false q q.prim refl j k wkc st b h.status taken,
        h.buffer,
      )

-- Bytes that agree up to behind a work counter have the same one.
same_counter :
    (n m : ℕ) (xs ys : List ℕ) → m + 2 ≤ n → take n xs ≡ take n ys → wkc_of m xs ≡ wkc_of m ys
same_counter n m xs ys b e =
    let byte : (k : ℕ) → k < n → get_or xs k 0 ≡ get_or ys k 0 =
      λ k c. sym (get_or-take n xs k 0 c) ∙ ap (λ t. get_or t k 0) e ∙ get_or-take n ys k 0 c in
    rw (byte m (omega arith), byte (m + 1) (omega arith)) refl

abbrev Holding : {I : Type 0} (j : ℕ) (bytes : List ℕ) → Option (ℤ × Port × I) → Type 0
Holding j bytes none = ⊥
Holding j bytes (some (v, q, i)) = IsStored j bytes q.prim

module _ {I : Type 0} (P : Pcap I) (O : Osal I) where
  -- A reply that arrives while another index is served is kept for its own. Let the stack wait for
  -- the frame of index `j`, let a call for another index read the reply to it, whose datagrams end
  -- inside of what was sent, and let then any calls be made for other indexes, in any order, whatever
  -- they receive. When `j` is asked for, the call returns the work counter of the reply, which stands
  -- where the reply's length says, without a look at the socket, and its buffer holds the bytes of
  -- the reply behind the Ethernet header, as many as were sent.
  pub interleaved_lem :
      (h idx j : ℕ) (p : Port) (pkt : Packet) (io io1 io2 io3 : I) {between q : Port} {v : ℤ}
      → socket_of p.prim ≡ some h
      → IsStack p.txbuflength p.prim
      → length p.txbuflength ≡ max_buf
      → p.rx_mutex ≡ true
      → j < max_buf
      → idx ≢ j
      → get_or p.prim.rxbufstat j 0 ≡ buf_tx
      → get_or p.prim.rxbufstat idx 0 ≢ buf_rcvd
      → P.next_packet h io ≡ some (pos 1, pkt, io1)
      → IsReply p.txbuflength j pkt
      → frame_length pkt.bytes + 16 ≤ get_or p.txbuflength j 0
      → inframe P p idx false io ≡ some (v, between, io1)
      → Others P O j between io1 q io2
      → (q1 : Port) × (inframe P q j false io3
          ≡ some (pos (wkc_of (frame_length pkt.bytes) (drop 14 pkt.bytes)), q1, io3))
        × (let payload = get_or p.txbuflength j 0 - 14 in
            take payload (get_or q1.prim.rxbuf j []) ≡ take payload (drop 14 pkt.bytes))
  unfolding with_frame with_stack stack_of kept kept_wkc
  interleaved_lem h idx j p pkt io io1 io2 io3 {between} {q} o w l mutex b d awaited free e k ends f
        others =
      let lens = p.txbuflength in
      let n = pkt.len in
      let st = p.prim in
      let temp = over pkt.bytes st.tempbuf n in
      let st1 : Stack = record st { tempbuf = temp } in
      let (w1, type, index, fit, g, same) = arrived lens j pkt st b w k in
      let read = recvpkt_reply P false p st refl h lens j pkt io io1 o e k in
      let other = dispatch_other lens l st1 w1 j n b awaited type index fit g idx d in
      let middle = with_frame j buf_rcvd lens st1 in
      let seen = inframe_read P false p st refl idx n io io1 temp _ _ mutex free read other in
      let old = get_or st.rxbuf j [] in
      let bytes = copied temp (get_or lens j 0) old in
      let size = length-kept lens l st1 w1 j n b awaited type index fit g in
      let counter = kept_counter lens l st1 w1 j n b awaited type index fit g in
      let stored : IsStored j bytes middle = record {
        status = get_or-set_self st.rxbufstat j buf_rcvd 0 (omega (arith, w.states));
        buffer = get_or-set_self st.rxbuf j bytes [] (omega (arith, w.buffers));
      } in
      let there : IsStored j bytes between.prim = subst (Holding j bytes) (sym seen ∙ f) stored in
      let filled : bytes ≢ [] = λ z. omega (arith, size, ap (λ (t : List ℕ). length t) z) in
      let (q1, asked, left) =
        collected P O j bytes q io3 _ b (Others-IsStored P O j bytes others there) filled counter in
      let sent = get_or lens j 0 in
      let payload : take (sent - 14) bytes ≡ take (sent - 14) (drop 14 pkt.bytes) =
        take-copied pkt.bytes st.tempbuf old sent n (omega (arith, (w.sent j awaited).0)) k.sent
          k.whole in
      let m = frame_length pkt.bytes in
      let told : kept_wkc lens l st1 w1 j n b awaited type index fit g
          ≡ wkc_of m (drop 14 pkt.bytes) =
        rw same (same_counter (sent - 14) m bytes (drop 14 pkt.bytes) (omega arith) payload) in
      (q1, asked ∙ ap (λ (x : ℕ). some (pos x, q1, io3)) told, ap (take (sent - 14)) left ∙ payload)
