-- ===== src/Nic/Frames.antt =====
-- Frames sent and received by nicdrv.c. `none` is an access outside a buffer, a null pointer, or an
-- entered critical section that is not initialised.
pub mod Bounds
pub mod Receive
pub mod Kept
pub mod Order
pub mod Stale
use servo_assistant.Base.{
  ℕ, ◌+◌, ◌-◌, ◌*◌, ◌%◌, ◌^◌, ℤ, pos, minus_one, minus_two, is_positive, is_minus_one, Bool, true,
  false, not, ◌&&◌, ◌||◌, Option, none, some, List, ◌++◌, set, get_or, get_elem?, length, take,
  drop, ltb, leb, ◌==◌, if◌then◌else◌, ◌>>=◌,
}
use servo_assistant.Bridge.Npcap.{Packet}
use servo_assistant.Nic.{
  Stack, Port, max_buf, buf_size, buf_empty, buf_tx, buf_rcvd, buf_complete, set_status, enter,
}
use servo_assistant.Nic.Pcap.{Pcap}
use servo_assistant.Nic.Invariant.{byte_at, ecat_length}

-- EC_NOFRAME and EC_OTHERFRAME
abbrev pub no_frame : ℤ
no_frame = minus_one

abbrev pub other_frame : ℤ
other_frame = minus_two

-- A stack of the port: of the second there may be none.
unfoldable pub stack_of : Bool → Port → Option Stack
stack_of secondary p = if secondary then p.red else some p.prim

-- `*stack->sock`
unfoldable pub socket_of : Stack → Option ℕ
socket_of st = st.sock

unfoldable pub with_stack : Bool → Stack → Port → Port
with_stack secondary st p = record p {
  prim = if secondary then p.prim else st;
  red = if secondary then some st else p.red;
}

-- `memcpy(rxbuf, &tempbuf[ETH_HEADERSIZE], txbuflength - ETH_HEADERSIZE)`
unfoldable pub copy_frame : List ℕ → ℕ → List ℕ → Option (List ℕ)
copy_frame temp n buf =
    if ltb n 14 || ltb (length temp) n || ltb (length buf) (n - 14)
    then none
    else some (take (n - 14) (drop 14 temp) ++ drop (n - 14) buf)

-- The work counter at a place of a receive buffer.
unfoldable pub wkc_at : ℕ → List ℕ → Option ℤ
wkc_at l buf = do
  lo ← get_elem? buf l
  hi ← get_elem? buf (l + 1)
  some (pos (lo % 256 + 256 * (hi % 256)))

-- The frame in `tempbuf`: `etype == htons(ETH_P_ECAT)`, `etohs(elength) & 0x0fff`, the index, and
-- `ntohs(sa1)`.
unfoldable pub is_ethercat : List ℕ → Bool
is_ethercat temp = byte_at temp 12 == 0x88 && byte_at temp 13 == 0xa4

unfoldable pub frame_length : List ℕ → ℕ
frame_length temp = (byte_at temp 14 + 256 * byte_at temp 15) % 2 ^ 12

unfoldable pub frame_index : List ℕ → ℕ
frame_index temp = byte_at temp 17

unfoldable pub frame_source : List ℕ → ℕ
frame_source temp = 256 * byte_at temp 8 + byte_at temp 9

-- A frame is put in the buffer of an index, whose state and source are set.
unfoldable pub store : ℕ → ℕ → List ℕ → Stack → Option Stack
store idx bufstat lens st = do
  n ← get_elem? lens idx
  old ← get_elem? st.rxbuf idx
  buf ← copy_frame st.tempbuf n old
  st1 ← set_status idx bufstat (record st { rxbuf = set st.rxbuf idx buf })
  if ltb idx (length st.rxsa)
      then some (record st1 { rxsa = set st.rxsa idx (frame_source st.tempbuf) })
      else none

-- The early return of `ecx_inframe`: an index or a length that does not fit.
unfoldable pub is_unfit : List ℕ → List ℕ → ℕ → Bool
is_unfit lens temp count =
    leb max_buf (frame_index temp)
    || ltb count (frame_length temp + 14 + 2)
    || ltb count (get_or lens (frame_index temp) 0)
    || ltb buf_size (frame_length temp + 2)

-- What `ecx_inframe` does with a frame of `count` bytes in `tempbuf`.
unfoldable pub dispatch : ℕ → List ℕ → ℕ → Stack → Option (ℤ × Stack)
dispatch idx lens count st =
    let temp = st.tempbuf in
    let idxf = frame_index temp in
    if not (is_ethercat temp) || is_unfit lens temp count
    then some (other_frame, st)
    else if idxf == idx
    then (do
      st1 ← store idx buf_complete lens st
      buf ← get_elem? st1.rxbuf idx
      wkc ← wkc_at (frame_length temp) buf
      some (wkc, st1))
    else if get_or st.rxbufstat idxf 0 == buf_tx
    then (do st1 ← store idxf buf_rcvd lens st; some (other_frame, st1))
    else some (other_frame, st)

-- The frame was in the buffer of its index already.
unfoldable pub collect : ℕ → Stack → Option (ℤ × Stack)
collect idx st = do
  buf ← get_elem? st.rxbuf idx
  wkc ← wkc_at (ecat_length buf) buf
  st1 ← set_status idx buf_complete st
  some (wkc, st1)

-- The transmission of `n` bytes from the start of a buffer.
unfoldable pub is_inside : ℕ → List ℕ → Bool
is_inside n buf = leb n (length buf)

module _ {I : Type 0} (P : Pcap I) where
  -- `ecx_outframe`
  unfoldable pub outframe : Port → ℕ → Bool → I → Option (ℤ × Port × I)
  outframe p idx secondary i = do
    st ← stack_of secondary p
    n ← get_elem? p.txbuflength idx
    st1 ← set_status idx buf_tx st
    buf ← get_elem? p.txbuf idx
    h ← socket_of st
    if is_inside n buf
        then (do
          let (rval, i1) = P.send_packet h (take n buf) n i
          st2 ← if is_minus_one rval then set_status idx buf_empty st1 else some st1
          some (rval, with_stack secondary st2 p, i1))
        else none

  -- The dummy frame that goes out on the second socket.
  unfoldable pub send_dummy : Port → ℕ → I → Option (Port × I)
  send_dummy p idx i = do
    let buf = set (set (set p.txbuf2 17 (idx % 256)) 8 4) 9 4
    red ← p.red
    st1 ← set_status idx buf_tx red
    h ← socket_of red
    if is_inside p.txbuflength2 buf
        then (do
          let (rval, i1) = P.send_packet h (take p.txbuflength2 buf) p.txbuflength2 i
          st2 ← if is_minus_one rval then set_status idx buf_empty st1 else some st1
          some (record p { red = some st2; txbuf2 = buf }, i1))
        else none

  -- `ecx_outframe_red`
  unfoldable pub outframe_red : Port → ℕ → I → Option (ℤ × Port × I)
  outframe_red p idx i = do
    buf ← get_elem? p.txbuf idx
    (rval, p1, i1) ←
        outframe (record p { txbuf = set p.txbuf idx (set (set buf 8 1) 9 1) }) idx false i
    if p1.redstate == 0
        then some (rval, p1, i1)
        else enter p1.tx_mutex (do (p2, i2) ← send_dummy p1 idx i1; some (rval, p2, i2))

  -- `ecx_recvpkt`. The length in a packet's header is converted to an `int`.
  unfoldable pub recvpkt : Port → Bool → I → Option (Bool × Port × I)
  recvpkt p secondary i = do
    st ← stack_of secondary p
    h ← socket_of st
    (res, pkt, i1) ← P.next_packet h i
    let n = if ltb buf_size pkt.len then buf_size else pkt.len
    if not (is_positive res)
        then some (false, record p { tempinbufs = 0 }, i1)
        else if leb (2 ^ 31) pkt.len || ltb (length pkt.bytes) n
        then none
        else some (
          ltb 0 n,
          record (with_stack secondary
              (record st { tempbuf = take n pkt.bytes ++ drop n st.tempbuf }) p) { tempinbufs = n },
          i1,
        )

  -- `ecx_inframe`
  unfoldable pub inframe : Port → ℕ → Bool → I → Option (ℤ × Port × I)
  inframe p idx secondary i = do
    st ← stack_of secondary p
    if ltb idx max_buf && get_or st.rxbufstat idx 0 == buf_rcvd
        then (do (wkc, st1) ← collect idx st; some (wkc, with_stack secondary st1 p, i))
        else enter p.rx_mutex (do
          (got, p1, i1) ← recvpkt p secondary i
          st1 ← stack_of secondary p1
          if got
              then (do
                (wkc, st2) ← dispatch idx p1.txbuflength p1.tempinbufs st1
                some (wkc, with_stack secondary st2 p1, i1))
              else some (no_frame, p1, i1))
