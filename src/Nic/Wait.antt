-- ===== src/Nic/Wait.antt =====
-- The blocking receive functions of nicdrv.c. The loops take fuel: a number of rounds. The second
-- MAC word of a received frame tells which socket it was sent from.
pub mod Live
pub mod Sending
pub mod Loops
pub mod Copies
pub mod Laws
pub mod Confirm
pub mod Answered
pub mod Held
pub mod Stored
pub mod Interleaved
use servo_assistant.Base.{
  ℕ, zero, suc, ◌+◌, ◌-◌, ℤ, pos, is_negative, Bool, true, false, ◌&&◌, ◌||◌, Option, none, some,
  List, ◌++◌, set, get_elem?, length, take, drop, ltb, ◌==◌, if◌then◌else◌, ◌>>=◌,
}
use servo_assistant.Nic.{Port}
use servo_assistant.Nic.Pcap.{Pcap, Osal}
use servo_assistant.Nic.Frames.{no_frame, stack_of, outframe, outframe_red, inframe}

-- EC_TIMEOUTRET
abbrev pub timeout_ret : ℕ
timeout_ret = 2000

-- RX_PRIM and RX_SEC
abbrev pub rx_prim : ℕ
rx_prim = 0x0101

abbrev pub rx_sec : ℕ
rx_sec = 0x0404

-- `memcpy(dst, src, txbuflength - ETH_HEADERSIZE)`
unfoldable pub copy_part : ℕ → List ℕ → List ℕ → Option (List ℕ)
copy_part n src dst =
    if ltb n 14 || ltb (length src) (n - 14) || ltb (length dst) (n - 14)
    then none
    else some (take (n - 14) src ++ drop (n - 14) dst)

-- The secondary receive buffer of an index is copied to the primary one.
unfoldable pub take_secondary : ℕ → Port → Option Port
take_secondary idx p = do
  red ← p.red
  n ← get_elem? p.txbuflength idx
  src ← get_elem? red.rxbuf idx
  dst ← get_elem? p.prim.rxbuf idx
  buf ← copy_part n src dst
  some (record p { prim = record p.prim { rxbuf = set p.prim.rxbuf idx buf } })

-- The primary receive buffer of an index is copied to its transmit buffer.
unfoldable pub primary_to_tx : ℕ → Port → Option Port
primary_to_tx idx p = do
  n ← get_elem? p.txbuflength idx
  src ← get_elem? p.prim.rxbuf idx
  dst ← get_elem? p.txbuf idx
  buf ← copy_part n src (drop 14 dst)
  some (record p { txbuf = set p.txbuf idx (take 14 dst ++ buf) })

-- `primrx` and `secrx`: the source of a frame that has arrived, else 0.
unfoldable pub source_of : ℤ → List ℕ → ℕ → Option ℕ
source_of wkc rxsa idx = if is_negative wkc then some 0 else get_elem? rxsa idx

-- Each frame came back on the other socket.
unfoldable pub is_crossed : ℕ → ℕ → Bool
is_crossed primrx secrx = primrx == rx_sec && secrx == rx_prim

-- The frame of the secondary socket came back to it.
unfoldable pub is_broken : ℕ → ℕ → Bool
is_broken primrx secrx = (primrx == 0 && secrx == rx_sec) || (primrx == rx_prim && secrx == rx_sec)

module _ {I : Type 0} (P : Pcap I) (O : Osal I) where
  -- A stack is only read if its frame is not already in.
  unfoldable pub read_side : Bool → ℕ → ℤ → Port → I → Option (ℤ × Port × I)
  read_side secondary idx wkc p i =
      if is_negative wkc then inframe P p idx secondary i else some (wkc, p, i)

  unfoldable pub read_second : ℕ → ℤ → Port → I → Option (ℤ × Port × I)
  read_second idx wkc2 p i =
      if p.redstate == 0 then some (wkc2, p, i) else read_side true idx wkc2 p i

  -- `do { … } while (…)` of `ecx_waitinframe_red`
  unfoldable pub wait_both : ℕ → ℕ → ℕ → ℤ → ℤ → Port → I → Option (ℤ × ℤ × Port × I)
  wait_both zero timer idx wkc wkc2 p i = none
  wait_both (suc fuel) timer idx wkc wkc2 p i = do
    (w1, p1, i1) ← read_side false idx wkc p i
    (w2, p2, i2) ← read_second idx wkc2 p1 i1
    let (expired, i3) = O.timer_is_expired timer i2
    let rest = wait_both fuel timer idx w1 w2 p2 i3
    if is_negative w1 || is_negative w2
        then (if expired then some (w1, w2, p2, i3) else rest)
        else some (w1, w2, p2, i2)

  -- The loop after a frame was sent again.
  unfoldable pub wait_second : ℕ → ℕ → ℕ → Port → I → Option (ℤ × Port × I)
  wait_second zero timer idx p i = none
  wait_second (suc fuel) timer idx p i = do
    (w, p1, i1) ← inframe P p idx true i
    let (expired, i2) = O.timer_is_expired timer i1
    let rest = wait_second fuel timer idx p1 i2
    if is_negative w then (if expired then some (w, p1, i2) else rest) else some (w, p1, i1)

  -- The frame is sent through the second socket, and its answer taken for the result.
  unfoldable pub resend : ℕ → ℕ → ℤ → Port → I → Option (ℤ × Port × I)
  resend fuel idx wkc p i = do
    let (timer2, i1) = O.timer_start timeout_ret i
    (rval, p1, i2) ← outframe P p idx true i1
    (wkc2, p2, i3) ← wait_second fuel timer2 idx p1 i2
    if is_negative wkc2
        then some (wkc, p2, i3)
        else (do p3 ← take_secondary idx p2; some (wkc2, p3, i3))

  -- The decision tree of the redundant mode.
  unfoldable pub redundancy : ℕ → ℕ → ℤ → ℤ → Port → I → Option (ℤ × Port × I)
  redundancy fuel idx wkc wkc2 p i = do
    primrx ← source_of wkc p.prim.rxsa idx
    red ← stack_of true p
    secrx ← source_of wkc2 red.rxsa idx
    if is_crossed primrx secrx
        then (do p1 ← take_secondary idx p; some (wkc2, p1, i))
        else if is_broken primrx secrx
        then (do
          p1 ← if primrx == rx_prim && secrx == rx_sec then primary_to_tx idx p else some p
          resend fuel idx wkc p1 i)
        else some (wkc, p, i)

  -- `ecx_waitinframe_red`
  unfoldable pub waitinframe_red : ℕ → ℕ → ℕ → Port → I → Option (ℤ × Port × I)
  waitinframe_red fuel idx timer p i = do
    (wkc, wkc2, p1, i1) ←
        wait_both fuel timer idx no_frame (if p.redstate == 0 then pos 0 else no_frame) p i
    if p1.redstate == 0 then some (wkc, p1, i1) else redundancy fuel idx wkc wkc2 p1 i1

  -- `ecx_waitinframe`
  unfoldable pub waitinframe : ℕ → ℕ → ℕ → Port → I → Option (ℤ × Port × I)
  waitinframe fuel idx timeout p i =
      let (timer, i1) = O.timer_start timeout i in waitinframe_red fuel idx timer p i1

  -- `do { … } while (…)` of `ecx_srconfirm`, with fuel for it and for the loops inside
  unfoldable pub confirm : ℕ → ℕ → ℕ → ℕ → ℕ → Port → I → Option (ℤ × Port × I)
  confirm zero fuel timer1 idx timeout p i = none
  confirm (suc k) fuel timer1 idx timeout p i = do
    (rval, p1, i1) ← outframe_red P p idx i
    let (timer2, i2) = O.timer_start (if ltb timeout timeout_ret then timeout else timeout_ret) i1
    (wkc, p2, i3) ← waitinframe_red fuel idx timer2 p1 i2
    let (expired, i4) = O.timer_is_expired timer1 i3
    let rest = confirm k fuel timer1 idx timeout p2 i4
    if is_negative wkc then (if expired then some (wkc, p2, i4) else rest) else some (wkc, p2, i3)

  -- `ecx_srconfirm`
  unfoldable pub srconfirm : ℕ → ℕ → ℕ → Port → I → Option (ℤ × Port × I)
  srconfirm fuel idx timeout p i =
      let (timer1, i1) = O.timer_start timeout i in confirm fuel fuel timer1 idx timeout p i1
