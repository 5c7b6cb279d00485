-- ===== src/Coe/Upload.antt =====
-- `ecx_SDOread` of ethercatcoe.c: an SDO upload, expedited, normal or in segments.
pub mod Bounds
pub mod Served
pub mod Delivery
use servo_assistant.Base.{
  ℕ, zero, suc, ◌+◌, ◌-◌, ◌*◌, ◌/◌, ◌%◌, ◌^◌, ℤ, pos, is_positive, Bool, not, ◌||◌, ◌&&◌, Option,
  none, some, List, [], ◌++◌, ltb, leb, ◌==◌, if◌then◌else◌,
}
use servo_assistant.Coe.Mailbox.{Mailbox, sdo_error_report, next_count, max_mbx, timeout_txm}
use servo_assistant.Coe.Exchange.{exchange}
use servo_assistant.Coe.Layout.{
  mbx_length, command, sdo_index, sub_index, first_long, copy_from, is_sdo_response, sdo_abort,
  clear_mbx, upload_request,
}

-- What a call leaves: the work counter, `*psize`, and the bytes written to `p`, from its first on.
pub record Upload (I : Type 0) : Type 0 where
  pub wkc : ℤ
  pub size : ℕ
  pub bytes : List ℕ
  pub io : I

-- `(Command & 0x02) > 0`
abbrev pub is_expedited : List ℕ → Bool
is_expedited r = command r / 2 % 2 == 1

-- `4 - ((Command >> 2) & 0x03)`
abbrev pub expedited_size : List ℕ → ℕ
expedited_size r = 4 - command r / 4 % 4

-- `Command & 0x01`
abbrev pub is_last : List ℕ → Bool
is_last r = command r % 2 == 1

-- The size of the data of a segment; one of 7 bytes that is the last says how many are unused.
unfoldable pub segment_size : List ℕ → ℕ
segment_size r =
    let n = mbx_length r - 3 in if n == 7 && is_last r then n - command r / 2 % 8 else n

-- Length and toggle bit of a segment are sound. `toggle` is 0 or 1.
unfoldable pub is_good_segment : List ℕ → ℕ → Bool
is_good_segment r toggle =
    not (
      ltb (mbx_length r) 3
      || ltb (max_mbx - 6) (mbx_length r)
      || not (command r / 16 % 2 == toggle))

-- The data fits the caller's buffer and the size that was announced, and makes progress.
unfoldable pub fits : List ℕ → ℕ → ℕ → ℕ → Bool
fits r capacity total size = not (
    ltb (capacity - size) (segment_size r)
    || ltb (total - size) (segment_size r)
    || segment_size r == 0 && not (is_last r))

-- What a response to the request for a segment is: none at all, one that breaks the transfer off,
-- the last segment, or a segment that others follow.
pub data Segment : Type 0 where
  stray unsound final partial : Segment

unfoldable pub judge : List ℕ → ℕ → ℕ → ℕ → ℕ → Segment
judge r capacity total toggle size =
    if not (is_sdo_response r && command r / 32 % 8 == 0)
    then stray
    else if not (is_good_segment r toggle && fits r capacity total size)
    then unsound
    else if is_last r
    then final
    else partial

-- The data of a segment is appended to what is in `p`.
unfoldable pub grown : {I : Type 0} → Upload I → ℤ → List ℕ → I → Upload I
grown u wkc r i = record {
  wkc = wkc;
  size = u.size + segment_size r;
  bytes = u.bytes ++ copy_from r 9 (segment_size r);
  io = i;
}

-- The response to the first request is an SDO response to it.
unfoldable pub is_upload_response : List ℕ → ℕ → ℕ → Bool
is_upload_response r index sub =
    leb 10 (mbx_length r)
    && leb (mbx_length r) (max_mbx - 6)
    && is_sdo_response r
    && sdo_index r == index
    && sub_index r == sub
    && command r / 32 % 8 == 2

-- The announced size, as an `int32`, is not negative and fits the caller's buffer.
abbrev pub is_admissible : ℕ → ℕ → Bool
is_admissible capacity total = ltb total (2 ^ 31) && leb total capacity

-- The part of a normal response that came with it, where more follows in segments.
unfoldable pub begun : {I : Type 0} → ℤ → List ℕ → I → Upload I
begun wkc r i = record {
  wkc = wkc;
  size = mbx_length r - 10;
  bytes = copy_from r 16 (mbx_length r - 10);
  io = i;
}

-- `wkc = 0` where the bytes received are not as many as announced
abbrev pub checked : {I : Type 0} → ℕ → Upload I → Upload I
checked total u = if u.size == total then u else record u { wkc = pos 0 }

module _ {I : Type 0} (M : Mailbox I) (slave index sub : ℕ) where
  -- A response that is none to the request: an abort is passed on, anything else is reported.
  unfoldable pub unexpected : List ℕ → I → I
  unexpected r i =
      if command r == sdo_abort
      then sdo_error_report M slave index sub (first_long r) i
      else M.packeterror slave index sub 1 i

  -- The request for the next segment, unless the transfer's time is over: then the work counter is
  -- 0, and nothing is sent.
  unfoldable pub poll : ℕ → ℕ → ℕ → I → ℤ × List ℕ × I
  poll timeout timer toggle i =
      let (expired, i0) = M.timer_is_expired timer i in
      let (cnt, i1) = next_count M slave i0 in
      if expired
      then (pos 0, clear_mbx, i0)
      else exchange M slave (upload_request cnt (0x60 + toggle * 16) index sub) timeout i1

  -- `while (NotLast)`, on fuel: `none` where the fuel ran out. `capacity` is the size of `p`,
  -- `total` the announced size.
  unfoldable pub segments : ℕ → ℕ → ℕ → ℕ → ℕ → ℕ → Upload I → Option (Upload I)
  segments zero capacity total timeout timer toggle u = none
  segments (suc fuel) capacity total timeout timer toggle u =
      let (wkc, r, i) = poll timeout timer toggle u.io in
      let more = segments fuel capacity total timeout timer (1 - toggle) (grown u wkc r i) in
      if is_positive wkc
      then elim (judge r capacity total toggle u.size) [
        | stray ↦ some (record u { wkc = pos 0; io = unexpected r i })
        | unsound ↦ some (record u { wkc = pos 0; io = i })
        | final ↦ some (grown u wkc r i)
        | partial ↦ more
      ]
      else some (record u { wkc = wkc; io = i })

  -- The answer to the first request, by its kind.
  unfoldable pub respond : ℕ → ℕ → ℕ → ℤ → List ℕ → I → Option (Upload I)
  respond capacity timeout timer wkc r i =
      let total = first_long r in
      let n = mbx_length r - 10 in
      let small = expedited_size r in
      let failed : I → Upload I =
        λ j. record { wkc = pos 0; size = capacity; bytes = []; io = j } in
      if not (is_upload_response r index sub)
      then some (failed (unexpected r i))
      else if is_expedited r
      then if leb small capacity
        then some (record { wkc = wkc; size = small; bytes = copy_from r 12 small; io = i })
        else some (failed (M.packeterror slave index sub 3 i))
      else if not (is_admissible capacity total)
      then some (failed (M.packeterror slave index sub 3 i))
      else if ltb n total
      then elim (segments (suc total) capacity total timeout timer 0 (begun wkc r i)) [
        | none ↦ none
        | some u ↦ some (checked total u)
      ]
      else some (record { wkc = wkc; size = total; bytes = copy_from r 16 total; io = i })

-- The subindex of a complete access is 0 or 1.
abbrev pub access_sub : Bool → ℕ → ℕ
access_sub ca sub = if ca && ltb 1 sub then 1 else sub

-- The first request and what comes back, after the slave's mailbox has been emptied.
unfoldable pub first_response : {I : Type 0} → Mailbox I → ℕ → ℕ → ℕ → Bool → ℕ → I → ℤ × List ℕ × I
first_response M slave index sub ca timeout i =
    let (pending, old, i1) = M.mbxreceive slave clear_mbx 0 i in
    let (cnt, i2) = next_count M slave i1 in
    exchange M slave (upload_request cnt (if ca then 0x50 else 0x40) index sub) timeout i2

-- `none` where the fuel of the loop ran out.
unfoldable pub sdo_read :
    {I : Type 0} → Mailbox I → ℕ → ℕ → ℕ → Bool → ℕ → ℕ → I → Option (Upload I)
sdo_read M slave index subindex ca capacity timeout i =
    let (timer, i0) = M.timer_start 2_000_000 i in
    let sub = access_sub ca subindex in
    let (wkc, r, i1) = first_response M slave index sub ca timeout i0 in
    if is_positive wkc
    then respond M slave index sub capacity timeout timer wkc r i1
    else some (record { wkc = wkc; size = capacity; bytes = []; io = i1 })
