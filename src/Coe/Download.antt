-- ===== src/Coe/Download.antt =====
-- `ecx_SDOwrite` of ethercatcoe.c: an SDO download, expedited, normal or in segments. The parameter
-- buffer is the list of its `psize` bytes; `none` is a copy that leaves it or the mailbox buffer,
-- or fuel that ran out.
pub mod Requests
pub mod Segments
pub mod First
pub mod Delivery
pub mod Simulation
mod Tests
use servo_assistant.Base.{
  ℕ, zero, suc, ◌+◌, ◌-◌, ◌*◌, ◌/◌, ◌%◌, ◌^◌, ℤ, pos, is_positive, Bool, not, ◌||◌, ◌&&◌, Option,
  none, some, List, [], ◌∷◌, ◌++◌, ltb, leb, ◌==◌, if◌then◌else◌, length, take, drop, replicate,
}
use servo_assistant.Coe.Mailbox.{Mailbox, next_count, mbx_size}
use servo_assistant.Coe.Exchange.{exchange}
use servo_assistant.Coe.Layout.{
  command, sdo_index, sub_index, is_sdo_response, clear_mbx, request_header,
}
use servo_assistant.Coe.Upload.{unexpected, access_sub}

-- `memcpy` of `n` bytes of the parameter into the mailbox, behind what `before` has written: a
-- buffer with these bytes, then those that `buf` had there.
unfoldable pub with_data : List ℕ → List ℕ → ℕ → List ℕ → Option (List ℕ)
with_data before payload n buf =
    if leb n (length payload) && leb (length before + n) mbx_size
    then some (before ++ (take n payload ++ drop (length before + n) buf))
    else none

-- `framedatasize` for a parameter of `psize` bytes, where `mbx_l - 0x10` is `maxdata`: 16 bits of a
-- difference that may be negative.
unfoldable pub first_size : ℕ → ℕ → ℕ
first_size psize mailbox =
    let n = psize % 2 ^ 16 in
    if ltb (mailbox - 16) n || ltb mailbox 16 then (mailbox + 2 ^ 16 - 16) % 2 ^ 16 else n

-- Whether segments follow the first request.
unfoldable pub needs_segments : ℕ → ℕ → Bool
needs_segments psize mailbox = ltb (mailbox - 16) (psize % 2 ^ 16) || ltb mailbox 16

-- The header of a request with `size` bytes behind the mailbox header.
unfoldable pub download_header : ℕ → ℕ → ℕ → ℕ → ℕ → ℕ → List ℕ
download_header size cnt cmd index sub long =
    request_header size cnt
    ++ (cmd
        ∷ index % 256
        ∷ index / 256
        ∷ sub
        ∷ long % 256
        ∷ long / 256 % 256
        ∷ long / 65536 % 256
        ∷ long / 16_777_216 % 256
        ∷ [])

-- A small parameter is the long of the request itself.
unfoldable pub expedited_request : ℕ → ℕ → ℕ → List ℕ → Option (List ℕ)
expedited_request cnt index sub payload =
    let n = length payload in
    with_data
      (request_header 10 cnt ++ ((0x23 + (4 - n) % 4 * 4) ∷ index % 256 ∷ index / 256 ∷ sub ∷ []))
      payload n clear_mbx

-- The size of the segment for what is left, `room` bytes at most, and whether it is the last.
unfoldable pub chunk : ℕ → ℕ → ℕ × Bool
chunk room psize = let n = psize % 2 ^ 16 in (if ltb room n then room else n, not (ltb room n))

-- A last segment of less than 7 bytes is padded to 7, and its command counts the unused ones.
-- `buf` is the previous request, which is overwritten.
unfoldable pub segment_request : ℕ → ℕ → ℕ → Bool → List ℕ → List ℕ → Option (List ℕ)
segment_request cnt toggle n last payload buf =
    let padded = last && ltb n 7 in
    let cmd = if padded then 1 + (7 - n) * 2 else if last then 1 else 0 in
    with_data (request_header (if padded then 10 else n + 3) cnt ++ ((cmd + toggle * 16) ∷ []))
      payload n buf

-- The first response is an SDO response with the request's index and subindex.
unfoldable pub is_download_response : List ℕ → ℕ → ℕ → Bool
is_download_response r index sub = is_sdo_response r && sdo_index r == index && sub_index r == sub

-- `(Command & 0xe0) == 0x20`
unfoldable pub is_segment_response : List ℕ → Bool
is_segment_response r = is_sdo_response r && command r / 32 % 8 == 1

module _ {I : Type 0} (M : Mailbox I) (slave index sub timeout : ℕ) where
  -- `while (NotLast)`, on fuel, with `data` left to send. Only the last segment, or a response that
  -- is none, ends it: after a failed send or receive the next segment follows.
  unfoldable pub download_segments : ℕ → ℕ → ℕ → List ℕ → List ℕ → I → Option (ℤ × I)
  download_segments zero room toggle buf payload i = none
  download_segments (suc fuel) room toggle buf payload i =
      let (n, last) = chunk room (length payload) in
      let (cnt, i1) = next_count M slave i in
      elim (segment_request cnt toggle n last payload buf) [
        | none ↦ none
        | some request ↦
            (let (wkc, r, i2) = exchange M slave request timeout i1 in
              let more = download_segments fuel room (1 - toggle) request (drop n payload) i2 in
              if is_positive wkc && not (is_segment_response r)
              then some (pos 0, unexpected M slave index sub r i2)
              else if last
              then some (wkc, i2)
              else more)
      ]

  -- What follows the first request: `rest` goes on where its response is one to it.
  unfoldable pub acknowledged : ℕ → ℤ → List ℕ → I → Option (ℤ × I) → Option (ℤ × I)
  acknowledged request_sub wkc r i rest =
      if not (is_positive wkc)
      then some (wkc, i)
      else if is_download_response r index request_sub
      then rest
      else some (pos 0, unexpected M slave index sub r i)

  unfoldable pub write_small : List ℕ → I → Option (ℤ × I)
  write_small payload i =
      let (cnt, i1) = next_count M slave i in
      elim (expedited_request cnt index sub payload) [
        | none ↦ none
        | some request ↦
            (let (wkc, r, i2) = exchange M slave request timeout i1 in
              acknowledged sub wkc r i2 (some (wkc, i2)))
      ]

  unfoldable pub write_large : Bool → List ℕ → I → Option (ℤ × I)
  write_large ca payload i =
      let mailbox = M.mbx_l slave i in
      let n = first_size (length payload) mailbox in
      let (cnt, i1) = next_count M slave i in
      let header =
        download_header ((10 + n) % 2 ^ 16) cnt (if ca then 0x31 else 0x21) index
          (access_sub ca sub) (length payload) in
      elim (with_data header payload n clear_mbx) [
        | none ↦ none
        | some request ↦
            (let (wkc, r, i2) = exchange M slave request timeout i1 in
              acknowledged (access_sub ca sub) wkc r i2 (
                if needs_segments (length payload) mailbox
                then download_segments (suc (length payload)) (mailbox - 9) 0 request
                    (drop n payload) i2
                else some (wkc, i2)))
      ]

-- `mbx_l` is read after the slave's mailbox has been emptied.
unfoldable pub sdo_write :
    {I : Type 0} → Mailbox I → ℕ → ℕ → ℕ → Bool → List ℕ → ℕ → I → Option (ℤ × I)
sdo_write M slave index sub ca payload timeout i =
    let (pending, old, i1) = M.mbxreceive slave clear_mbx 0 i in
    if leb (length payload) 4 && not ca
    then write_small M slave index sub timeout payload i1
    else write_large M slave index sub timeout ca payload i1
