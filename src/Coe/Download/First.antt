-- ===== src/Coe/Download/First.antt =====
-- The first request of an SDO download, and what it carries.
use servo_assistant.Base.{
  ℕ, ◌+◌, ◌-◌, ◌*◌, ◌/◌, ◌%◌, ◌≤◌, ◌<◌, ◌≡◌, ◌⊎◌, inl, inr, ◌∙◌, Bool, true, false, some, List, [],
  ◌∷◌, ◌++◌, length, take, drop, arith, append-nil, take_of_length_le, if◌then◌else◌,
}
use native.Mathlib.Decide.{dec_lt}
use servo_assistant.Coe.Mailbox.{mbx_size}
use servo_assistant.Coe.Layout.{copy_from, mbx_length, clear_mbx, request_header}
use servo_assistant.Coe.Upload.{is_expedited, expedited_size}
use servo_assistant.Coe.Download.Requests.{with_data-eq, take_whole}
use servo_assistant.Coe.Download.Segments.{segment_data}
use servo_assistant.Coe.Download.{
  with_data, first_size, needs_segments, download_header, expedited_request,
}

-- A slave takes from the first request the bytes of its long, or those behind it.
abbrev pub delivered : List (List ℕ) → List ℕ
delivered [] = []
delivered (r ∷ rs) =
    (if is_expedited r
      then copy_from r 12 (expedited_size r)
      else copy_from r 16 (mbx_length r - 10))
    ++ segment_data rs

-- The first bytes of a request that is no segment.
expedited_lem :
    (cnt n index sub : ℕ) (tail : List ℕ)
    → 0 < n
    → n ≤ 4
    → (let r =
          request_header 10 cnt
          ++ ((0x23 + (4 - n) % 4 * 4) ∷ index % 256 ∷ index / 256 ∷ sub ∷ tail) in
        (is_expedited r ≡ true) × (expedited_size r ≡ n))
expedited_lem cnt n index sub tail a b = (ground arith, ground arith)

pub expedited_request-delivers :
    (cnt index sub : ℕ) (payload : List ℕ)
    → 0 < length payload
    → length payload ≤ 4
    → (request : List ℕ) × (expedited_request cnt index sub payload ≡ some request)
      × (delivered (request ∷ []) ≡ payload)
unfolding expedited_request
expedited_request-delivers cnt index sub payload a b =
    let n = length payload in
    let tail = take n payload ++ drop (12 + n) clear_mbx in
    let (x, y) = expedited_lem cnt n index sub tail a b in
    (
      _,
      with_data-eq _ payload n clear_mbx (omega arith) (omega arith),
      rw (x, y)
          (append-nil _
            ∙ take_whole n payload _ (omega arith)
            ∙ take_of_length_le n payload (omega arith)),
    )

large_lem :
    (size cnt index sub long : ℕ) (ca : Bool) (tail : List ℕ)
    → size < 65536
    → (let r = download_header size cnt (if ca then 0x31 else 0x21) index sub long ++ tail in
        (is_expedited r ≡ false) × (mbx_length r ≡ size))
unfolding download_header
large_lem size cnt index sub long true tail a = (ground arith, ground arith)
large_lem size cnt index sub long false tail a = (ground arith, ground arith)

pub large-delivers :
    (n cnt index sub long : ℕ) (ca : Bool) (payload : List ℕ)
    → n ≤ length payload
    → n ≤ 1471
    → (request : List ℕ) × (with_data
          (download_header ((10 + n) % 65536) cnt (if ca then 0x31 else 0x21) index sub long)
          payload
          n
          clear_mbx
        ≡ some request)
      × (delivered (request ∷ []) ≡ take n payload)
unfolding download_header
large-delivers n cnt index sub long ca payload a b =
    let tail = take n payload ++ drop (16 + n) clear_mbx in
    let (x, y) = large_lem ((10 + n) % 65536) cnt index sub long ca tail (omega arith) in
    let z : (10 + n) % 65536 - 10 ≡ n = omega arith in
    (
      _,
      with_data-eq _ payload n clear_mbx a (omega arith),
      rw (x, y, z) (append-nil _ ∙ take_whole n payload _ (omega arith)),
    )

-- The first request takes all, or as much as there is room for.
pub first_size_lem :
    (size mailbox : ℕ)
    → 16 ≤ mailbox
    → size < 65536
    → mailbox ≤ mbx_size
    → ((needs_segments size mailbox ≡ true)
        × (first_size size mailbox ≡ mailbox - 16)
        × (mailbox - 16 < size))
      ⊎ ((needs_segments size mailbox ≡ false)
          × (first_size size mailbox ≡ size)
          × (size ≤ mailbox - 16))
unfolding needs_segments first_size
first_size_lem size mailbox a b c = elim (dec_lt (mailbox - 16) size) [
  | yes l ↦ inl (ground arith, ground arith, l)
  | no l ↦ inr (ground arith, ground arith, omega arith)
]
