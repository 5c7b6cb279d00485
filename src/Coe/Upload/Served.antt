-- ===== src/Coe/Upload/Served.antt =====
-- A slave that serves an upload as the CoE protocol has it, described by what its responses hold.
use servo_assistant.Base.{
  ℕ, ◌+◌, ◌-◌, ◌*◌, ◌/◌, ◌%◌, ◌≤◌, ◌<◌, ◌≡◌, ◌⊎◌, ℤ, is_positive, true, List, ◌++◌, length,
}
use servo_assistant.Coe.Mailbox.{Mailbox}
use servo_assistant.Coe.Layout.{
  mbx_length, mbx_type, can_open, command, sdo_index, sub_index, first_long, copy_from,
}
use servo_assistant.Coe.Upload.{poll}

-- A CoE mailbox with an SDO response.
pub record IsSdoResponse (r : List ℕ) : Type 0 where
  pub protocol : mbx_type r % 16 ≡ 3
  pub service : can_open r / 4096 ≡ 3

-- The response to the request for an upload of an object.
pub record IsUploadResponse (index sub : ℕ) (r : List ℕ) : Type 0 where
  pub sdo : IsSdoResponse r
  pub minimal : 10 ≤ mbx_length r
  pub maximal : mbx_length r ≤ 1480
  pub object : sdo_index r ≡ index
  pub subindex : sub_index r ≡ sub
  pub specifier : command r / 32 % 8 ≡ 2

-- A segment with the data `d`. A last one of less than 7 bytes is filled up, and says with how many
-- bytes.
pub record IsSegment (toggle last : ℕ) (d r : List ℕ) : Type 0 where
  pub sdo : IsSdoResponse r
  pub unused : ℕ
  pub command_byte : command r ≡ toggle * 16 + unused * 2 + last
  pub sized :
      ((unused ≡ 0) × (mbx_length r ≡ length d + 3))
      ⊎ ((last ≡ 1) × (mbx_length r ≡ 10) × (unused + length d ≡ 7))
  pub room : length d ≤ 1477
  pub carries : copy_from r 9 (length d) ≡ d

module _ {I : Type 0} (M : Mailbox I) (slave index sub timeout timer : ℕ) where
  -- From a state, for a toggle bit: the segments that come make up the rest of the object. The work
  -- counter is that of the last one.
  pub data Served : ℕ → I → List ℕ → ℤ → I → Type 0 where
    closing :
        {toggle : ℕ} {i j : I} {d r : List ℕ} {wkc : ℤ}
        → poll M slave index sub timeout timer toggle i ≡ (wkc, r, j)
        → is_positive wkc ≡ true
        → IsSegment toggle 1 d r
        → Served toggle i d wkc j
    more :
        {toggle : ℕ} {i j k : I} {d r rest all : List ℕ} {v wkc : ℤ}
        → poll M slave index sub timeout timer toggle i ≡ (v, r, k)
        → is_positive v ≡ true
        → IsSegment toggle 0 d r
        → 0 < length d
        → all ≡ d ++ rest
        → Served (1 - toggle) k rest wkc j
        → Served toggle i all wkc j

  -- The object that follows from the first response `r`, which left the state `i` and the work
  -- counter `v`: in 4 bytes or less, whole, or begun and continued by segments.
  pub data Delivers (r : List ℕ) (i : I) (v : ℤ) : List ℕ → ℤ → I → Type 0 where
    expedited :
        {all : List ℕ}
        → command r / 2 % 2 ≡ 1
        → length all ≡ 4 - command r / 4 % 4
        → copy_from r 12 (length all) ≡ all
        → Delivers r i v all v i
    whole :
        {all : List ℕ}
        → command r / 2 % 2 ≡ 0
        → first_long r ≡ length all
        → length all ≤ mbx_length r - 10
        → copy_from r 16 (length all) ≡ all
        → Delivers r i v all v i
    segmented :
        {all part rest : List ℕ} {wkc : ℤ} {j : I}
        → command r / 2 % 2 ≡ 0
        → first_long r ≡ length all
        → copy_from r 16 (mbx_length r - 10) ≡ part
        → length part ≡ mbx_length r - 10
        → all ≡ part ++ rest
        → 0 < length rest
        → Served 0 i rest wkc j
        → Delivers r i v all wkc j
