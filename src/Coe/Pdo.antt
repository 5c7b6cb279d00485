-- ===== src/Coe/Pdo.antt =====
-- The PDO services of ethercatcoe.c: a process data object sent to a slave or asked of it, and the
-- number of bits that a PDO assign object maps. `none` is a copy outside a buffer, or fuel that ran
-- out.
pub mod Laws
pub mod Sending
mod Tests
use servo_assistant.Base.{
  ℕ, zero, suc, ◌+◌, ◌-◌, ◌*◌, ◌/◌, ◌%◌, ◌^◌, ℤ, pos, is_positive, Bool, false, not, ◌||◌, ◌&&◌,
  Option, none, some, List, [], ◌∷◌, ◌++◌, ltb, leb, ◌==◌, if◌then◌else◌, length, ◌>>=◌,
}
use servo_assistant.Coe.Mailbox.{Mailbox, next_count, sdo_error_report, timeout_txm}
use servo_assistant.Coe.Exchange.{exchange}
use servo_assistant.Coe.Layout.{
  mbx_length, mbx_type, can_open, command, first_long, copy_from, clear_mbx, filled, sdo_abort,
}
use servo_assistant.Coe.Download.{with_data}
use servo_assistant.Coe.Upload.{Upload, sdo_read}
use servo_assistant.Coe.Dictionary.{timeout_rxm}

-- `framedatasize` for `psize` bytes, where `mbx_l - 0x08` is `maxdata`: 16 bits of a difference that
-- may be negative.
unfoldable pub pdo_size : ℕ → ℕ → ℕ
pdo_size psize mailbox =
    let n = psize % 2 ^ 16 in
    if ltb (mailbox - 8) n || ltb mailbox 8 then (mailbox + 2 ^ 16 - 8) % 2 ^ 16 else n

-- The header of a request with the number of a PDO and a service.
unfoldable pub pdo_header : ℕ → ℕ → ℕ → ℕ → List ℕ
pdo_header size cnt number service =
    size % 256
    ∷ size / 256 % 256
    ∷ 0
    ∷ 0
    ∷ 0
    ∷ (3 + cnt * 16) % 256
    ∷ number % 256
    ∷ (number / 256 % 2 + service * 16)
    ∷ []

-- `(CANOpen >> 12) == ECT_COES_TXPDO`, of a CoE mailbox
unfoldable pub is_pdo_response : List ℕ → Bool
is_pdo_response r = mbx_type r % 16 == 3 && can_open r / 4096 == 4

-- The size of the data of a response, 16 bits of a difference.
unfoldable pub pdo_data_size : List ℕ → ℕ
pdo_data_size r = (mbx_length r + 2 ^ 16 - 2) % 2 ^ 16

-- The number that little-endian bytes make in a variable that was 0 before.
abbrev pub number_of : List ℕ → ℕ
number_of [] = 0
number_of (b ∷ bs) = b % 256 + 256 * number_of bs

-- The number of bits of a mapped object.
unfoldable pub bits_of : ℕ → ℕ
bits_of entry = if ltb (entry % 256) 0xff then entry % 256 else 0xff

module _ {I : Type 0} (M : Mailbox I) (slave : ℕ) where
  unfoldable pub rx_pdo : ℕ → List ℕ → I → Option (ℤ × I)
  rx_pdo number payload i =
      let (pending, old, i1) = M.mbxreceive slave clear_mbx 0 i in
      let n = pdo_size (length payload) (M.mbx_l slave i1) in
      let (cnt, i2) = next_count M slave i1 in
      elim (with_data (pdo_header ((2 + n) % 2 ^ 16) cnt number 5) payload n clear_mbx) [
        | none ↦ none
        | some request ↦ some (M.mbxsend slave request timeout_txm i2)
      ]

  -- `capacity` is `*psize` before the call.
  unfoldable pub tx_pdo : ℕ → ℕ → ℕ → I → Option (Upload I)
  tx_pdo number capacity timeout i =
      let (pending, old, i1) = M.mbxreceive slave clear_mbx 0 i in
      let (cnt, i2) = next_count M slave i1 in
      let (wkc, r, i3) = exchange M slave (filled (pdo_header 2 cnt number 6)) timeout i2 in
      let n = pdo_data_size r in
      let left : ℤ → I → Upload I =
        λ w j. record { wkc = w; size = capacity; bytes = []; io = j } in
      if not (is_positive wkc)
      then some (left wkc i3)
      else if not (is_pdo_response r)
      then some (
          left (pos 0) (
            if command r == sdo_abort
            then sdo_error_report M slave 0 0 (first_long r) i3
            else M.packeterror slave 0 0 1 i3))
      else if ltb capacity n
      then some (left (pos 0) (M.packeterror slave 0 0 3 i3))
      else if leb (8 + n) (length r)
      then some (record { wkc = wkc; size = n; bytes = copy_from r 8 n; io = i3 })
      else none

  -- A variable of `size` bytes, set to 0, into which an object is read.
  unfoldable pub read_number : ℕ → ℕ → ℕ → I → Option (ℤ × ℕ × I)
  read_number index sub size i = do
    u ← sdo_read M slave index sub false size timeout_rxm i
    some (u.wkc, number_of u.bytes, u.io)

  -- `for (subidxloop = 1; …)`, with `k` rounds left from `sub`: the bits of the mapped objects.
  unfoldable pub mapped_bits : ℕ → ℕ → ℕ → ℕ → I → Option (ℕ × I)
  mapped_bits zero index sub size i = some (size, i)
  mapped_bits (suc k) index sub size i = do
    (wkc, entry, i1) ← read_number index (sub % 256) 4 i
    mapped_bits k index (sub + 1) (size + bits_of entry) i1

  -- The bits of the PDO whose index stands at a place of the assign object.
  unfoldable pub assigned_bits : ℕ → ℕ → ℕ → I → Option (ℕ × I)
  assigned_bits assign k size i = do
    (wkc, index, i1) ← read_number assign (k % 256) 2 i
    if index == 0
        then some (size, i1)
        else (do (wkc2, count, i2) ← read_number index 0 1 i1; mapped_bits count index 1 size i2)

  -- `for (idxloop = 1; idxloop <= nidx; idxloop++)`, on fuel; `idxloop` has 16 bits.
  unfoldable pub assign_rounds : ℕ → ℕ → ℕ → ℕ → ℕ → I → Option (ℕ × I)
  assign_rounds zero assign nidx k size i = none
  assign_rounds (suc fuel) assign nidx k size i =
      if leb k nidx
      then (do
        (size1, i1) ← assigned_bits assign k size i
        assign_rounds fuel assign nidx ((k + 1) % 2 ^ 16) size1 i1)
      else some (size, i)

  -- With the fuel of the loop over the PDOs.
  unfoldable pub read_pdo_assign : ℕ → ℕ → I → Option (ℕ × I)
  read_pdo_assign fuel assign i = do
    (wkc, count, i1) ← read_number assign 0 2 i
    if is_positive wkc && ltb 0 count then assign_rounds fuel assign count 1 0 i1 else some (0, i1)
