-- ===== src/Coe/Layout.antt =====
-- The bytes of a CoE mailbox, `ec_SDOt` and `ec_SDOservicet` of ethercatcoe.c: little-endian fields
-- at fixed places of the buffer. A mask or shift of such a field is a quotient and a remainder.
use servo_assistant.Base.{
  ℕ, ◌+◌, ◌-◌, ◌*◌, ◌/◌, ◌%◌, Bool, ◌&&◌, ◌==◌, List, [], ◌∷◌, ◌++◌, get_or, length, replicate,
  take, drop,
}
use servo_assistant.Coe.Mailbox.{mbx_size}

abbrev pub byte_at : List ℕ → ℕ → ℕ
byte_at buf k = get_or buf k 0

-- `etohs` and `etohl`
abbrev pub word_at : List ℕ → ℕ → ℕ
word_at buf k = byte_at buf k + byte_at buf (k + 1) * 256

abbrev pub long_at : List ℕ → ℕ → ℕ
long_at buf k = word_at buf k + word_at buf (k + 2) * 65536

-- MbxHeader.length, mbxtype, CANOpen, Command, Index, SubIndex and `ldata[0]`
abbrev pub mbx_length : List ℕ → ℕ
mbx_length buf = word_at buf 0

abbrev pub mbx_type : List ℕ → ℕ
mbx_type buf = byte_at buf 5

abbrev pub can_open : List ℕ → ℕ
can_open buf = word_at buf 6

abbrev pub command : List ℕ → ℕ
command buf = byte_at buf 8

abbrev pub sdo_index : List ℕ → ℕ
sdo_index buf = word_at buf 9

abbrev pub sub_index : List ℕ → ℕ
sub_index buf = byte_at buf 11

abbrev pub first_long : List ℕ → ℕ
first_long buf = long_at buf 12

-- `memcpy(…, buf + k, n)`
abbrev pub copy_from : List ℕ → ℕ → ℕ → List ℕ
copy_from buf k n = take n (drop k buf)

-- `(mbxtype & 0x0f) == ECT_MBXT_COE` and `CANOpen >> 12 == ECT_COES_SDORES`
abbrev pub is_sdo_response : List ℕ → Bool
is_sdo_response buf = mbx_type buf % 16 == 3 && can_open buf / 4096 == 3

-- ECT_SDO_ABORT
abbrev pub sdo_abort : ℕ
sdo_abort = 0x80

-- `ec_clearmbx`
unfoldable pub clear_mbx : List ℕ
clear_mbx = replicate mbx_size 0

-- A buffer that begins with these bytes, the rest cleared.
unfoldable pub filled : List ℕ → List ℕ
filled bytes = bytes ++ replicate (mbx_size - length bytes) 0

-- The bytes of a header with a length and a mailbox count, and of the CoE service: SDO request.
abbrev pub request_header : ℕ → ℕ → List ℕ
request_header size cnt =
    size % 256 ∷ size / 256 % 256 ∷ 0 ∷ 0 ∷ 0 ∷ (3 + cnt * 16) % 256 ∷ 0 ∷ 0x20 ∷ []

-- A request of 10 bytes: command, index, subindex and a zero long.
unfoldable pub upload_request : ℕ → ℕ → ℕ → ℕ → List ℕ
upload_request cnt cmd index sub =
    filled (request_header 10 cnt ++ (cmd ∷ index % 256 ∷ index / 256 ∷ sub ∷ 0 ∷ 0 ∷ 0 ∷ 0 ∷ []))
