-- ===== src/Coe/Pdo/Sending.antt =====
-- A PDO that is sent to a slave.
use servo_assistant.Base.{
  ℕ, ◌+◌, ◌-◌, ◌%◌, ◌^◌, ◌++◌, ◌≤◌, ◌<◌, ◌≡◌, ◌∙◌, sym, some, List, length, take, drop, arith,
  take_of_length_le,
}
use native.Mathlib.Decide.{dec_lt}
use servo_assistant.Coe.Mailbox.{Mailbox, mbx_size, next_count, timeout_txm}
use servo_assistant.Coe.Layout.{mbx_length, clear_mbx, copy_from}
use servo_assistant.Coe.Download.Requests.{with_data-eq, take_whole}
use servo_assistant.Coe.Pdo.{pdo_size, pdo_header, rx_pdo}

pdo_size_all :
    (psize mailbox : ℕ)
    → psize < 65536
    → 8 ≤ mailbox
    → psize ≤ mailbox - 8
    → pdo_size psize mailbox ≡ psize
unfolding pdo_size
pdo_size_all psize mailbox a b c = ground arith

pdo_size_cut :
    (psize mailbox : ℕ)
    → psize < 65536
    → 8 ≤ mailbox
    → mailbox ≤ mbx_size
    → mailbox - 8 < psize
    → pdo_size psize mailbox ≡ mailbox - 8
unfolding pdo_size
pdo_size_cut psize mailbox a b c d = ground arith

pdo_size_le :
    (psize mailbox : ℕ)
    → psize < 65536
    → 8 ≤ mailbox
    → mailbox ≤ mbx_size
    → (pdo_size psize mailbox ≤ psize) × (pdo_size psize mailbox ≤ 1479)
unfolding pdo_size
pdo_size_le psize mailbox a b c = (ground arith, ground arith)

take-pdo_size :
    (mailbox : ℕ) (payload : List ℕ)
    → length payload < 65536
    → 8 ≤ mailbox
    → mailbox ≤ mbx_size
    → take (pdo_size (length payload) mailbox) payload ≡ take (mailbox - 8) payload
take-pdo_size mailbox payload a b c = elim (dec_lt (mailbox - 8) (length payload)) [
  | yes l ↦ rw (pdo_size_cut (length payload) mailbox a b c l)
  | no l ↦ rw (pdo_size_all (length payload) mailbox a b (omega arith)) (
      take_of_length_le (length payload) payload (omega arith)
      ∙ sym (take_of_length_le (mailbox - 8) payload (omega arith)))
]

header_length :
    (n cnt number : ℕ) (tail : List ℕ)
    → n ≤ 1479
    → mbx_length (pdo_header ((2 + n) % 2 ^ 16) cnt number 5 ++ tail) - 2 ≡ n
unfolding pdo_header
header_length n cnt number tail h = omega arith

-- A PDO of less than 65536 bytes, to a slave whose mailbox has between 8 and 1487 bytes, is sent in
-- one request that carries the bytes for which the mailbox has room, from the first on.
pub rx_pdo_lem :
    {I : Type 0} (M : Mailbox I) (slave number : ℕ) (payload : List ℕ) (i : I)
    → 8 ≤ M.mbx_l slave (M.mbxreceive slave clear_mbx 0 i).2
    → M.mbx_l slave (M.mbxreceive slave clear_mbx 0 i).2 ≤ mbx_size
    → length payload < 65536
    → (request : List ℕ) × (rx_pdo M slave number payload i
        ≡ some (
            M.mbxsend slave request timeout_txm
              (next_count M slave (M.mbxreceive slave clear_mbx 0 i).2).1))
      × (copy_from request 8 (mbx_length request - 2)
          ≡ take (M.mbx_l slave (M.mbxreceive slave clear_mbx 0 i).2 - 8) payload)
unfolding rx_pdo pdo_header
rx_pdo_lem M slave number payload i a b c =
    let i1 = (M.mbxreceive slave clear_mbx 0 i).2 in
    let m = M.mbx_l slave i1 in
    let n = pdo_size (length payload) m in
    let cnt = (next_count M slave i1).0 in
    let (u, v) = pdo_size_le (length payload) m c a b in
    let tail = take n payload ++ drop (8 + n) clear_mbx in
    (
      pdo_header ((2 + n) % 2 ^ 16) cnt number 5 ++ tail,
      rw (
        rx_pdo,
        with_data-eq (pdo_header ((2 + n) % 2 ^ 16) cnt number 5) payload n clear_mbx u
            (omega arith),
      ),
      rw (header_length n cnt number tail v)
          (take_whole n payload (drop (8 + n) clear_mbx) u ∙ take-pdo_size m payload c a b),
    )
