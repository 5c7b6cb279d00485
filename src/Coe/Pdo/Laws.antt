-- ===== src/Coe/Pdo/Laws.antt =====
-- The PDO services stay inside their buffers, and which loops over a PDO assign object end.
use servo_assistant.Base.{
  ℕ, zero, suc, ◌+◌, ◌-◌, ◌*◌, ◌%◌, ◌^◌, ◌≤◌, ◌<◌, ◌≡◌, ◌≢◌, ◌⊎◌, List, [], ◌∷◌, refl, inl, inr, ℤ,
  is_positive, true, false, Option, none, some, ltb, leb, length, drop, arith, length-take,
  Bool-cases, Option-cases, le→leb, ◌&&◌, ◌==◌,
}
use mathlib.Core.Path.{subst}
use native.Mathlib.Decide.{dec_lt}
use servo_assistant.Coe.Mailbox.{Mailbox, KeepsSize, next_count}
use servo_assistant.Coe.Layout.{clear_mbx, filled}
use servo_assistant.Coe.Exchange.{exchange, length-exchange}
use servo_assistant.Coe.Upload.{Upload}
use servo_assistant.Coe.Upload.Bounds.{sdo_read_total}
use servo_assistant.Coe.Dictionary.{timeout_rxm}
use servo_assistant.Coe.Pdo.{
  pdo_header, pdo_data_size, tx_pdo, read_number, mapped_bits, assigned_bits, number_of, bits_of,
  assign_rounds, read_pdo_assign,
}

abbrev Fits : {I : Type 0} → ℕ → Option (Upload I) → Type 0
Fits capacity none = ⊥
Fits capacity (some u) = (u.size ≤ capacity) × (length u.bytes ≤ u.size)

tx_pdo-Fits :
    {I : Type 0} (M : Mailbox I) (K : KeepsSize M) (slave number capacity timeout : ℕ) (i : I)
    → capacity ≤ 1479
    → Fits capacity (tx_pdo M slave number capacity timeout i)
unfolding tx_pdo
tx_pdo-Fits M K slave number capacity timeout i h =
    let (cnt, i2) = next_count M slave (M.mbxreceive slave clear_mbx 0 i).2 in
    let (wkc, r, i3) = exchange M slave (filled (pdo_header 2 cnt number 6)) timeout i2 in
    let n = pdo_data_size r in
    ground (
      arith,
      length-exchange M K slave (filled (pdo_header 2 cnt number 6)) timeout i2,
      length-take n (drop 8 r),
    )

-- A request for a PDO into a buffer of at most 1479 bytes returns, whatever the slave answers,
-- without a read or write outside a buffer: what it writes is as long as it says, or less, and fits.
pub tx_pdo_total :
    {I : Type 0} (M : Mailbox I)
    → KeepsSize M
    → (slave number capacity timeout : ℕ) (i : I) → capacity ≤ 1479
    → (u : Upload I) × (tx_pdo M slave number capacity timeout i ≡ some u)
      × (u.size ≤ capacity)
      × (length u.bytes ≤ u.size)
tx_pdo_total M K slave number capacity timeout i h =
    elim (Option-cases (tx_pdo M slave number capacity timeout i)) [
      | inl e ↦ absurd (subst (Fits capacity) e (tx_pdo-Fits M K slave number capacity timeout i h))
      | inr (u, e) ↦
          (let (a, b) =
              subst (Fits capacity) e (tx_pdo-Fits M K slave number capacity timeout i h) in
            (u, e, a, b))
    ]

number_of_byte : (bs : List ℕ) → length bs ≤ 1 → number_of bs < 256
number_of_byte [] b = omega arith
number_of_byte (x ∷ []) b = omega arith
number_of_byte (x ∷ y ∷ bs) b = absurd (omega arith)

bits_of_byte : (entry : ℕ) → bits_of entry ≤ 255
unfolding bits_of
bits_of_byte entry = ground arith

module _ {I : Type 0} (M : Mailbox I) (K : KeepsSize M) (slave : ℕ) where
  -- A number that is read into a single byte is one.
  pub read_number-some :
      (index sub size : ℕ) (i : I)
      → (v : ℤ × ℕ × I) × (read_number M slave index sub size i ≡ some v)
        × ((size ≢ 1) ⊎ (v.1 < 256))
  unfolding read_number
  read_number-some index sub size i =
      let (u, e, a, b) = sdo_read_total M K slave index sub false size timeout_rxm i in
      (
        (u.wkc, number_of u.bytes, u.io),
        rw (read_number, e),
        elim (dec_lt 1 size) [
          | yes more ↦ inl (λ q. omega arith)
          | no one ↦ inr (number_of_byte u.bytes (omega arith))
        ],
      )

  mapped_bits-some :
      (k index sub size : ℕ) (i : I)
      → (v : ℕ × I) × (mapped_bits M slave k index sub size i ≡ some v) × (v.0 ≤ size + 255 * k)
  unfolding mapped_bits
  mapped_bits-some zero index sub size i = (_, refl, omega arith)
  mapped_bits-some (suc k) index sub size i =
      let ((wkc, entry, i1), e, small) = read_number-some index (sub % 256) 4 i in
      let (v, f, b) = mapped_bits-some k index (sub + 1) (size + bits_of entry) i1 in
      (v, rw (mapped_bits, e) f, omega (arith, bits_of_byte entry))

  -- A PDO has at most 255 objects, each of at most 255 bits.
  assigned_bits-some :
      (assign k size : ℕ) (i : I)
      → (v : ℕ × I) × (assigned_bits M slave assign k size i ≡ some v) × (v.0 ≤ size + 65025)
  unfolding assigned_bits
  assigned_bits-some assign k size i =
      let ((wkc, index, i1), e, any) = read_number-some assign (k % 256) 2 i in
      let ((wkc2, count, i2), f, small) = read_number-some index 0 1 i1 in
      let (v, g, b) = mapped_bits-some count index 1 size i2 in
      let byte : count < 256 = elim small [ inl n ↦ absurd (n refl) | inr l ↦ l ] in
      elim (Bool-cases (index == 0)) [
        | inl z ↦ ((size, i1), rw (assigned_bits, e, z), omega arith)
        | inr z ↦ (v, rw (assigned_bits, e, z, f) g, omega arith)
      ]

  pub assign_rounds-some :
      (fuel assign nidx k size : ℕ) (i : I)
      → nidx ≤ 65534
      → k ≤ nidx + 1
      → nidx + 1 < fuel + k
      → (v : ℕ × I) × (assign_rounds M slave fuel assign nidx k size i ≡ some v)
        × (v.0 ≤ size + 65025 * (nidx + 1 - k))
  unfolding assign_rounds
  assign_rounds-some zero assign nidx k size i a b c = absurd (omega arith)
  assign_rounds-some (suc fuel) assign nidx k size i a b c =
      let ((size1, i1), e, small) = assigned_bits-some assign k size i in
      elim (Bool-cases (leb k nidx)) [
        | inl l ↦
            (let m : k ≤ nidx = ground arith in
              let (v, f, d) =
                assign_rounds-some fuel assign nidx ((k + 1) % 2 ^ 16) size1 i1 a (omega arith)
                  (omega arith) in
              (v, rw (assign_rounds, l, e) f, omega arith))
        | inr l ↦ ((size, i), rw (assign_rounds, l), omega arith)
      ]

  assign_rounds-none :
      (fuel assign k size : ℕ) (i : I)
      → k ≤ 65535
      → assign_rounds M slave fuel assign 65535 k size i ≡ none
  unfolding assign_rounds
  assign_rounds-none zero assign k size i a = refl
  assign_rounds-none (suc fuel) assign k size i a =
      let ((size1, i1), e, small) = assigned_bits-some assign k size i in
      rw (assign_rounds, le→leb k 65535 a, e)
        (assign_rounds-none fuel assign ((k + 1) % 2 ^ 16) size1 i1 (omega arith))

-- The reading of a PDO assign object ends, if the slave says that it has less than 65535 PDOs.
pub read_pdo_assign_total :
    {I : Type 0} (M : Mailbox I)
    → KeepsSize M
    → (slave assign : ℕ) (i i1 : I) (wkc : ℤ) (count : ℕ)
    → read_number M slave assign 0 2 i ≡ some (wkc, count, i1)
    → count < 65535
    → (result : ℕ × I) × (read_pdo_assign M slave (count + 2) assign i ≡ some result)
unfolding read_pdo_assign
read_pdo_assign_total M K slave assign i i1 wkc count e h =
    let (v, f, small) =
      assign_rounds-some M K slave (count + 2) assign count 1 0 i1 (omega arith) (omega arith)
        (omega arith) in
    elim (Bool-cases (is_positive wkc && ltb 0 count)) [
      | inl p ↦ (v, rw (read_pdo_assign, e, p) f)
      | inr p ↦ ((0, i1), rw (read_pdo_assign, e, p))
    ]

-- If the slave says that it has 65535 PDOs, the reading never ends: no number of rounds is enough.
pub read_pdo_assign_endless :
    {I : Type 0} (M : Mailbox I)
    → KeepsSize M
    → (slave assign fuel : ℕ) (i i1 : I) (wkc : ℤ)
    → read_number M slave assign 0 2 i ≡ some (wkc, 65535, i1)
    → is_positive wkc ≡ true
    → read_pdo_assign M slave fuel assign i ≡ none
unfolding read_pdo_assign
read_pdo_assign_endless M K slave assign fuel i i1 wkc e p =
    rw (read_pdo_assign, e, p) (assign_rounds-none M K slave fuel assign 1 0 i1 (omega arith))
