-- ===== src/Bridge/Frame/Layout.antt =====
-- An independent description of the frames that the check of bridge.c is for: an EtherCAT frame
-- whose datagrams, each 12 bytes and its data, make up exactly the length in its header.
use servo_assistant.Base.{
  ℕ, ◌+◌, ◌-◌, ◌*◌, ◌/◌, ◌%◌, ◌≤◌, ◌<◌, ◌≡◌, ◌≢◌, ◌⊎◌, inl, inr, not, ◌||◌, Option, none, some,
  List, length, get_or, ltb, ◌==◌, if◌then◌else◌, get_elem?-eq-get_or, arith, Bool-cases,
}
use servo_assistant.Bridge.Frame.{word_at, datagram, max_ecat_frame}

module _ (b : List ℕ) where
  abbrev pub byte : ℕ → ℕ
  byte i = get_or b i 0

  abbrev pub word : ℕ → ℕ
  word i = byte i + byte (i + 1) * 256

  -- the length of the data of the datagram at `pos`, and its flag that another one follows
  abbrev pub data_length : ℕ → ℕ
  data_length pos = word (pos + 6) % 2048

  abbrev pub follows : ℕ → ℕ
  follows pos = byte (pos + 7) / 128 % 2

  -- The datagrams from `pos` on end exactly at `end`, and all but the last one say that more follow.
  pub data Chain (end : ℕ) : ℕ → Type 0 where
    last : {pos : ℕ} → pos + 12 + data_length pos ≡ end → follows pos ≢ 1 → Chain end pos
    next :
        {pos : ℕ}
        → pos + 12 + data_length pos < end
        → follows pos ≡ 1
        → Chain end (pos + 12 + data_length pos)
        → Chain end pos

  -- The length of the EtherCAT part by the header, and the position where that part ends.
  abbrev pub end_of : ℕ
  end_of = 16 + word 14 % 2048

  pub record IsWellFormed (len : ℕ) : Type 0 where
    pub minimal : 28 ≤ length b
    pub maximal : length b ≤ max_ecat_frame
    pub whole : length b ≡ len
    pub ethertype : (byte 12 ≡ 0x88) × (byte 13 ≡ 0xa4)
    pub fits : end_of ≤ length b
    pub command_type : (byte 15 / 16 ≡ 1) × (byte 15 / 8 % 2 ≡ 0)
    pub datagrams : (end_of ≡ 16) ⊎ Chain end_of 16

  pub word_at-eq-word : (i : ℕ) → i + 1 < length b → word_at b i ≡ some (word i)
  unfolding word_at
  word_at-eq-word i h =
      ground (arith, get_elem?-eq-get_or b i 0 (omega arith), get_elem?-eq-get_or b (i + 1) 0 h)

  -- What a round of the loop answers, its reads being inside the frame.
  abbrev pub answer : ℕ → ℕ → Option ℕ
  answer end pos =
      if ltb (end - pos) 12
      then none
      else (let next = pos + 12 + data_length pos in
          if ltb end next || (if follows pos == 1 then next == end else not (next == end))
          then none
          else some next)

  pub datagram_lem : (end pos : ℕ) → end ≤ length b → datagram b end pos ≡ some (answer end pos)
  unfolding datagram
  datagram_lem end pos h = elim (Bool-cases (ltb (end - pos) 12)) [
    | inl short ↦ rw short
    | inr long ↦ rw (
      long,
      word_at-eq-word (pos + 6) (ground arith),
      get_elem?-eq-get_or b (pos + 7) 0 (ground arith),
    )
  ]
