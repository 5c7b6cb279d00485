-- ===== src/Bridge/Frame.antt =====
-- The check that `pcap_next_ex` of bridge.c makes of a received frame, before SOEM's buffers of
-- fixed size see it. The frame is the list of its captured bytes, so a read past them is a fault
-- (`none`). `a | b << 8` of two bytes is a sum, a mask of low bits a remainder, a shift a quotient.
pub mod Layout
pub mod Accept
use servo_assistant.Base.{
  ℕ, zero, suc, ◌+◌, ◌-◌, ◌*◌, ◌/◌, ◌%◌, Bool, true, false, not, ◌||◌, ◌&&◌, Option, none, some,
  List, get_elem?, ltb, ◌==◌, if◌then◌else◌, ◌>>=◌,
}

-- EC_MAXECATFRAME
abbrev pub max_ecat_frame : ℕ
max_ecat_frame = 1518

-- `b[i] | (b[i + 1] << 8)`
unfoldable pub word_at : List ℕ → ℕ → Option ℕ
word_at b i = do lo ← get_elem? b i; hi ← get_elem? b (i + 1); some (lo + hi * 256)

-- One round of the loop at `pos < end`: `none` is a read outside the frame, `some none` a
-- rejection, and `some (some next)` the position of the next datagram.
unfoldable pub datagram : List ℕ → ℕ → ℕ → Option (Option ℕ)
datagram b end pos = if ltb (end - pos) 12 then some none else (do
  field ← word_at b (pos + 6)
  high ← get_elem? b (pos + 7)
  let next = pos + 12 + field % 2048
  let more = high / 128 % 2 == 1
  some (
      if ltb end next || (if more then next == end else not (next == end))
      then none
      else some next))

-- `while (pos < end) { … }`, on fuel. `none` is a fault, or fuel that ran out.
unfoldable pub walk : ℕ → List ℕ → ℕ → ℕ → Option Bool
walk zero b end pos = none
walk (suc fuel) b end pos =
    if ltb pos end
    then elim (datagram b end pos) [
      | none ↦ none
      | some none ↦ some false
      | some (some next) ↦ walk fuel b end next
    ]
    else some true

-- The whole check of a frame with captured bytes `b`, `cap` of them by the header, and length `len`
-- on the wire: whether it is passed on. Each round moves on by 12 bytes or more, so `end` rounds are enough.
unfoldable pub screen : List ℕ → ℕ → ℕ → Option Bool
screen b cap len =
    if ltb cap 28 || not (cap == len) || ltb max_ecat_frame cap then some false else (do
      type_high ← get_elem? b 12
      type_low ← get_elem? b 13
      size ← word_at b 14
      top ← get_elem? b 15
      let end = 16 + size % 2048
      let checked = walk (end + 1) b end 16
      if not (type_high == 0x88)
            || not (type_low == 0xa4)
            || ltb cap end
            || not (top / 16 == 1)
            || top / 8 % 2 == 1
          then some false
          else checked)
