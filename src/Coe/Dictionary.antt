-- ===== src/Coe/Dictionary.antt =====
-- The object dictionary services of ethercatcoe.c: the list of objects, the description of an
-- object, and its entries. `none` is an access outside an array, or fuel that ran out.
pub mod Lists
pub mod Reads
pub mod Contents
pub mod Entries
pub mod Filled
mod Tests
use servo_assistant.Base.{
  ℕ, zero, suc, ◌+◌, ◌-◌, ◌*◌, ◌/◌, ◌%◌, ◌^◌, ℤ, pos, is_positive, Bool, true, false, not, ◌||◌,
  ◌&&◌, Option, none, some, List, [], ◌∷◌, ◌++◌, ltb, leb, ◌==◌, if◌then◌else◌, length, take, drop,
  replicate, get_or, set, c_string,
}
use servo_assistant.Coe.Mailbox.{Mailbox, next_count, timeout_txm, sdoinfo_error_report}
use servo_assistant.Coe.Exchange.{exchange}
use servo_assistant.Coe.Layout.{
  byte_at, word_at, mbx_length, mbx_type, command, first_long, clear_mbx, filled,
}
use servo_assistant.Coe.Tables.{OdList, OeList, max_od_list, max_name}

-- EC_TIMEOUTRXM
abbrev pub timeout_rxm : ℕ
timeout_rxm = 700_000

-- `Fragments`
abbrev pub fragments : List ℕ → ℕ
fragments r = word_at r 10

-- A CoE mailbox with this opcode. The CANOpen service is not looked at.
unfoldable pub is_info_response : List ℕ → ℕ → Bool
is_info_response r opcode = mbx_type r % 16 == 3 && command r % 128 == opcode

-- A request of the SDO information service: opcode, no fragments, and the words and bytes behind.
unfoldable pub info_request : ℕ → ℕ → ℕ → List ℕ → List ℕ
info_request size cnt opcode bytes =
    filled (size ∷ 0 ∷ 0 ∷ 0 ∷ 0 ∷ (3 + cnt * 16) % 256 ∷ 0 ∷ 0x80 ∷ opcode ∷ 0 ∷ 0 ∷ 0 ∷ bytes)

-- The words of a buffer from a place on; a read behind its end is a fault.
abbrev pub words_from : List ℕ → ℕ → ℕ → List ℕ
words_from r k zero = []
words_from r k (suc n) = word_at r k ∷ words_from r (k + 2) n

unfoldable pub words : List ℕ → ℕ → ℕ → Option (List ℕ)
words r k n = if n == 0 || leb (k + 2 * n) (length r) then some (words_from r k n) else none

-- `n`, the number of indexes in a response: the first has an info header of one more word. The
-- difference is an `int`, its half is rounded towards zero, and `n` keeps 16 bits of it.
unfoldable pub index_count : Bool → List ℕ → ℕ
index_count first r =
    let header = if first then 8 else 6 in
    let size = mbx_length r in
    if leb header size then (size - header) / 2 else (2 ^ 16 - (header - size) / 2) % 2 ^ 16

-- Whether more indexes come than the list has places, and what of them is taken.
unfoldable pub is_too_many : ℕ → ℕ → Bool
is_too_many sp n = ltb max_od_list (sp + n)

unfoldable pub trimmed : ℕ → ℕ → ℕ → ℕ
trimmed sp entries n =
    let n1 = if is_too_many sp n then (2 ^ 16 + max_od_list + 1 - sp) % 2 ^ 16 else n in
    if ltb max_od_list (entries + n1) then (2 ^ 16 + max_od_list - entries) % 2 ^ 16 else n1

-- `Index[sp + i] = …` for each word.
unfoldable pub put_words : ℕ → List ℕ → List ℕ → Option (List ℕ)
put_words sp ws index =
    if leb (sp + length ws) (length index)
    then some (take sp index ++ (ws ++ drop (sp + length ws) index))
    else none

-- The indexes of a response are added to the list; `sp` moves on.
unfoldable pub add_fragment : Bool → ℕ → List ℕ → OdList → Option (ℕ × OdList)
add_fragment first sp r l =
    let n = trimmed sp l.entries (index_count first r) in
    elim (words r (if first then 14 else 12) n) [
      | none ↦ none
      | some ws ↦ elim (put_words sp ws l.index) [
        | none ↦ none
        | some index ↦
            some ((sp + n) % 2 ^ 16, record l { entries = (l.entries + n) % 2 ^ 16; index = index })
      ]
    ]

-- `strncpy(name, src, n); name[n] = 0;`
unfoldable pub put_name : ℕ → List ℕ → List ℕ → List ℕ
put_name n src name =
    let s = take n (c_string src) in set (s ++ replicate (n - length s) 0 ++ drop n name) n 0

-- The length of an object's name: 16 bits of a difference, 40 at most.
unfoldable pub object_name_size : List ℕ → ℕ
object_name_size r =
    let n = (2 ^ 16 + mbx_length r - 12) % 2 ^ 16 in if ltb max_name n then max_name else n

-- That of an entry: the 16 bits are signed, and a negative length is 0.
unfoldable pub entry_name_size : List ℕ → ℕ
entry_name_size r =
    let n = (2 ^ 16 + mbx_length r - 16) % 2 ^ 16 in
    if leb (2 ^ 15) n then 0 else if ltb max_name n then max_name else n

-- The description of an object is cleared,
unfoldable pub clear_description : ℕ → OdList → OdList
clear_description item l = record l {
  data_type = set l.data_type item 0;
  object_code = set l.object_code item 0;
  max_sub = set l.max_sub item 0;
  name = set l.name item (set (get_or l.name item []) 0 0);
}

-- and set from a response.
unfoldable pub put_description : ℕ → List ℕ → OdList → OdList
put_description item r l = record l {
  data_type = set l.data_type item (word_at r 14);
  object_code = set l.object_code item (byte_at r 17);
  max_sub = set l.max_sub item (byte_at r 16);
  name = set l.name item (put_name (object_name_size r) (drop 18 r) (get_or l.name item []));
}

unfoldable pub put_entry : ℕ → List ℕ → OeList → OeList
put_entry sub r l = record {
  entries = (l.entries + 1) % 2 ^ 16;
  value_info = set l.value_info sub (byte_at r 15);
  data_type = set l.data_type sub (word_at r 16);
  bit_length = set l.bit_length sub (word_at r 18);
  obj_access = set l.obj_access sub (word_at r 20);
  name = set l.name sub (put_name (entry_name_size r) (drop 22 r) (get_or l.name sub []));
}

module _ {I : Type 0} (M : Mailbox I) where
  -- A response with another opcode: an SDO info error is passed on, anything else is reported.
  unfoldable pub info_unexpected : ℕ → ℕ → ℕ → List ℕ → I → I
  info_unexpected slave index sub r i =
      if command r % 128 == 7
      then sdoinfo_error_report M slave index sub (first_long r) i
      else M.packeterror slave index sub 1 i

  -- The loop over the responses, on fuel. `x` counts the rounds. A response that is none ends it,
  -- so that the 20 which the code then adds to `x` are never looked at.
  unfoldable pub od_rounds : ℕ → ℕ → ℕ → ℕ → Bool → OdList → I → Option (ℤ × OdList × I)
  od_rounds zero slave x sp first l i = none
  od_rounds (suc fuel) slave x sp first l i =
      let (wkc, r, i1) = M.mbxreceive slave clear_mbx timeout_rxm i in
      let i2 =
        if is_too_many sp (index_count first r)
        then sdoinfo_error_report M slave 0 0 0xf00_0000 i1
        else i1 in
      if not (is_positive wkc)
      then some (wkc, l, i1)
      else if not (is_info_response r 2)
      then some (pos 0, l, info_unexpected slave 0 0 r i1)
      else elim (add_fragment first sp r l) [
        | none ↦ none
        | some (sp1, l1) ↦
            (let more = od_rounds fuel slave (x + 1) sp1 false l1 i2 in
              if leb (x + 1) 128 && ltb 0 (fragments r) then more else some (wkc, l1, i2))
      ]

  -- 129 rounds at most.
  unfoldable pub read_od_list : ℕ → OdList → I → Option (ℤ × OdList × I)
  read_od_list slave l i =
      let l0 = record l { slave = slave; entries = 0 } in
      let (pending, old, i1) = M.mbxreceive slave clear_mbx 0 i in
      let (cnt, i2) = next_count M slave i1 in
      let (wkc, i3) = M.mbxsend slave (info_request 8 cnt 1 (1 ∷ 0 ∷ [])) timeout_txm i2 in
      if is_positive wkc then od_rounds 129 slave 0 0 true l0 i3 else some (wkc, l0, i3)

  unfoldable pub read_od_description : ℕ → OdList → I → Option (ℤ × OdList × I)
  read_od_description item l i =
      let l0 = clear_description item l in
      let index = get_or l.index item 0 in
      let (pending, old, i1) = M.mbxreceive l.slave clear_mbx 0 i in
      let (cnt, i2) = next_count M l.slave i1 in
      let (wkc, r, i3) =
        exchange M l.slave (info_request 8 cnt 3 (index % 256 ∷ index / 256 ∷ [])) timeout_rxm i2 in
      if not (ltb item max_od_list)
      then none
      else if not (is_positive wkc)
      then some (wkc, l0, i3)
      else if is_info_response r 4
      then some (wkc, put_description item r l0, i3)
      else some (pos 0, l0, info_unexpected l.slave index 0 r i3)

  -- `sub` has 8 bits, and `item` is a place of the list.
  unfoldable pub read_oe_single : ℕ → ℕ → OdList → OeList → I → ℤ × OeList × I
  read_oe_single item sub od oe i =
      let index = get_or od.index item 0 in
      let (pending, old, i1) = M.mbxreceive od.slave clear_mbx 0 i in
      let (cnt, i2) = next_count M od.slave i1 in
      let (wkc, r, i3) =
        exchange M od.slave (info_request 10 cnt 5 (index % 256 ∷ index / 256 ∷ sub ∷ 7 ∷ []))
          timeout_rxm i2 in
      if not (is_positive wkc)
      then (wkc, oe, i3)
      else if is_info_response r 6
      then (wkc, put_entry sub r oe, i3)
      else (pos 0, oe, info_unexpected od.slave index sub r i3)

  -- `for (SubCount = 0; SubCount <= SubI; SubCount++)`, with `k` rounds left from `sub`; the work
  -- counter is that of the last.
  unfoldable pub read_oe_from : ℕ → ℕ → ℕ → OdList → ℤ → OeList → I → ℤ × OeList × I
  read_oe_from zero item sub od wkc oe i = (wkc, oe, i)
  read_oe_from (suc k) item sub od wkc oe i =
      let (wkc1, oe1, i1) = read_oe_single item sub od oe i in
      read_oe_from k item (sub + 1) od wkc1 oe1 i1

  unfoldable pub read_oe : ℕ → OdList → OeList → I → Option (ℤ × OeList × I)
  read_oe item od oe i =
      if ltb item max_od_list
      then some (
          read_oe_from (suc (get_or od.max_sub item 0)) item 0 od (pos 0)
            (record oe { entries = 0 }) i)
      else none
