-- ===== src/Bridge/Dictionary.antt =====
-- The object dictionary and SDO entry points of bridge.c, over the CoE services. `is_absent` is the
-- guard `!opened || slave < 1 || slave > ec_slavecount` that they share.
use servo_assistant.Base.{
  ℕ, zero, suc, ◌+◌, ◌-◌, ◌%◌, ◌^◌, ℤ, pos, pos_part, minus_one, minus_two, is_positive, Bool,
  false, not, ◌||◌, Option, none, some, List, [], ◌∷◌, ◌++◌, ltb, leb, ◌==◌, if◌then◌else◌, length,
  take, replicate, get_or, c_string,
}
use servo_assistant.Bridge.Soem.{Soem, Coe}
use servo_assistant.Coe.Tables.{max_od_list, max_oe_list, max_name, OdList, OeList}
use servo_assistant.Bridge.Master.{Bridge, is_absent}

-- `sa_od_item_t`
pub record OdItem : Type 0 where
  pub index : ℕ
  pub data_type : ℕ
  pub object_code : ℕ
  pub max_sub : ℕ
  pub name : List ℕ

-- `sa_od_entry_t`
pub record OdEntry : Type 0 where
  pub data_type : ℕ
  pub bit_length : ℕ
  pub access : ℕ
  pub sub_index : ℕ
  pub name : List ℕ

-- `memset(&od_list, 0, sizeof(od_list))`
unfoldable pub zero_od_list : OdList
zero_od_list = record {
  slave = 0;
  entries = 0;
  index = replicate max_od_list 0;
  data_type = replicate max_od_list 0;
  object_code = replicate max_od_list 0;
  max_sub = replicate max_od_list 0;
  name = replicate max_od_list (replicate (max_name + 1) 0);
}

-- `memset(&od_entries, 0, sizeof(od_entries))`
unfoldable pub zero_oe_list : OeList
zero_oe_list = record {
  entries = 0;
  value_info = replicate max_oe_list 0;
  data_type = replicate max_oe_list 0;
  bit_length = replicate max_oe_list 0;
  obj_access = replicate max_oe_list 0;
  name = replicate max_oe_list (replicate (max_name + 1) 0);
}

-- `strncpy(name, src, 63)` into 64 zeroed bytes
unfoldable pub copy_name : List ℕ → List ℕ
copy_name src = let s = take 63 (c_string src) in s ++ replicate (64 - length s) 0

abbrev pub zero_item : OdItem
zero_item = record { index = 0; data_type = 0; object_code = 0; max_sub = 0; name = replicate 64 0 }

unfoldable pub od_item : OdList → ℕ → OdItem
od_item l i = record {
  index = get_or l.index i 0;
  data_type = get_or l.data_type i 0;
  object_code = get_or l.object_code i 0;
  max_sub = get_or l.max_sub i 0;
  name = copy_name (get_or l.name i []);
}

unfoldable pub od_entry : OeList → ℕ → OdEntry
od_entry l i = record {
  data_type = get_or l.data_type i 0;
  bit_length = get_or l.bit_length i 0;
  access = get_or l.obj_access i 0;
  sub_index = i % 2 ^ 8;
  name = copy_name (get_or l.name i []);
}

-- `for (i = 0; i < n; i++)`, with `k` rounds left from `i`
unfoldable pub od_entries_from : ℕ → ℕ → OeList → List OdEntry
od_entries_from zero i l = []
od_entries_from (suc k) i l = od_entry l i ∷ od_entries_from k (i + 1) l

abbrev pub sdo_timeout : ℕ
sdo_timeout = 500_000

-- The number of entries to hand out: both numbers are 16 bits wide.
unfoldable pub entry_count : ℤ → OeList → ℕ
entry_count capacity l =
    let room = pos_part capacity % 2 ^ 16 in if ltb room l.entries then room else l.entries

module _ {I : Type 0} (S : Soem I) (C : Coe I) where
  unfoldable pub sa_od_count : ℕ → Bridge I → ℤ × Bridge I
  sa_od_count slave b =
      if is_absent S slave b
      then (minus_one, b)
      else (let (wkc, l, i) = C.ec_read_od_list b.capture slave zero_od_list b.io in
          let b1 = record b { od_list = l; io = i } in
          if is_positive wkc then (pos l.entries, b1) else (minus_two, b1))

  -- `writable` is `out != NULL`; what is written to `out`, if anything.
  unfoldable pub sa_od_item : ℕ → ℕ → Bool → Bridge I → ℤ × Option OdItem × Bridge I
  sa_od_item slave item writable b =
      if is_absent S slave b
        || not writable
        || not (b.od_list.slave == slave)
        || leb b.od_list.entries item
      then (minus_one, none, b)
      else (let (wkc, l, i) = C.ec_read_od_description b.capture item b.od_list b.io in
          let b1 = record b { od_list = l; io = i } in
          if is_positive wkc
          then (pos 0, some (od_item l item), b1)
          else (minus_two, some zero_item, b1))

  unfoldable pub sa_od_entries : ℕ → ℕ → Bool → ℤ → Bridge I → ℤ × List OdEntry × Bridge I
  sa_od_entries slave item writable capacity b =
      if is_absent S slave b
        || not writable
        || not (is_positive capacity)
        || not (b.od_list.slave == slave)
        || leb b.od_list.entries item
      then (minus_one, [], b)
      else (let (wkc, l, i) = C.ec_read_oe b.capture item b.od_list zero_oe_list b.io in
          let b1 = record b { od_entries = l; io = i } in
          let n = entry_count capacity l in
          if is_positive wkc then (pos n, od_entries_from n 0 l, b1) else (minus_two, [], b1))

  -- `*size` is the capacity of `out` before the call, and the number of bytes after it.
  -- The result, `*size`, and what is written to `out`; `*size` before the call is `capacity`.
  unfoldable pub sa_sdo_read : ℕ → ℕ → ℕ → ℕ → Bridge I → ℤ × ℕ × List ℕ × Bridge I
  sa_sdo_read slave index sub capacity b =
      if is_absent S slave b
      then (minus_one, capacity, [], b)
      else (let (wkc, size, bytes, i) =
            C.ec_sdo_read b.capture slave index sub false capacity sdo_timeout b.io in
          (wkc, size, bytes, record b { io = i }))

  unfoldable pub sa_sdo_write : ℕ → ℕ → ℕ → List ℕ → ℤ → Bridge I → ℤ × Bridge I
  sa_sdo_write slave index sub bytes size b =
      if is_absent S slave b || not (is_positive size) || ltb 4096 (pos_part size)
      then (minus_one, b)
      else (let (wkc, i) =
            C.ec_sdo_write b.capture slave index sub false (take (pos_part size) bytes) sdo_timeout
              b.io in
          (wkc, record b { io = i }))
