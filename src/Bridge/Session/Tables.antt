-- ===== src/Bridge/Session/Tables.antt =====
-- The tables that bridge.c hands out: how many entries, and which.
use servo_assistant.Base.{
  ℕ, zero, suc, ◌+◌, ◌%◌, ◌^◌, ◌≤◌, ◌<◌, ◌≡◌, refl, ap, min, ltb, lt→ltb, ltb-suc, if◌then◌else◌,
  ◌∙◌, ℤ, pos, pos_part, Bool, true, none, some, List, length, get_elem?, arith,
}
use servo_assistant.Bridge.Soem.{Slave, Soem, Coe}
use servo_assistant.Coe.Tables.{OeList}
use servo_assistant.Bridge.Master.{Bridge, SlaveInfo, slave_info, slave_infos, sa_slaves}
use servo_assistant.Bridge.Dictionary.{
  OdEntry, od_entry, od_entries_from, entry_count, sa_od_item, sa_od_entries,
}

length-slave_infos : (n i : ℕ) (t : ℕ → Slave) → length (slave_infos n i t) ≡ n
unfolding slave_infos
length-slave_infos zero i t = refl
length-slave_infos (suc n) i t = ap suc (length-slave_infos n (i + 1) t)

-- What stands at place `k` of such a table, or past its end.
get_elem?-slave_infos :
    (n i k : ℕ) (t : ℕ → Slave)
    → get_elem? (slave_infos n i t) k
      ≡ (if ltb k n then some (slave_info (t (i + k)) (i + k)) else none)
unfolding slave_infos
get_elem?-slave_infos zero i k t = ground arith
get_elem?-slave_infos (suc n) i zero t =
    rw (lt→ltb 0 (suc n) (omega arith)) (ap (λ j. some (slave_info (t j) j)) (omega arith))
get_elem?-slave_infos (suc n) i (suc k) t =
    rw (get_elem?-slave_infos n (i + 1) k t, ltb-suc k n)
      (ap (λ j. if ltb k n then some (slave_info (t j) j) else none) (omega arith))

get_elem?-od_entries_from :
    (n i k : ℕ) (l : OeList)
    → get_elem? (od_entries_from n i l) k ≡ (if ltb k n then some (od_entry l (i + k)) else none)
unfolding od_entries_from
get_elem?-od_entries_from zero i k l = ground arith
get_elem?-od_entries_from (suc n) i zero l =
    rw (lt→ltb 0 (suc n) (omega arith)) (ap (λ j. some (od_entry l j)) (omega arith))
get_elem?-od_entries_from (suc n) i (suc k) l =
    rw (get_elem?-od_entries_from n (i + 1) k l, ltb-suc k n)
      (ap (λ j. if ltb k n then some (od_entry l j) else none) (omega arith))

length-od_entries_from : (n i : ℕ) (l : OeList) → length (od_entries_from n i l) ≡ n
unfolding od_entries_from
length-od_entries_from zero i l = refl
length-od_entries_from (suc n) i l = ap suc (length-od_entries_from n (i + 1) l)

sa_slaves_shape :
    {I : Type 0} (S : Soem I) (capacity : ℕ) (b : Bridge I) {n : ℕ} {out : List SlaveInfo}
    {b' : Bridge I}
    → sa_slaves S capacity b ≡ (pos n, out, b')
    → (n ≡ S.ec_slavecount b'.io) × (n ≤ capacity) × (out ≡ slave_infos n 1 (S.ec_slave b'.io))
unfolding sa_slaves
sa_slaves_shape S capacity b e = ground arith

-- A table of slaves that is handed out has as many entries as there are slaves, no more than there
-- is room for, and its place `k` holds the slave with the number `k + 1`.
pub sa_slaves_lem :
    {I : Type 0} (S : Soem I) (capacity : ℕ) (b : Bridge I) {n : ℕ} {out : List SlaveInfo}
    {b' : Bridge I} (k : ℕ)
    → sa_slaves S capacity b ≡ (pos n, out, b')
    → (n ≡ S.ec_slavecount b'.io)
      × (n ≤ capacity)
      × (length out ≡ n)
      × (get_elem? out k
          ≡ (if ltb k n then some (slave_info (S.ec_slave b'.io (k + 1)) (k + 1)) else none))
sa_slaves_lem S capacity b {n} {out} {b'} k e =
    let (count, room, shape) = sa_slaves_shape S capacity b e in
    let t = S.ec_slave b'.io in
    (
      count,
      room,
      rw shape (length-slave_infos n 1 t),
      rw shape (
          get_elem?-slave_infos n 1 k t
          ∙ ap (λ j. if ltb k n then some (slave_info (t j) j) else none) (omega arith)),
    )

pub entry_count-eq-min :
    (capacity : ℤ) (l : OeList)
    → entry_count capacity l ≡ min l.entries (pos_part capacity % 2 ^ 16)
unfolding entry_count
entry_count-eq-min capacity l = ground arith

sa_od_entries_shape :
    {I : Type 0} (S : Soem I) (C : Coe I) (slave item : ℕ) (writable : Bool) (capacity : ℤ)
    (b : Bridge I) {n : ℕ} {out : List OdEntry} {b' : Bridge I}
    → sa_od_entries S C slave item writable capacity b ≡ (pos n, out, b')
    → (n ≡ entry_count capacity b'.od_entries) × (out ≡ od_entries_from n 0 b'.od_entries)
unfolding sa_od_entries
sa_od_entries_shape S C slave item writable capacity b e = ground arith

-- The entries that are handed out are as many as the object has, or as 16 bits hold of the caller's
-- room, whichever is less, and so never more than there is room for; place `k` holds the entry `k`.
pub sa_od_entries_lem :
    {I : Type 0} (S : Soem I) (C : Coe I) (slave item : ℕ) (writable : Bool) (capacity : ℤ)
    (b : Bridge I) {n : ℕ} {out : List OdEntry} {b' : Bridge I} (k : ℕ)
    → sa_od_entries S C slave item writable capacity b ≡ (pos n, out, b')
    → (n ≡ min b'.od_entries.entries (pos_part capacity % 2 ^ 16))
      × (n ≤ pos_part capacity)
      × (length out ≡ n)
      × (get_elem? out k ≡ (if ltb k n then some (od_entry b'.od_entries k) else none))
sa_od_entries_lem S C slave item writable capacity b {n} {out} {b'} k e =
    let (count, shape) = sa_od_entries_shape S C slave item writable capacity b e in
    let l = b'.od_entries in
    let least : n ≡ min l.entries (pos_part capacity % 2 ^ 16) =
      count ∙ entry_count-eq-min capacity l in
    (
      least,
      omega arith,
      rw shape (length-od_entries_from n 0 l),
      rw shape (
          get_elem?-od_entries_from n 0 k l
          ∙ ap (λ j. if ltb k n then some (od_entry l j) else none) (omega arith)),
    )

-- An answer about an item of an object dictionary is about the slave whose dictionary was read last,
-- about an item that its list has, and on an open master that has the slave.
pub sa_od_item_fresh :
    {I : Type 0} (S : Soem I) (C : Coe I) (slave item : ℕ) (writable : Bool) (b : Bridge I) {k : ℕ}
    → (sa_od_item S C slave item writable b).0 ≡ pos k
    → (b.od_list.slave ≡ slave)
      × (item < b.od_list.entries)
      × (b.opened ≡ true)
      × (1 ≤ slave)
      × (slave ≤ S.ec_slavecount b.io)
unfolding sa_od_item
sa_od_item_fresh S C slave item writable b e = ground arith
