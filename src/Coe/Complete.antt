-- ===== src/Coe/Complete.antt =====
-- The Complete Access forms of ethercatcoe.c, `ecx_readPDOassignCA` and `ecx_readPDOmapCA`: a whole
-- object is read into a table of the context.
pub mod Kinds
pub mod Laws
mod Tests
use servo_assistant.Base.{
  ℕ, zero, suc, ◌+◌, ◌-◌, ◌*◌, ◌%◌, ◌^◌, is_positive, Bool, true, not, ◌||◌, ◌&&◌, Option, none,
  some, List, ◌++◌, ltb, ◌==◌, if◌then◌else◌, ◌>>=◌, set, drop, length,
}
use servo_assistant.Coe.Mailbox.{Mailbox}
use servo_assistant.Coe.Layout.{byte_at, word_at}
use servo_assistant.Coe.Upload.{Upload, sdo_read}
use servo_assistant.Coe.Dictionary.{timeout_rxm}
use servo_assistant.Coe.Mapping.{SyncManagers, Mapped, max_sm, type_bug, add_mapping}

-- The tables of a thread, as bytes: `SMcommtype` (10), `PDOassign` (514) and `PDOdesc` (1026). Each
-- begins with a number of entries, which stand from byte 2 on.
pub record Tables : Type 0 where
  pub sm_comm : List ℕ
  pub pdo_assign : List ℕ
  pub pdo_desc : List ℕ

-- `n = 0`, then what the upload wrote, from the first byte on.
unfoldable pub stored : List ℕ → List ℕ → List ℕ
stored bytes table = bytes ++ drop (length bytes) (set table 0 0)

-- The low bytes of the entries of a PDO description, with `k` of them left from `j`, counted from 1.
unfoldable pub described_bits : ℕ → ℕ → List ℕ → ℕ
described_bits zero j desc = 0
described_bits (suc k) j desc = byte_at desc (4 * j - 2) % 2 ^ 8 + described_bits k (j + 1) desc

-- What the loop over the PDOs carries.
pub record Assigned (I : Type 0) : Type 0 where
  pub size : ℕ
  pub tables : Tables
  pub io : I

module _ {I : Type 0} (M : Mailbox I) (slave : ℕ) where
  -- The PDO whose index is entry `k`, counted from 1, of the assign table.
  unfoldable pub add_pdo : ℕ → Assigned I → Option (Assigned I)
  add_pdo k a =
      let index = word_at a.tables.pdo_assign (2 * k) in
      if ltb 0 index
      then (do
        u ← sdo_read M slave index 0 true 1026 timeout_rxm a.io
        let desc = stored u.bytes a.tables.pdo_desc
        some (record {
          size = a.size + described_bits (byte_at desc 0 % 2 ^ 8) 1 desc;
          tables = record a.tables { pdo_desc = desc };
          io = u.io;
        }))
      else some a

  unfoldable pub add_pdos : ℕ → ℕ → Assigned I → Option (Assigned I)
  add_pdos zero k a = some a
  add_pdos (suc n) k a = do a1 ← add_pdo k a; add_pdos n (k + 1) a1

  unfoldable pub read_pdo_assign_ca : ℕ → Tables → I → Option (Assigned I)
  read_pdo_assign_ca assign t i = do
    u ← sdo_read M slave assign 0 true 514 timeout_rxm i
    let table = stored u.bytes t.pdo_assign
    let a : Assigned I = record { size = 0; tables = record t { pdo_assign = table }; io = u.io }
    let count = byte_at table 0 % 2 ^ 8
    if is_positive u.wkc && ltb 0 count then add_pdos count 1 a else some a

  module _ (S : SyncManagers I) where
    -- The type of a sync manager is taken from the table; a type of 0 is not corrected here. The table
    -- and the arrays that are written to have EC_MAXSM places.
    unfoldable pub map_sync_manager_ca : ℕ → Tables × Mapped I → Option (Tables × Mapped I)
    map_sync_manager_ca sm (t, m) =
        let type = byte_at t.sm_comm (2 + sm) in
        let bug = type_bug sm type m.bug in
        let used = if type == 0 then type else (type + bug) % 2 ^ 8 in
        let i1 = S.set_sm_type slave sm used m.io in
        let i2 = if used == 0 then S.clear_sm_enable slave sm i1 else i1 in
        if not (ltb sm max_sm)
        then none
        else if used == 3 || used == 4
        then (do
          a ← read_pdo_assign_ca (0x1c10 + sm) t i2
          some (a.tables, add_mapping M S slave sm used a.size (record m { bug = bug; io = a.io })))
        else some (t, record m { bug = bug; io = i2 })

    unfoldable pub map_from_ca : ℕ → ℕ → Tables × Mapped I → Option (Tables × Mapped I)
    map_from_ca zero sm m = some m
    map_from_ca (suc k) sm m = do m1 ← map_sync_manager_ca sm m; map_from_ca k (sm + 1) m1

    -- More sync managers than the slave table has places for are reported.
    unfoldable pub read_pdo_map_ca : Tables → I → Option (ℕ × (Tables × Mapped I))
    read_pdo_map_ca t i = do
      u ← sdo_read M slave 0x1c00 0 true 10 timeout_rxm i
      let table = stored u.bytes t.sm_comm
      let count = byte_at table 0
      let active = is_positive u.wkc && ltb 2 count
      let io = if active && ltb max_sm count then M.packeterror slave 0 0 10 u.io else u.io
      let m : Tables × Mapped I =
          (record t { sm_comm = table }, record { osize = 0; isize = 0; bug = 0; io = io })
      let managers = if ltb max_sm count then max_sm else count
      result ← if active then map_from_ca (managers - 2) 2 m else some m
      some (if ltb 0 result.1.isize || ltb 0 result.1.osize then 1 else 0, result)
