-- ===== src/Coe/Mapping.antt =====
-- `ecx_readPDOmap` of ethercatcoe.c: the sync managers of a slave, and the bits that they map.
pub mod Laws
mod Tests
use servo_assistant.Base.{
  ℕ, zero, suc, ◌+◌, ◌-◌, ◌*◌, ◌/◌, ◌%◌, ◌^◌, is_positive, Bool, not, ◌||◌, ◌&&◌, Option, none,
  some, ltb, ◌==◌, if◌then◌else◌, ◌>>=◌,
}
use servo_assistant.Coe.Mailbox.{Mailbox}
use servo_assistant.Coe.Pdo.{read_number, read_pdo_assign}

-- What is written to the sync managers of a slave: the type, the enable flag and the length.
pub record SyncManagers (I : Type 0) : Type 0 where
  pub set_sm_type : ℕ → ℕ → ℕ → I → I
  pub clear_sm_enable : ℕ → ℕ → I → I
  pub set_sm_length : ℕ → ℕ → ℕ → I → I

-- EC_MAXSM
abbrev pub max_sm : ℕ
max_sm = 8

-- `SMt_bug_add` after a type: type 2 at sync manager 2 is taken for a fault of the slave.
unfoldable pub type_bug : ℕ → ℕ → ℕ → ℕ
type_bug sm t bug = if sm == 2 && t == 2 then 1 else bug

-- The type that is used for the one that was read; 8 bits.
unfoldable pub corrected_type : ℕ → ℕ → ℕ → ℕ
corrected_type sm t bug =
    let t1 = if t == 0 then t else (t + bug) % 2 ^ 8 in
    let t2 = if sm == 2 && t1 == 0 then 3 else t1 in if sm == 3 && t2 == 0 then 4 else t2

-- What the loop carries: `*Osize`, `*Isize`, `SMt_bug_add`.
pub record Mapped (I : Type 0) : Type 0 where
  pub osize : ℕ
  pub isize : ℕ
  pub bug : ℕ
  pub io : I

module _ {I : Type 0} (M : Mailbox I) (S : SyncManagers I) (slave : ℕ) where
  -- A mapping that is found is the length of the sync manager, in bytes, and is added to the
  -- outputs or the inputs.
  unfoldable pub add_mapping : ℕ → ℕ → ℕ → Mapped I → Mapped I
  add_mapping sm t size m =
      let io = S.set_sm_length slave sm ((size + 7) / 8 % 2 ^ 16) m.io in
      if size == 0
      then m
      else if t == 3
      then record m { osize = m.osize + size; io = io }
      else record m { isize = m.isize + size; io = io }

  -- The arrays that a sync manager's type and settings are written to have EC_MAXSM places.
  unfoldable pub use_type : ℕ → ℕ → Mapped I → Option (Mapped I)
  use_type sm t m =
      let i1 = S.set_sm_type slave sm t m.io in
      let i2 = if t == 0 then S.clear_sm_enable slave sm i1 else i1 in
      if not (ltb sm max_sm)
      then none
      else if t == 3 || t == 4
      then (do
        (size, i3) ← read_pdo_assign M slave (2 ^ 16) (0x1c10 + sm) i2
        some (add_mapping sm t size (record m { io = i3 })))
      else some (record m { io = i2 })

  unfoldable pub map_sync_manager : ℕ → Mapped I → Option (Mapped I)
  map_sync_manager sm m = do
    (wkc, t, i1) ← read_number M slave 0x1c00 (sm + 1) 1 m.io
    let bug = type_bug sm t m.bug
    if is_positive wkc
        then use_type sm (corrected_type sm t bug) (record m { bug = bug; io = i1 })
        else some (record m { io = i1 })

  -- `for (iSM = 2; iSM < nSM; iSM++)`, with `k` rounds left from `sm`.
  unfoldable pub map_from : ℕ → ℕ → Mapped I → Option (Mapped I)
  map_from zero sm m = some m
  map_from (suc k) sm m = do m1 ← map_sync_manager sm m; map_from k (sm + 1) m1

  -- The result, 1 or 0, and what the loop carried.
  unfoldable pub read_pdo_map : I → Option (ℕ × Mapped I)
  read_pdo_map i = do
    (wkc, count, i1) ← read_number M slave 0x1c00 0 1 i
    let m : Mapped I = record { osize = 0; isize = 0; bug = 0; io = i1 }
    let managers = if ltb max_sm count then max_sm else count
    result ← if is_positive wkc && ltb 2 count then map_from (managers - 2) 2 m else some m
    some (if ltb 0 result.isize || ltb 0 result.osize then 1 else 0, result)
