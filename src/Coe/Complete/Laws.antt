-- ===== src/Coe/Complete/Laws.antt =====
-- The reading of a mapping by Complete Access ends.
use servo_assistant.Base.{
  ℕ, sym, ◌∙◌, List, arith, ◌≤◌, lt→ltb, zero, suc, ◌+◌, ◌-◌, ◌*◌, ◌%◌, ◌^◌, ◌<◌, ◌≡◌, ◌⊎◌, inl,
  inr, refl, is_positive, true, ◌&&◌, ◌||◌, some, ltb, ◌==◌, Bool-cases, if◌then◌else◌,
}
use mathlib.Core.Path.{subst}
use servo_assistant.Coe.Mailbox.{Mailbox, KeepsSize}
use servo_assistant.Coe.Layout.{byte_at, word_at}
use servo_assistant.Coe.Upload.Bounds.{sdo_read_total}
use servo_assistant.Coe.Dictionary.{timeout_rxm}
use servo_assistant.Coe.Mapping.{SyncManagers, Mapped, max_sm, type_bug, add_mapping}
use servo_assistant.Coe.Mapping.Laws.{bits, add_mapping-bits, found, found_lem}
use servo_assistant.Coe.Complete.Kinds.{Explained, type_bug_le, mapped-Explained}
use servo_assistant.Coe.Complete.{
  Tables, Assigned, stored, described_bits, add_pdo, add_pdos, read_pdo_assign_ca,
  map_sync_manager_ca, map_from_ca, read_pdo_map_ca,
}

-- An object of a PDO has at most 255 bits.
described_bits_le : (k j : ℕ) (desc : List ℕ) → described_bits k j desc ≤ 255 * k
unfolding described_bits
described_bits_le zero j desc = omega arith
described_bits_le (suc k) j desc = omega (arith, described_bits_le k (j + 1) desc)

module _ {I : Type 0} (M : Mailbox I) (K : KeepsSize M) (slave : ℕ) where
  add_pdo-some :
      (k : ℕ) (a : Assigned I)
      → (v : Assigned I) × (add_pdo M slave k a ≡ some v)
        × (v.size ≤ a.size + 65025)
        × (v.tables.sm_comm ≡ a.tables.sm_comm)
  unfolding add_pdo
  add_pdo-some k a =
      let index = word_at a.tables.pdo_assign (2 * k) in
      let (u, e, b, c) = sdo_read_total M K slave index 0 true 1026 timeout_rxm a.io in
      let desc = stored u.bytes a.tables.pdo_desc in
      elim (Bool-cases (ltb 0 index)) [
        | inl p ↦ (
          record {
            size = a.size + described_bits (byte_at desc 0 % 2 ^ 8) 1 desc;
            tables = record a.tables { pdo_desc = desc };
            io = u.io;
          },
          rw (add_pdo, p, e),
          omega (arith, described_bits_le (byte_at desc 0 % 2 ^ 8) 1 desc),
          refl,
        )
        | inr p ↦ (a, rw (add_pdo, p), omega arith, refl)
      ]

  add_pdos-some :
      (n k : ℕ) (a : Assigned I)
      → (v : Assigned I) × (add_pdos M slave n k a ≡ some v)
        × (v.size ≤ a.size + 65025 * n)
        × (v.tables.sm_comm ≡ a.tables.sm_comm)
  unfolding add_pdos
  add_pdos-some zero k a = (a, refl, omega arith, refl)
  add_pdos-some (suc n) k a =
      let (a1, e, b, x) = add_pdo-some k a in
      let (v, f, c, y) = add_pdos-some n (k + 1) a1 in (v, rw (add_pdos, e) f, omega arith, y ∙ x)

  assign_ca-some :
      (assign : ℕ) (t : Tables) (i : I)
      → (v : Assigned I) × (read_pdo_assign_ca M slave assign t i ≡ some v)
        × (v.size ≤ 16_581_375)
        × (v.tables.sm_comm ≡ t.sm_comm)
  unfolding read_pdo_assign_ca
  assign_ca-some assign t i =
      let (u, e, b, c) = sdo_read_total M K slave assign 0 true 514 timeout_rxm i in
      let table = stored u.bytes t.pdo_assign in
      let a : Assigned I = record {
        size = 0;
        tables = record t { pdo_assign = table };
        io = u.io;
      } in
      let count = byte_at table 0 % 2 ^ 8 in
      let (v, f, small, same) = add_pdos-some count 1 a in
      elim (Bool-cases (is_positive u.wkc && ltb 0 count)) [
        | inl p ↦ (v, rw (read_pdo_assign_ca, e, p) f, omega arith, same)
        | inr p ↦ (a, rw (read_pdo_assign_ca, e, p), omega arith, refl)
      ]

  module _ (S : SyncManagers I) where
    sync_manager_ca-some :
        (sm : ℕ) (m : Tables × Mapped I)
        → sm < max_sm
        → Explained m.0.sm_comm m.1
        → (v : Tables × Mapped I) × (map_sync_manager_ca M slave S sm m ≡ some v)
          × (bits v.1 ≤ bits m.1 + 16_581_375)
          × (v.0.sm_comm ≡ m.0.sm_comm)
          × Explained m.0.sm_comm v.1
    unfolding map_sync_manager_ca
    sync_manager_ca-some sm (t, m) h x =
        let type = byte_at t.sm_comm (2 + sm) in
        let bug = type_bug sm type m.bug in
        let used = if type == 0 then type else (type + bug) % 2 ^ 8 in
        let i1 = S.set_sm_type slave sm used m.io in
        let i2 : I = if used == 0 then S.clear_sm_enable slave sm i1 else i1 in
        let (a, e, small, same) = assign_ca-some (0x1c10 + sm) t i2 in
        let inside : ltb sm max_sm ≡ true = lt→ltb _ _ h in
        elim (Bool-cases (used == 3 || used == 4)) [
          | inl p ↦ (
            (a.tables, add_mapping M S slave sm used a.size (record m { bug = bug; io = a.io })),
            rw (map_sync_manager_ca, inside, p, e),
            omega (
              arith,
              add_mapping-bits M S slave sm used a.size (record m { bug = bug; io = a.io }),
            ),
            same,
            mapped-Explained M S slave sm a.size t.sm_comm m a.io h x p,
          )
          | inr p ↦ (
            (t, record m { bug = bug; io = i2 }),
            rw (map_sync_manager_ca, inside, p),
            omega arith,
            refl,
            record {
              outputs = x.outputs;
              inputs = x.inputs;
              bug = type_bug_le sm type m.bug x.bug;
            },
          )
        ]

    map_from_ca-some :
        (k sm : ℕ) (m : Tables × Mapped I)
        → sm + k ≤ max_sm
        → Explained m.0.sm_comm m.1
        → (v : Tables × Mapped I) × (map_from_ca M slave S k sm m ≡ some v)
          × (bits v.1 ≤ bits m.1 + 16_581_375 * k)
          × Explained v.0.sm_comm v.1
    unfolding map_from_ca
    map_from_ca-some zero sm m h x = (m, refl, omega arith, x)
    map_from_ca-some (suc k) sm m h x =
        let (m1, e, b, same, x1) = sync_manager_ca-some sm m (omega arith) x in
        let (v, f, c, y) =
          map_from_ca-some k (sm + 1) m1 (omega arith)
            (subst (λ t. Explained t m1.1) (sym same) x1) in
        (v, rw (map_from_ca, e) f, omega arith, y)

-- The reading of the mapping by Complete Access ends, whatever the slave answers, and reads and writes
-- no sync manager outside its arrays. The bits of the outputs and the inputs are together less than
-- 2 ^ 31, so that no `int` overflows, and the result is 1 exactly if there are any. There are outputs
-- only if the table of types that was read has one of outputs, 3, or of the number before it, for
-- slaves that count from 0, and inputs only if it has one of inputs, 4, or of the number before it.
pub read_pdo_map_ca_total :
    {I : Type 0} (M : Mailbox I)
    → KeepsSize M
    → (S : SyncManagers I) (slave : ℕ) (t : Tables) (i : I)
    → (result : ℕ) × (m : Tables × Mapped I) × (read_pdo_map_ca M slave S t i ≡ some (result, m))
      × (bits m.1 < 2 ^ 31)
      × Explained m.0.sm_comm m.1
      × (((result ≡ 1) × (0 < bits m.1)) ⊎ ((result ≡ 0) × (bits m.1 ≡ 0)))
unfolding read_pdo_map_ca
read_pdo_map_ca_total {I = I} M K S slave t i =
    let (u, e, b, c) = sdo_read_total M K slave 0x1c00 0 true 10 timeout_rxm i in
    let table = stored u.bytes t.sm_comm in
    let count = byte_at table 0 in
    let active = is_positive u.wkc && ltb 2 count in
    let io : I = if active && ltb max_sm count then M.packeterror slave 0 0 10 u.io else u.io in
    let m : Tables × Mapped I =
      (record t { sm_comm = table }, record { osize = 0; isize = 0; bug = 0; io = io }) in
    let managers = if ltb max_sm count then max_sm else count in
    let nothing : Explained table m.1 = record {
      outputs = inl refl;
      inputs = inl refl;
      bug = omega arith;
    } in
    let few : managers ≤ 8 = ground arith in
    elim (Bool-cases (is_positive u.wkc && ltb 2 count)) [
      | inl p ↦
          (let some_left : 2 ≤ managers = ground arith in
            let (v, f, small, x) =
              map_from_ca-some M K slave S (managers - 2) 2 m (omega arith) nothing in
            (
              found v.1,
              v,
              rw (read_pdo_map_ca, e, p) (rw (rw p at f)),
              omega arith,
              x,
              found_lem v.1,
            ))
      | inr p ↦ (found m.1, m, rw (read_pdo_map_ca, e, p), omega arith, nothing, found_lem m.1)
    ]
